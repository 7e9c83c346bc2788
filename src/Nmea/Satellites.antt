-- ===== src/Nmea/Satellites.antt =====
-- The satellites of a position are the bits of `sv_used_mask`.
use android_device_samsung_d.Common.{
  ℕ, zero, suc, ◌+◌, ◌/◌, ◌%◌, ◌^◌, ◌≤◌, ◌<◌, ◌≡◌, refl, sym, ap, ◌∙◌, Bool, false, List, arith,
  ◌==◌, any,
}
use android_device_samsung_d.Nmea.Checksum.{sv_used_list}

-- Bit `j` of a mask.
abbrev pub bit : ℕ → ℕ → Bool
bit zero mask = mask % 2 == 1
bit (suc j) mask = bit j (mask / 2)

-- A mask has no bit from `k` on.
abbrev pub EndsAt : ℕ → ℕ → Type 0
EndsAt zero mask = mask ≡ 0
EndsAt (suc k) mask = EndsAt k (mask / 2)

abbrev pub lists : ℕ → List ℕ → Bool
lists s svs = any (λ x. x == s) svs

-- The loop lists no satellite before the one that it is at.
below-sv_used_list : (k i n mask s : ℕ) → s < i → lists s (sv_used_list k i n mask) ≡ false
unfolding sv_used_list
below-sv_used_list zero i n mask s low = refl
below-sv_used_list (suc k) i n mask s low =
    ground (arith, below-sv_used_list k (i + 1) (n + mask % 2) (mask / 2) s)

zero_bit : (j mask : ℕ) → mask ≡ 0 → bit j mask ≡ false
zero_bit zero mask e = ground arith
zero_bit (suc j) mask e = zero_bit j (mask / 2) (omega arith)

loop-bit :
    (k i n mask j : ℕ)
    → EndsAt k mask
    → n + k ≤ 32
    → lists (i + j) (sv_used_list k i n mask) ≡ bit j mask
unfolding sv_used_list
loop-bit zero i n mask j fits few = sym (zero_bit j mask fits)
loop-bit (suc k) i n mask zero fits few =
    ground (arith, below-sv_used_list k (i + 1) (n + mask % 2) (mask / 2) i)
loop-bit (suc k) i n mask (suc j) fits few =
    let svs = sv_used_list k (i + 1) (n + mask % 2) (mask / 2) in
    let here : i + suc j ≡ i + 1 + j = omega arith in
    let rest : lists (i + suc j) svs ≡ bit j (mask / 2) =
      ap (λ s. lists s svs) here
      ∙ loop-bit k (i + 1) (n + mask % 2) (mask / 2) j fits (omega arith) in
    ground (arith, zero_bit j (mask / 2))

word_ends : (mask : ℕ) → mask < 2 ^ 32 → EndsAt 32 mask
word_ends mask small = omega arith

-- For a 32-bit mask, 32 rounds of the loop are enough, and satellite `j + 1` is listed exactly if bit `j`
-- is set.
pub sv_used_list-bit :
    (mask j : ℕ) → mask < 2 ^ 32 → lists (1 + j) (sv_used_list 32 1 0 mask) ≡ bit j mask
sv_used_list-bit mask j small = loop-bit 32 1 0 mask j (word_ends mask small) (omega arith)
