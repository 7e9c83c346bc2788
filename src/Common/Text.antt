-- ===== src/Common/Text.antt =====
-- Texts as lists of bytes, and decimal numbers.
use Prim.Native.Char.{code}
use Prim.Native.Nat.{ℕ, zero, suc, ◌+◌, ◌/◌, ◌%◌, ◌≤◌, ◌<◌}
use Prim.Native.String.{String}
use mathlib.Core.List.{List, [], ◌∷◌, ◌++◌}
use native.Mathlib.Omega.{arith}
use android_device_samsung_d.Common.Lists.{length, length-append}
use android_device_samsung_d.Common.Tests.{ltb, if◌then◌else◌}

-- The bytes of an ASCII text.
abbrev pub codes : String → List ℕ
codes String.[] = []
codes (String.◌∷◌ c s) = code c ∷ codes s

-- The decimal digits of a number, on fuel.
unfoldable pub decimal : ℕ → ℕ → List ℕ
decimal zero n = []
decimal (suc fuel) n =
    let higher = decimal fuel (n / 10) in
    if ltb n 10 then (48 + n) ∷ [] else higher ++ (48 + n % 10) ∷ []

pub length-decimal_10 : (fuel n : ℕ) → n < 10 → length (decimal fuel n) ≤ 1
unfolding decimal
length-decimal_10 zero n small = omega arith
length-decimal_10 (suc fuel) n small = ground arith

pub length-decimal_100 : (fuel n : ℕ) → n < 100 → length (decimal fuel n) ≤ 2
unfolding decimal
length-decimal_100 zero n small = omega arith
length-decimal_100 (suc fuel) n small = ground (
  arith,
  length-decimal_10 fuel (n / 10),
  length-append (decimal fuel (n / 10)) ((48 + n % 10) ∷ []),
)

pub length-decimal_1000 : (fuel n : ℕ) → n < 1000 → length (decimal fuel n) ≤ 3
unfolding decimal
length-decimal_1000 zero n small = omega arith
length-decimal_1000 (suc fuel) n small = ground (
  arith,
  length-decimal_100 fuel (n / 10),
  length-append (decimal fuel (n / 10)) ((48 + n % 10) ∷ []),
)
