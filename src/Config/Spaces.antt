-- ===== src/Config/Spaces.antt =====
-- `loc_util_trim_space` (gps/utils/loc_misc_utils.cpp). A string is its bytes without the NUL.
-- `isspace` of the C locale.
use android_device_samsung_d.Common.{
  ℕ, Bool, true, false, not, ◌&&◌, ◌||◌, Option, none, some, List, [], ◌∷◌, ◌++◌, leb, ◌==◌,
  if◌then◌else◌, length, take,
}

abbrev pub is_space : ℕ → Bool
is_space c = c == b' ' || (leb 9 c && leb c 13)

-- The string while it is trimmed: the characters before `write_ptr`, those from there up to `scan_ptr`,
-- and whether `first_nonspace` is set; `last_nonspace` is its offset.
pub record Trim : Type 0 where
  pub written : List ℕ
  pub stale : List ℕ
  pub has_first : Bool
  pub last_nonspace : Option ℕ

-- `*(write_ptr++) = *scan_ptr; scan_ptr++`: what then stands between the two pointers.
unfoldable pub shift : ℕ → List ℕ → List ℕ
shift c [] = []
shift c (s ∷ ss) = ss ++ c ∷ []

-- A round of the loop.
unfoldable pub trim_step : ℕ → Trim → Trim
unfolding shift
trim_step c t =
    if t.has_first || not (is_space c)
    then record {
      written = t.written ++ c ∷ [];
      stale = shift c t.stale;
      has_first = true;
      last_nonspace =
          if not (is_space c) then some (length (t.written ++ c ∷ [])) else t.last_nonspace;
    }
    else record t { stale = t.stale ++ c ∷ [] }

unfoldable pub trim_loop : Trim → List ℕ → Trim
unfolding trim_step
trim_loop t [] = t
trim_loop t (c ∷ cs) = trim_loop (trim_step c t) cs

abbrev pub untrimmed : Trim
untrimmed = record { written = []; stale = []; has_first = false; last_nonspace = none }

-- The NUL after the last character that is no space.
unfoldable pub cut_at : Option ℕ → List ℕ → List ℕ
cut_at none s = s
cut_at (some n) s = take n s

-- The string after `loc_util_trim_space`.
unfoldable pub loc_util_trim_space : List ℕ → List ℕ
unfolding trim_loop cut_at
loc_util_trim_space s =
    let t = trim_loop untrimmed s in cut_at t.last_nonspace (t.written ++ t.stale)
