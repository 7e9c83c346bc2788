-- ===== src/Target/Detection.antt =====
-- `loc_get_target` (gps/utils/loc_target.{h,cpp}) and `loc_get_target_name` (gps/utils/loc_log.cpp).
-- The files that are read.
use android_device_samsung_d.Common.{
  ℕ, zero, suc, ◌+◌, ◌-◌, ◌*◌, ◌/◌, ◌%◌, ◌^◌, bit_or, Bool, true, false, not, ◌||◌, Option, none,
  some, List, [], ◌∷◌, ◌++◌, leb, ◌==◌, if◌then◌else◌, codes, length, eq_bytes, is_some,
}
use android_device_samsung_d.Config.Parsing.{get_line}

pub data SysFile : Type 0 where
  hw_platform soc_id hw_platform_dep id_dep mdm : SysFile

-- What the device answers: the value of `persist.qca1530` at each round, `none` if the call fails; that of
-- `ro.baseband`; which files are there; and what they hold, `none` if they cannot be opened.
pub record Device : Type 0 where
  pub qca1530 : ℕ → Option (List ℕ)
  pub baseband : List ℕ
  pub has_file : SysFile → Bool
  pub content : SysFile → Option (List ℕ)

abbrev pub line_len : ℕ
line_len = 100

-- `read_a_line`: whether the file could be opened, and the line.
abbrev pub line_of : Option (List ℕ) → Bool × List ℕ
line_of none = (false, [])
line_of (some file) = (true, (get_line (line_len - 1) file).0)

unfoldable pub read_a_line : Device → SysFile → Bool × List ℕ
unfolding get_line
read_a_line dev f = line_of (dev.content f)

abbrev pub qca1530_detect_timeout : ℕ
qca1530_detect_timeout = 30

abbrev pub qca_round : Option (List ℕ) → Bool → Bool
qca_round none later = false
qca_round (some value) later =
    if eq_bytes value (codes "yes")
    then true
    else if eq_bytes value (codes "detect")
    then later
    else false

-- The loop, with the rounds that are left.
unfoldable pub qca_loop : (ℕ → Option (List ℕ)) → ℕ → ℕ → Bool
qca_loop poll zero i = false
qca_loop poll (suc left) i = qca_round (poll i) (qca_loop poll left (i + 1))

unfoldable pub is_qca1530 : Device → Bool
unfolding qca_loop
is_qca1530 dev = qca_loop dev.qca1530 qca1530_detect_timeout 0

-- `TARGET_SET`, `getTargetGnssType` and the targets.
abbrev pub target_set : ℕ → ℕ → ℕ
target_set gnss ssc = bit_or (gnss * 2) ssc

abbrev pub get_target_gnss_type : ℕ → ℕ
get_target_gnss_type target = target / 2

abbrev pub target_mdm : ℕ
target_mdm = target_set 3 1

abbrev pub target_apq_sa : ℕ
target_apq_sa = target_set 2 0

abbrev pub target_mpq : ℕ
target_mpq = target_set 0 0

abbrev pub target_msm_no_ssc : ℕ
target_msm_no_ssc = target_set 1 0

abbrev pub target_qca1530 : ℕ
target_qca1530 = target_set 4 0

abbrev pub target_unknown : ℕ
target_unknown = target_set 5 0

-- `(unsigned int)-1`.
abbrev pub no_target : ℕ
no_target = 2 ^ 32 - 1

-- `memcmp` with a prefix: what follows it.
unfoldable pub after_prefix : List ℕ → List ℕ → Option (List ℕ)
after_prefix [] s = some s
after_prefix (p ∷ ps) [] = none
after_prefix (p ∷ ps) (c ∷ cs) = let rest = after_prefix ps cs in if p == c then rest else none

-- `IS_STR_END` on the next character; the list ends where the NUL stands.
abbrev pub is_str_end : Option (List ℕ) → Bool
is_str_end none = false
is_str_end (some []) = true
is_str_end (some (c ∷ cs)) = c == b'\n' || c == b'\r'

unfoldable pub is_line : List ℕ → List ℕ → Bool
unfolding after_prefix
is_line text line = is_str_end (after_prefix text line)

-- The line of the first file if that is there, and else of the second.
unfoldable pub read_either : Device → SysFile → SysFile → List ℕ
unfolding read_a_line
read_either dev f other =
    if dev.has_file f then (read_a_line dev f).1 else (read_a_line dev other).1

unfoldable pub is_apq : Device → Bool
unfolding after_prefix
is_apq dev = is_some (after_prefix (codes "apq") dev.baseband)

unfoldable pub is_reference_platform : Device → Bool
unfolding is_line read_either
is_reference_platform dev =
    let rd = read_either dev hw_platform hw_platform_dep in
    is_line (codes "Liquid") rd || is_line (codes "Surf") rd || is_line (codes "MTP") rd

-- What is stored in `gTarget`; `none` if nothing is.
unfoldable pub detect : Device → Option ℕ
unfolding is_line read_either is_qca1530 is_apq is_reference_platform
detect dev =
    let id = read_either dev soc_id id_dep in
    if is_qca1530 dev
    then some target_qca1530
    else if is_apq dev
    then some (if is_line (codes "130") id then target_mpq else target_apq_sa)
    else if is_reference_platform dev
    then (if (read_a_line dev mdm).0 then some target_mdm else none)
    else if is_line (codes "142") id || is_line (codes "116") id
    then some target_msm_no_ssc
    else some target_unknown

abbrev pub stored : Option ℕ → ℕ → ℕ
stored none g = g
stored (some target) g = target

-- `loc_get_target`: what it returns, and `gTarget` after it, which are the same.
unfoldable pub loc_get_target : Device → ℕ → ℕ × ℕ
unfolding detect
loc_get_target dev g =
    let after = if not (g == no_target) then g else stored (detect dev) g in (after, after)

abbrev pub nth_name : ℕ → List (List ℕ) → List ℕ
nth_name i [] = []
nth_name zero (name ∷ names) = name
nth_name (suc i) (name ∷ names) = nth_name i names

abbrev pub target_names : List (List ℕ)
target_names =
    codes "GNSS_NONE"
    ∷ codes "GNSS_MSM"
    ∷ codes "GNSS_GSS"
    ∷ codes "GNSS_MDM"
    ∷ codes "GNSS_QCA1530"
    ∷ codes "GNSS_UNKNOWN"
    ∷ []

-- `loc_get_target_name`; the index is an `int`, and not negative after the shift.
unfoldable pub loc_get_target_name : ℕ → List ℕ
loc_get_target_name target =
    let index = get_target_gnss_type target in
    let name =
      nth_name (if leb (length target_names) index then length target_names - 1 else index)
        target_names in
    if target % 2 == 1
    then b' ' ∷ (name ++ codes " with SSC")
    else b' ' ∷ (name ++ codes "  without SSC")
