-- ===== src/Config/Examples.antt =====
-- The strings and the configuration files at concrete inputs.
use android_device_samsung_d.Common.{
  ℕ, ◌-◌, ◌≤◌, ◌≡◌, refl, true, Option, none, some, List, [], ◌∷◌, map, arith,
}
use android_device_samsung_d.Config.Files.{
  conf_lines, concat, values_of, file_values, loc_read_conf_r-last,
}
use android_device_samsung_d.Config.Parsing.{
  string_param, number_param, ParamValue, string_value, int_value, LocParam, store_value, Numbers,
  parse_line, get_line, set_entries, clear_entry, read_loop, loc_read_conf_r,
}
use android_device_samsung_d.Config.Reading.{settings, last_stored}
use android_device_samsung_d.Config.Spaces.{loc_util_trim_space}
use android_device_samsung_d.Config.Splitting.{loc_util_split_string, loc_util_split_string-joined}
use android_device_samsung_d.Config.Trimming.{loc_util_trim_space-middle}

loc_util_trim_space-middle_example :
    (loc_util_trim_space (b' ' ∷ b'\t' ∷ b'a' ∷ b' ' ∷ b'b' ∷ b'\n' ∷ []) ≡ b'a' ∷ b' ' ∷ b'b' ∷ [])
    × (loc_util_trim_space (b' ' ∷ b'\t' ∷ []) ≡ b' ' ∷ b'\t' ∷ [])
loc_util_trim_space-middle_example =
    loc_util_trim_space-middle (b' ' ∷ b'\t' ∷ []) refl (b'a' ∷ b' ' ∷ []) (b'\n' ∷ []) b'b' refl
      refl refl

loc_util_split_string-joined_example :
    loc_util_split_string 2 b';' (b'a' ∷ b';' ∷ b'b' ∷ b';' ∷ b'c' ∷ [])
    ≡ (b'a' ∷ []) ∷ (b'b' ∷ []) ∷ []
loc_util_split_string-joined_example =
    loc_util_split_string-joined 1 b';' (b'a' ∷ []) ((b'b' ∷ []) ∷ (b'c' ∷ []) ∷ []) refl refl

-- Numbers of one decimal digit.
abbrev one_digit : List ℕ → ℕ
one_digit [] = 0
one_digit (c ∷ cs) = c - b'0'

abbrev digits : Numbers
digits = record { strtol_16 = one_digit; atoi = one_digit; atof = one_digit }

abbrev two_entries : List LocParam
two_entries =
    record {
      param_name = b'A' ∷ [];
      has_ptr = true;
      stored = int_value 7;
      param_set = some 0;
      param_type = number_param;
    }
    ∷ record {
      param_name = b'B' ∷ [];
      has_ptr = true;
      stored = string_value [];
      param_set = none;
      param_type = string_param;
    }
    ∷ []

abbrev one_line : List ℕ
one_line = b'A' ∷ b' ' ∷ b'=' ∷ b'5' ∷ b'\n' ∷ []

few_settings : settings (file_values digits one_line) (map clear_entry two_entries) ≤ 2
unfolding settings values_of conf_lines get_line parse_line set_entries clear_entry
    loc_util_trim_space
few_settings = omega arith

loc_read_conf_r-last_example :
    ((loc_read_conf_r digits (some one_line) two_entries).1.0
      ≡ map
          (λ e.
            (store_value
              (clear_entry e)
              (last_stored (file_values digits one_line) (clear_entry e))).0)
          two_entries)
    × (concat (conf_lines 6 one_line) ≡ one_line)
loc_read_conf_r-last_example =
    loc_read_conf_r-last digits two_entries one_line (omega arith) few_settings

-- What the entries hold: the number is read and marked, the string is not set.
read_entries :
    map {B = ParamValue × Option ℕ}
      (λ e. (e.stored, e.param_set))
      (loc_read_conf_r digits (some one_line) two_entries).1.0
    ≡ (int_value 5, some 1) ∷ (string_value [], none) ∷ []
unfolding loc_read_conf_r read_loop set_entries parse_line get_line clear_entry loc_util_trim_space
read_entries = refl
