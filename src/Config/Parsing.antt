-- ===== src/Config/Parsing.antt =====
-- The configuration files (gps/utils/loc_cfg.{h,cpp}): the lines, the table and its entries.
-- `param_type`.
use android_device_samsung_d.Common.{
  ℕ, zero, suc, ◌+◌, ◌-◌, ◌%◌, ◌^◌, Bool, true, false, ◌&&◌, ◌||◌, Option, none, some, List, [],
  ◌∷◌, map, ◌==◌, if◌then◌else◌, length, take, eq_bytes, ℤ, pos, negsuc,
}
use android_device_samsung_d.Config.Spaces.{loc_util_trim_space}

pub data ParamType : Type 0 where
  string_param number_param float_param other_param : ParamType

-- What `param_ptr` points to: a string, an `int` by its 32-bit pattern, a `double` by its 64-bit pattern.
pub data ParamValue : Type 0 where
  string_value : List ℕ → ParamValue
  int_value double_value : ℕ → ParamValue

-- `loc_param_s_type`: whether `param_ptr` is set and what it points to, and the byte that `param_set`
-- points to, if it is set.
pub record LocParam : Type 0 where
  pub param_name : List ℕ
  pub has_ptr : Bool
  pub stored : ParamValue
  pub param_set : Option ℕ
  pub param_type : ParamType

-- `loc_param_v_type`.
pub record ConfigValue : Type 0 where
  pub name : List ℕ
  pub str_value : List ℕ
  pub int_number : ℕ
  pub double_number : ℕ

abbrev pub loc_max_param_string : ℕ
loc_max_param_string = 80

abbrev pub loc_max_param_line : ℕ
loc_max_param_line = 160

abbrev pub null_text : List ℕ
null_text = b'N' ∷ b'U' ∷ b'L' ∷ b'L' ∷ []

-- What is stored of a value, if the entry has one of the three types.
unfoldable pub stored_value : ParamType → ConfigValue → Option ParamValue
stored_value string_param v = some (
    string_value
      (if eq_bytes v.str_value null_text then [] else take loc_max_param_string v.str_value))
stored_value number_param v = some (int_value v.int_number)
stored_value float_param v = some (double_value v.double_number)
stored_value other_param v = none

abbrev pub mark_set : Option ℕ → Option ℕ
mark_set none = none
mark_set (some old) = some 1

abbrev pub store_value : LocParam → Option ParamValue → LocParam × Bool
store_value entry none = (entry, false)
store_value entry (some x) =
    (record entry { stored = x; param_set = mark_set entry.param_set }, true)

-- `loc_set_config_entry`: the entry, and whether the function returns 0.
unfoldable pub loc_set_config_entry : LocParam → ConfigValue → LocParam × Bool
unfolding stored_value
loc_set_config_entry entry v =
    if eq_bytes entry.param_name v.name && entry.has_ptr
    then store_value entry (stored_value entry.param_type v)
    else (entry, false)

-- The characters before a separator, and those after it.
unfoldable pub token : ℕ → List ℕ → List ℕ × List ℕ
token separator [] = ([], [])
token separator (c ∷ cs) =
    let rest = token separator cs in if c == separator then ([], cs) else (c ∷ rest.0, rest.1)

-- `strtok_r` with one separator: the separators before the token are skipped.
unfoldable pub strtok : ℕ → List ℕ → Option (List ℕ × List ℕ)
unfolding token
strtok separator [] = none
strtok separator (c ∷ cs) =
    if c == separator then strtok separator cs else some (token separator (c ∷ cs))

-- The digits of `strtol`, `atoi` and `atof`.
pub record Numbers : Type 0 where
  pub strtol_16 : List ℕ → ℕ
  pub atoi : List ℕ → ℕ
  pub atof : List ℕ → ℕ

-- `"0x"` or `"0X"` and a character at least.
unfoldable pub hex_digits : List ℕ → Option (List ℕ)
hex_digits (a ∷ b ∷ c ∷ cs) = if a == b'0' && (b == b'x' || b == b'X') then some (c ∷ cs) else none
hex_digits _ = none

module _ (numbers : Numbers) where
  -- The numbers of a text; the bits of the double 0.0 are 0.
  abbrev pub with_number : List ℕ → List ℕ → Option (List ℕ) → ConfigValue
  with_number name text (some digits) = record {
    name = name;
    str_value = text;
    int_number = numbers.strtol_16 digits;
    double_number = 0;
  }
  with_number name text none = record {
    name = name;
    str_value = text;
    int_number = numbers.atoi text;
    double_number = numbers.atof text;
  }

  abbrev pub parse_value : List ℕ → Option (List ℕ × List ℕ) → Option ConfigValue
  parse_value name none = none
  parse_value name (some (text, rest)) =
      let trimmed = loc_util_trim_space text in
      some (with_number (loc_util_trim_space name) trimmed (hex_digits trimmed))

  abbrev pub parse_name : Option (List ℕ × List ℕ) → Option ConfigValue
  parse_name none = none
  parse_name (some (name, rest)) = parse_value name (strtok b'=' rest)

  -- A line; `none` if it is skipped.
  unfoldable pub parse_line : List ℕ → Option ConfigValue
  unfolding strtok hex_digits
  parse_line line = parse_name (strtok b'=' line)

-- `fgets` with room for `n` characters and a NUL, on what is left of the file.
unfoldable pub get_line : ℕ → List ℕ → List ℕ × List ℕ
get_line zero s = ([], s)
get_line (suc n) [] = ([], [])
get_line (suc n) (c ∷ cs) =
    let rest = get_line n cs in if c == b'\n' then (c ∷ [], cs) else (c ∷ rest.0, rest.1)

-- The table with a value in every entry that it is for, and how many entries that are.
unfoldable pub set_entries : ConfigValue → List LocParam → List LocParam × ℕ
unfolding loc_set_config_entry
set_entries v [] = ([], 0)
set_entries v (entry ∷ entries) =
    let (after, is_set) = loc_set_config_entry entry v in
    let (others, n) = set_entries v entries in (after ∷ others, if is_set then 1 + n else n)

abbrev pub clear : Option ℕ → Option ℕ
clear none = none
clear (some old) = some 0

-- The validity byte is cleared.
unfoldable pub clear_entry : LocParam → LocParam
clear_entry entry = record entry { param_set = clear entry.param_set }

-- A round of the loop with a line: the table, and `num_params`, an `unsigned int`.
abbrev pub use_value : Option ConfigValue → List LocParam → ℕ → List LocParam × ℕ
use_value none table num_params = (table, num_params)
use_value (some v) table num_params =
    let (after, n) = set_entries v table in (after, (num_params + 2 ^ 32 - n) % 2 ^ 32)

module _ (numbers : Numbers) where
  -- The loop of `loc_read_conf_r`, on fuel: the table, and what is left of the file.
  unfoldable pub read_loop : ℕ → List LocParam → ℕ → List ℕ → List LocParam × List ℕ
  read_loop zero table num_params file = (table, file)
  read_loop (suc fuel) table num_params [] = (table, [])
  read_loop (suc fuel) table num_params (c ∷ cs) =
      let (line, file) = get_line (loc_max_param_line - 1) (c ∷ cs) in
      let (after, left) = use_value (parse_line numbers line) table num_params in
      let rest = read_loop fuel after left file in if num_params == 0 then (table, c ∷ cs) else rest

  -- `loc_read_conf_r`: what it returns, the table, and what is left of the file; `none` is NULL.
  unfoldable pub loc_read_conf_r : Option (List ℕ) → List LocParam → ℤ × (List LocParam × List ℕ)
  unfolding read_loop clear_entry
  loc_read_conf_r none table = (negsuc 0, (table, []))
  loc_read_conf_r (some file) table =
      (pos 0, read_loop (suc (length file)) (map clear_entry table) (length table) file)

  -- `loc_read_conf`: the caller's table, if there is one, and then the table of the module, from the start
  -- of the file again; `none` is a file that cannot be opened.
  unfoldable pub loc_read_conf :
      Option (List ℕ) → List LocParam → List LocParam → List LocParam × List LocParam
  unfolding loc_read_conf_r
  loc_read_conf none table own = (table, own)
  loc_read_conf (some file) [] own = ([], (loc_read_conf_r (some file) own).1.0)
  loc_read_conf (some file) (entry ∷ entries) own =
      ((loc_read_conf_r (some file) (entry ∷ entries)).1.0, (loc_read_conf_r (some file) own).1.0)
