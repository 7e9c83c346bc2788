-- ===== src/Config/Files.antt =====
-- The loop of `loc_read_conf_r` over a file (gps/utils/loc_cfg.cpp).
use android_device_samsung_d.Common.{
  ℕ, zero, suc, ◌-◌, ◌^◌, ◌≤◌, ◌<◌, ◌≡◌, refl, sym, ap, ◌∙◌, inl, inr, Option, none, some, List, [],
  ◌∷◌, ◌++◌, map, arith, ◌==◌, if◌then◌else◌, ==→eq, Bool-cases, length,
}
use android_device_samsung_d.Config.Parsing.{
  LocParam, ConfigValue, loc_max_param_line, store_value, loc_set_config_entry, Numbers, parse_line,
  get_line, set_entries, clear_entry, use_value, read_loop, loc_read_conf_r,
}
use android_device_samsung_d.Config.Reading.{
  after_values, settings, last_stored, after_values-last, settings-same, set_entries-none,
}

abbrev pub prepend : Option ConfigValue → List ConfigValue → List ConfigValue
prepend none vs = vs
prepend (some v) vs = v ∷ vs

abbrev table_after : List ConfigValue → List LocParam → List LocParam
table_after vs table = map (after_values vs) table

after-set :
    (v : ConfigValue) (vs : List ConfigValue) (table : List LocParam)
    → table_after vs (set_entries v table).0 ≡ table_after (v ∷ vs) table
unfolding after_values set_entries
after-set v vs [] = refl
after-set v vs (entry ∷ entries) =
    ap (λ t. after_values vs (loc_set_config_entry entry v).0 ∷ t) (after-set v vs entries)

after_nothing : (table : List LocParam) → table_after [] table ≡ table
unfolding after_values
after_nothing [] = refl
after_nothing (entry ∷ entries) = ap (λ t. entry ∷ t) (after_nothing entries)

-- Values that are for no entry leave the table.
after-none :
    (vs : List ConfigValue) (table : List LocParam)
    → settings vs table ≡ 0
    → table_after vs table ≡ table
unfolding settings
after-none [] table free = after_nothing table
after-none (v ∷ vs) table free =
    let now : (set_entries v table).1 ≡ 0 = omega arith in
    let more : settings vs table ≡ 0 = omega arith in
    sym (after-set v vs table)
    ∙ ap (table_after vs) (set_entries-none v table now)
    ∙ after-none vs table more

settings-prepend :
    (o : Option ConfigValue) (vs : List ConfigValue) (table : List LocParam) (n : ℕ)
    → settings (prepend o vs) table ≤ n
    → n < 2 ^ 32
    → (settings vs (use_value o table n).0 ≤ (use_value o table n).1)
      × ((use_value o table n).1 < 2 ^ 32)
unfolding settings
settings-prepend none vs table n enough small = (enough, small)
settings-prepend (some v) vs table n enough small =
    (omega (arith, settings-same vs v table), omega arith)

after-prepend :
    (o : Option ConfigValue) (vs : List ConfigValue) (table : List LocParam) (n : ℕ)
    → table_after vs (use_value o table n).0 ≡ table_after (prepend o vs) table
after-prepend none vs table n = refl
after-prepend (some v) vs table n = after-set v vs table

-- The line that `fgets` reads next, and the file after it.
abbrev pub next_line : ℕ → List ℕ → List ℕ × List ℕ
next_line c cs = get_line (loc_max_param_line - 1) (c ∷ cs)

-- The lines of a file, as `fgets` reads them.
unfoldable pub conf_lines : ℕ → List ℕ → List (List ℕ)
conf_lines zero file = []
conf_lines (suc fuel) [] = []
conf_lines (suc fuel) (c ∷ cs) = (next_line c cs).0 ∷ conf_lines fuel (next_line c cs).1

abbrev pub concat : List (List ℕ) → List ℕ
concat [] = []
concat (line ∷ lines) = line ++ concat lines

get_line-append : (n : ℕ) (s : List ℕ) → (get_line n s).0 ++ (get_line n s).1 ≡ s
unfolding get_line
get_line-append zero s = refl
get_line-append (suc n) [] = refl
get_line-append (suc n) (c ∷ cs) = ground (arith, get_line-append n cs)

get_line-le : (n : ℕ) (s : List ℕ) → length (get_line n s).1 ≤ length s
unfolding get_line
get_line-le zero s = omega arith
get_line-le (suc n) [] = omega arith
get_line-le (suc n) (c ∷ cs) = ground (arith, get_line-le n cs)

get_line-less : (n c : ℕ) (cs : List ℕ) → length (get_line (suc n) (c ∷ cs)).1 ≤ length cs
unfolding get_line
get_line-less n c cs = ground (arith, get_line-le n cs)

-- The lines hold the whole file.
conf_lines-concat :
    (fuel : ℕ) (file : List ℕ) → length file ≤ fuel → concat (conf_lines fuel file) ≡ file
unfolding conf_lines
conf_lines-concat zero [] enough = refl
conf_lines-concat zero (c ∷ cs) enough = absurd (omega (arith, enough))
conf_lines-concat (suc fuel) [] enough = refl
conf_lines-concat (suc fuel) (c ∷ cs) enough =
    ap (λ t. (next_line c cs).0 ++ t)
      (conf_lines-concat fuel (next_line c cs).1 (omega (arith, get_line-less 158 c cs)))
    ∙ get_line-append 159 (c ∷ cs)

map-map :
    (f g : LocParam → LocParam) (table : List LocParam)
    → map f (map g table) ≡ map (λ e. f (g e)) table
map-map f g [] = refl
map-map f g (e ∷ es) = ap (λ t. f (g e) ∷ t) (map-map f g es)

map-ext :
    (f g : LocParam → LocParam) (table : List LocParam)
    → ((e : LocParam) → f e ≡ g e)
    → map f table ≡ map g table
map-ext f g [] same = refl
map-ext f g (e ∷ es) same = cc (same e, map-ext f g es same)

module _ (numbers : Numbers) where
  -- The values of the lines that are not skipped.
  unfoldable pub values_of : List (List ℕ) → List ConfigValue
  values_of [] = []
  values_of (line ∷ lines) = prepend (parse_line numbers line) (values_of lines)

  abbrev pub conf_values : ℕ → List ℕ → List ConfigValue
  conf_values fuel file = values_of (conf_lines fuel file)

  loop-step :
      (fuel : ℕ) (table : List LocParam) (n c : ℕ) (cs : List ℕ)
      → read_loop numbers (suc fuel) table n (c ∷ cs) ≡ (
          let used = use_value (parse_line numbers (next_line c cs).0) table n in
          if n == 0
          then (table, c ∷ cs)
          else read_loop numbers fuel used.0 used.1 (next_line c cs).1)
  unfolding read_loop
  loop-step fuel table n c cs = refl

  values-step :
      (fuel c : ℕ) (cs : List ℕ)
      → conf_values (suc fuel) (c ∷ cs)
        ≡ prepend (parse_line numbers (next_line c cs).0) (conf_values fuel (next_line c cs).1)
  unfolding values_of conf_lines
  values-step fuel c cs = refl

  loop-after :
      (fuel : ℕ) (table : List LocParam) (n : ℕ) (file : List ℕ)
      → settings (conf_values fuel file) table ≤ n
      → n < 2 ^ 32
      → (read_loop numbers fuel table n file).0 ≡ table_after (conf_values fuel file) table
  loop-after zero table n file enough small =
      unfold read_loop values_of conf_lines in sym (after_nothing table)
  loop-after (suc fuel) table n [] enough small =
      unfold read_loop values_of conf_lines in sym (after_nothing table)
  loop-after (suc fuel) table n (c ∷ cs) enough small =
      let o = parse_line numbers (next_line c cs).0 in
      let file = (next_line c cs).1 in
      let vs = conf_values fuel file in
      let within : settings (prepend o vs) table ≤ n = rw (values-step fuel c cs) at enough in
      let kept = settings-prepend o vs table n within small in
      rw (loop-step fuel table n c cs, values-step fuel c cs)
        (elim (Bool-cases (n == 0)) [
          | inl done ↦
              rw done (sym (after-none (prepend o vs) table (omega (arith, ==→eq n 0 done))))
          | inr more ↦ rw more (
              loop-after fuel (use_value o table n).0 (use_value o table n).1 file kept.0 kept.1
              ∙ after-prepend o vs table n)
        ])

  -- The values of a file, read in lines.
  abbrev pub file_values : List ℕ → List ConfigValue
  file_values file = conf_values (suc (length file)) file

  -- If a file sets no more entries than the table has, counted with repetition, an entry that some line is
  -- for holds what the last such line stores in it, and is marked as set; any other entry keeps what it
  -- holds and is marked as not set. The lines are all those of the file.
  pub loc_read_conf_r-last :
      (table : List LocParam) (file : List ℕ)
      → length table < 2 ^ 32
      → settings (file_values file) (map clear_entry table) ≤ length table
      → ((loc_read_conf_r numbers (some file) table).1.0
          ≡ map
              (λ e.
                (store_value (clear_entry e) (last_stored (file_values file) (clear_entry e))).0)
              table)
        × (concat (conf_lines (suc (length file)) file) ≡ file)
  unfolding loc_read_conf_r
  loc_read_conf_r-last table file small few =
      let vs = file_values file in
      (
        loop-after (suc (length file)) (map clear_entry table) (length table) file few small
            ∙ map-map (after_values vs) clear_entry table
            ∙ map-ext (λ e. after_values vs (clear_entry e))
                (λ e. (store_value (clear_entry e) (last_stored vs (clear_entry e))).0) table
                (λ e. after_values-last vs (clear_entry e)),
        conf_lines-concat (suc (length file)) file (omega arith),
      )
