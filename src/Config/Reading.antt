-- ===== src/Config/Reading.antt =====
-- What `loc_read_conf_r` makes of a table and a file (gps/utils/loc_cfg.cpp).
-- The entry after all values, in order.
use android_device_samsung_d.Common.{
  ℕ, ◌+◌, ◌≡◌, refl, sym, ap, ◌∙◌, false, ◌&&◌, Option, none, some, List, [], ◌∷◌, map, arith,
  if◌then◌else◌, eq_bytes,
}
use android_device_samsung_d.Config.Parsing.{
  ParamValue, LocParam, ConfigValue, stored_value, mark_set, store_value, loc_set_config_entry,
  set_entries,
}

unfoldable pub after_values : List ConfigValue → LocParam → LocParam
after_values [] entry = entry
after_values (v ∷ vs) entry = after_values vs (loc_set_config_entry entry v).0

-- How many entries the values are for, counted with repetition.
unfoldable pub settings : List ConfigValue → List LocParam → ℕ
settings [] table = 0
settings (v ∷ vs) table = (set_entries v table).1 + settings vs table

-- What a value stores in an entry, if it is for the entry.
abbrev pub stores : LocParam → ConfigValue → Option ParamValue
stores entry v =
    if eq_bytes entry.param_name v.name && entry.has_ptr
    then stored_value entry.param_type v
    else none

abbrev pub or_else : Option ParamValue → Option ParamValue → Option ParamValue
or_else none x = x
or_else (some y) x = some y

-- What the values store in an entry: what the last of them that is for the entry stores.
unfoldable pub last_stored : List ConfigValue → LocParam → Option ParamValue
last_stored [] entry = none
last_stored (v ∷ vs) entry = or_else (last_stored vs entry) (stores entry v)

-- Entries that differ in what is stored and whether it is set alone.
record SameParam (a b : LocParam) : Type 0 where
  same_name : a.param_name ≡ b.param_name
  same_ptr : a.has_ptr ≡ b.has_ptr
  same_type : a.param_type ≡ b.param_type

store-SameParam :
    (entry : LocParam) (x : Option ParamValue) → SameParam (store_value entry x).0 entry
store-SameParam entry none = record { same_name = refl; same_ptr = refl; same_type = refl }
store-SameParam entry (some x) = record { same_name = refl; same_ptr = refl; same_type = refl }

-- `loc_set_config_entry` as one store.
set-stores :
    (entry : LocParam) (v : ConfigValue)
    → loc_set_config_entry entry v ≡ store_value entry (stores entry v)
unfolding loc_set_config_entry
set-stores entry v = ground arith

stores-SameParam : (a b : LocParam) (v : ConfigValue) → SameParam a b → stores a v ≡ stores b v
stores-SameParam a b v same = rw (same.same_name, same.same_ptr, same.same_type) refl

last-SameParam :
    (a b : LocParam) (vs : List ConfigValue) → SameParam a b → last_stored vs a ≡ last_stored vs b
unfolding last_stored
last-SameParam a b [] same = refl
last-SameParam a b (v ∷ vs) same = cc (last-SameParam a b vs same, stores-SameParam a b v same)

mark_twice : (set : Option ℕ) → mark_set (mark_set set) ≡ mark_set set
mark_twice none = refl
mark_twice (some old) = refl

store_twice :
    (entry : LocParam) (x y : Option ParamValue)
    → (store_value (store_value entry x).0 y).0 ≡ (store_value entry (or_else y x)).0
store_twice entry x none = refl
store_twice entry none (some y) = refl
store_twice entry (some x) (some y) =
    ap (λ m. record entry { stored = y; param_set = m }) (mark_twice entry.param_set)

-- An entry after some values holds what they store in it.
pub after_values-last :
    (vs : List ConfigValue) (entry : LocParam)
    → after_values vs entry ≡ (store_value entry (last_stored vs entry)).0
unfolding after_values last_stored
after_values-last [] entry = refl
after_values-last (v ∷ vs) entry =
    let x = stores entry v in
    let next = (store_value entry x).0 in
    ap (λ r. after_values vs r.0) (set-stores entry v)
    ∙ after_values-last vs next
    ∙ ap (λ y. (store_value next y).0) (last-SameParam next entry vs (store-SameParam entry x))
    ∙ store_twice entry x (last_stored vs entry)

-- The table after a value.
set_entries-map :
    (v : ConfigValue) (table : List LocParam)
    → (set_entries v table).0 ≡ map (λ e. (loc_set_config_entry e v).0) table
unfolding set_entries
set_entries-map v [] = refl
set_entries-map v (entry ∷ entries) =
    ap (λ t. (loc_set_config_entry entry v).0 ∷ t) (set_entries-map v entries)

store_flag : (a b : LocParam) (x : Option ParamValue) → (store_value a x).1 ≡ (store_value b x).1
store_flag a b none = refl
store_flag a b (some x) = refl

-- A value is for the same entries after another value as before.
set-flag :
    (v w : ConfigValue) (entry : LocParam)
    → (loc_set_config_entry (loc_set_config_entry entry w).0 v).1 ≡ (loc_set_config_entry entry v).1
set-flag v w entry =
    let next = (store_value entry (stores entry w)).0 in
    ap (λ r. (loc_set_config_entry r.0 v).1) (set-stores entry w)
    ∙ ap (λ r. r.1) (set-stores next v)
    ∙ ap (λ x. (store_value next x).1)
        (stores-SameParam next entry v (store-SameParam entry (stores entry w)))
    ∙ store_flag next entry (stores entry v)
    ∙ ap (λ r. r.1) (sym (set-stores entry v))

set_entries-count :
    (v w : ConfigValue) (table : List LocParam)
    → (set_entries v (set_entries w table).0).1 ≡ (set_entries v table).1
unfolding set_entries
set_entries-count v w [] = refl
set_entries-count v w (entry ∷ entries) =
    ground (arith, set-flag v w entry, set_entries-count v w entries)

pub settings-same :
    (vs : List ConfigValue) (w : ConfigValue) (table : List LocParam)
    → settings vs (set_entries w table).0 ≡ settings vs table
unfolding settings
settings-same [] w table = refl
settings-same (v ∷ vs) w table =
    omega (arith, set_entries-count v w table, settings-same vs w table)

store_unset :
    (entry : LocParam) (x : Option ParamValue)
    → (store_value entry x).1 ≡ false
    → (store_value entry x).0 ≡ entry
store_unset entry none unset = refl
store_unset entry (some x) unset = absurd (cc)

set_unset :
    (entry : LocParam) (v : ConfigValue)
    → (loc_set_config_entry entry v).1 ≡ false
    → (loc_set_config_entry entry v).0 ≡ entry
set_unset entry v unset =
    ap (λ r. r.0) (set-stores entry v)
    ∙ store_unset entry (stores entry v) (ap (λ r. r.1) (sym (set-stores entry v)) ∙ unset)

-- Values that are for no entry leave the table.
pub set_entries-none :
    (v : ConfigValue) (table : List LocParam)
    → (set_entries v table).1 ≡ 0
    → (set_entries v table).0 ≡ table
unfolding set_entries
set_entries-none v [] free = refl
set_entries-none v (entry ∷ entries) free =
    let unset : (loc_set_config_entry entry v).1 ≡ false = ground arith in
    let rest : (set_entries v entries).1 ≡ 0 = ground arith in
    cc (set_unset entry v unset, set_entries-none v entries rest)
