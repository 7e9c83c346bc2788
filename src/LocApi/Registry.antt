-- ===== src/LocApi/Registry.antt =====
-- The array of adapters holds a set: distinct adapters, and NULLs after them.
-- The array with the given adapters and `k` NULLs.
use android_device_samsung_d.Common.{
  ℕ, zero, suc, ◌+◌, ◌≡◌, refl, ap, subst, ◌≢◌, inl, inr, true, false, Option, none, some, List, [],
  ◌∷◌, ◌++◌, arith, ◌==◌, if◌then◌else◌, Bool-cases, length,
}
use android_device_samsung_d.LocApi.Adapters.{
  nulls, to_all_adapters, add_loop, put_back, take_last, remove_loop,
}

abbrev pub array_of : List ℕ → ℕ → List (Option ℕ)
array_of [] k = nulls k
array_of (x ∷ xs) k = some x ∷ array_of xs k

-- How often an adapter stands in a list.
unfoldable pub times : ℕ → List ℕ → ℕ
times b [] = 0
times b (x ∷ xs) = let rest = times b xs in if x == b then 1 + rest else rest

pub to_all_adapters-array_of : (xs : List ℕ) (k : ℕ) → to_all_adapters (array_of xs k) ≡ xs
unfolding to_all_adapters
to_all_adapters-array_of [] zero = refl
to_all_adapters-array_of [] (suc k) = refl
to_all_adapters-array_of (x ∷ xs) k = ap (λ r. x ∷ r) (to_all_adapters-array_of xs k)

pub times-append : (b : ℕ) (xs ys : List ℕ) → times b (xs ++ ys) ≡ times b xs + times b ys
unfolding times
times-append b [] ys = omega arith
times-append b (x ∷ xs) ys = ground (arith, times-append b xs ys)

-- Adding an adapter that is in the array.
pub add-old :
    (a : ℕ) (xs : List ℕ) (k : ℕ) → times a xs ≢ 0 → (add_loop a (array_of xs k)).0 ≡ array_of xs k
unfolding times add_loop
add-old a [] k old = ground arith
add-old a (x ∷ xs) k old = ground (arith, add-old a xs k)

-- Adding a new adapter.
pub add-new :
    (a : ℕ) (xs : List ℕ) (k : ℕ)
    → times a xs ≡ 0
    → (add_loop a (array_of xs (suc k))).0 ≡ array_of (xs ++ a ∷ []) k
unfolding times add_loop
add-new a [] k new = refl
add-new a (x ∷ xs) k new = ground (arith, add-new a xs k)

pub add-full : (a : ℕ) (xs : List ℕ) → (add_loop a (array_of xs 0)).0 ≡ array_of xs 0
unfolding add_loop
add-full a [] = refl
add-full a (x ∷ xs) = ground (arith, add-full a xs)

-- The array with the given adapters less one, in any order.
pub record LessOne (a : ℕ) (xs : List ℕ) (k : ℕ) (array : List (Option ℕ)) : Type 0 where
  pub others : List ℕ
  pub filled : array ≡ array_of others (suc k)
  pub one_less : length xs ≡ suc (length others)
  pub each : (b : ℕ) → times b xs ≡ times b others + times b (a ∷ [])

-- The last adapter, and the others.
record LastTaken (xs : List ℕ) (k : ℕ) (taken : Option ℕ × List (Option ℕ)) : Type 0 where
  last : ℕ
  pub others : List ℕ
  is_taken : taken ≡ (some last, array_of others (suc k))
  pub one_less : length xs ≡ suc (length others)
  pub each : (b : ℕ) → times b xs ≡ times b others + times b (last ∷ [])

take_last-nulls : (k : ℕ) → take_last (nulls k) ≡ (none, nulls k)
unfolding take_last
take_last-nulls zero = refl
take_last-nulls (suc k) = refl

put_back-LastTaken :
    (x : ℕ) (xs : List ℕ) (k : ℕ) (t : Option ℕ × List (Option ℕ))
    → LastTaken xs k t
    → LastTaken (x ∷ xs) k (put_back x t)
unfolding put_back times
put_back-LastTaken x xs k t taken = record {
  last = taken.last;
  others = x ∷ taken.others;
  is_taken = ap (put_back x) taken.is_taken;
  one_less = omega (arith, taken.one_less);
  each = λ b. ground (arith, taken.each b);
}

take_last-LastTaken :
    (x : ℕ) (xs : List ℕ) (k : ℕ) → LastTaken (x ∷ xs) k (take_last (array_of (x ∷ xs) k))
unfolding take_last put_back times
take_last-LastTaken x [] k =
    rw (take_last-nulls k)
      (record { last = x; others = []; is_taken = refl; one_less = refl; each = λ b. omega arith })
take_last-LastTaken x (y ∷ ys) k =
    put_back-LastTaken x (y ∷ ys) k (take_last (array_of (y ∷ ys) k)) (take_last-LastTaken y ys k)

-- The last adapter takes the place of the one that is removed.
clear-LessOne :
    (a : ℕ) (xs : List ℕ) (k : ℕ)
    → LessOne a (a ∷ xs) k ((take_last (array_of xs k)).0 ∷ (take_last (array_of xs k)).1)
unfolding times
clear-LessOne a [] k =
    rw (take_last-nulls k)
      (record { others = []; filled = refl; one_less = refl; each = λ b. omega arith })
clear-LessOne a (y ∷ ys) k =
    let t = take_last-LastTaken y ys k in
    rw t.is_taken (record {
      others = t.last ∷ t.others;
      filled = refl;
      one_less = omega (arith, t.one_less);
      each = λ b. ground (arith, t.each b);
    })

-- Removing an adapter that is not in the array.
pub remove-new :
    (a i : ℕ) (xs : List ℕ) (k : ℕ)
    → times a xs ≡ 0
    → (remove_loop a i (array_of xs k)).0 ≡ array_of xs k
unfolding times remove_loop
remove-new a i [] zero new = refl
remove-new a i [] (suc k) new = refl
remove-new a i (x ∷ xs) k new = ground (arith, remove-new a (i + 1) xs k)

module _ (a i x : ℕ) (xs : List ℕ) (k : ℕ) where
  remove-here :
      x == a ≡ true
      → (remove_loop a i (array_of (x ∷ xs) k)).0
        ≡ (take_last (array_of xs k)).0 ∷ (take_last (array_of xs k)).1
  unfolding remove_loop
  remove-here same = ground arith

  remove-there :
      x == a ≡ false
      → (remove_loop a i (array_of (x ∷ xs) k)).0
        ≡ some x ∷ (remove_loop a (i + 1) (array_of xs k)).0
  unfolding remove_loop
  remove-there other = ground arith

put_front-LessOne :
    (a x : ℕ) (xs : List ℕ) (k : ℕ) (array : List (Option ℕ))
    → LessOne a xs k array
    → LessOne a (x ∷ xs) k (some x ∷ array)
unfolding times
put_front-LessOne a x xs k array less = record {
  others = x ∷ less.others;
  filled = ap (λ r. some x ∷ r) less.filled;
  one_less = omega (arith, less.one_less);
  each = λ b. ground (arith, less.each b);
}

-- Removing an adapter that is in the array.
pub remove-LessOne :
    (a i : ℕ) (xs : List ℕ) (k : ℕ)
    → times a xs ≢ 0
    → LessOne a xs k (remove_loop a i (array_of xs k)).0
unfolding times
remove-LessOne a i [] k old = ground arith
remove-LessOne a i (x ∷ xs) k old = elim (Bool-cases (x == a)) [
  | inl same ↦
      let here : a ≡ x = ground arith in
      rw (remove-here a i x xs k same) (
        subst
          (λ z.
            LessOne a (z ∷ xs) k ((take_last (array_of xs k)).0 ∷ (take_last (array_of xs k)).1))
          here (clear-LessOne a xs k))
  | inr other ↦
      let rest : times a xs ≢ 0 = ground arith in
      rw (remove-there a i x xs k other) (
        put_front-LessOne a x xs k (remove_loop a (i + 1) (array_of xs k)).0
          (remove-LessOne a (i + 1) xs k rest))
]
