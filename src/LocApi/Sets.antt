-- ===== src/LocApi/Sets.antt =====
-- The array of adapters implements a set of at most ten (gps/core/LocApiBase.cpp).
-- The two operations on the array of adapters.
use android_device_samsung_d.Common.{
  ℕ, zero, suc, ◌+◌, ◌-◌, ◌≡◌, refl, sym, ap, ◌∙◌, ◌≢◌, inl, inr, Bool, true, false, not, ◌&&◌,
  ◌||◌, Option, List, [], ◌∷◌, ◌++◌, arith, ◌==◌, if◌then◌else◌, Bool-cases, length, length-append,
}
use android_device_samsung_d.LocApi.Adapters.{max_adapters, add_loop, remove_loop}
use android_device_samsung_d.LocApi.Registry.{
  array_of, times, times-append, add-old, add-new, add-full, remove-new, remove-LessOne,
}

pub data ApiOp : Type 0 where
  adding removing : ℕ → ApiOp

-- The adapters as a set of at most ten.
pub record AdapterSet : Type 0 where
  pub has : ℕ → Bool
  pub size : ℕ

abbrev pub no_adapters : AdapterSet
no_adapters = record { has = λ b. false; size = 0 }

abbrev pub set_op : ApiOp → AdapterSet → AdapterSet
set_op (adding a) s =
    if s.has a || s.size == max_adapters
    then s
    else record { has = λ b. a == b || s.has b; size = s.size + 1 }
set_op (removing a) s =
    if s.has a then record { has = λ b. not (a == b) && s.has b; size = s.size - 1 } else s

abbrev pub set_ops : List ApiOp → AdapterSet → AdapterSet
set_ops [] s = s
set_ops (op ∷ ops) s = set_ops ops (set_op op s)

-- An array that implements a set.
pub record Refines (array : List (Option ℕ)) (s : AdapterSet) : Type 0 where
  pub xs : List ℕ
  pub k : ℕ
  pub filled : array ≡ array_of xs k
  pub sized : length xs ≡ s.size
  pub fits : s.size + k ≡ max_adapters
  pub each : (b : ℕ) → times b xs ≡ (if s.has b then 1 else 0)

times-single : (a b : ℕ) → times b (a ∷ []) ≡ (if a == b then 1 else 0)
unfolding times
times-single a b = refl

-- The sets with an adapter more and less.
more-times :
    (has : ℕ → Bool) (a b n : ℕ)
    → n ≡ (if has b then 1 else 0)
    → has a ≡ false
    → n + (if a == b then 1 else 0) ≡ (if a == b || has b then 1 else 0)
more-times has a b n count lacks = elim (Bool-cases (a == b)) [
  | inl same ↦
      let here : a ≡ b = ground arith in
      let lacks_b : has b ≡ false = ap has (sym here) ∙ lacks in ground arith
  | inr other ↦ ground arith
]

less-times :
    (has : ℕ → Bool) (a b n : ℕ)
    → n + (if a == b then 1 else 0) ≡ (if has b then 1 else 0)
    → has a ≡ true
    → n ≡ (if not (a == b) && has b then 1 else 0)
less-times has a b n count old = elim (Bool-cases (a == b)) [
  | inl same ↦
      let here : a ≡ b = ground arith in
      let has_b : has b ≡ true = ap has (sym here) ∙ old in ground arith
  | inr other ↦ ground arith
]

pub add-Refines :
    (a : ℕ) (s : AdapterSet) (xs : List ℕ) (k : ℕ)
    → length xs ≡ s.size
    → s.size + k ≡ max_adapters
    → ((b : ℕ) → times b xs ≡ (if s.has b then 1 else 0))
    → Refines (add_loop a (array_of xs k)).0 (set_op (adding a) s)
add-Refines a s xs zero sized fits each =
    let full : s.has a || s.size == max_adapters ≡ true = ground arith in
    rw (add-full a xs, full)
      (record { xs = xs; k = 0; filled = refl; sized = sized; fits = fits; each = each })
add-Refines a s xs (suc k) sized fits each = elim (Bool-cases (s.has a)) [
  | inl has ↦
      let old : times a xs ≢ 0 = ground (arith, each a) in
      rw (add-old a xs (suc k) old, has)
        (record { xs = xs; k = suc k; filled = refl; sized = sized; fits = fits; each = each })
  | inr lacks ↦
      let new : times a xs ≡ 0 = ground (arith, each a) in
      let open_set : s.has a || s.size == max_adapters ≡ false = ground arith in
      rw (add-new a xs k new, open_set)
        (record {
          xs = xs ++ a ∷ [];
          k = k;
          filled = refl;
          sized = omega (arith, length-append xs (a ∷ []));
          fits = omega arith;
          each = λ b.
              times-append b xs (a ∷ [])
              ∙ ap (λ n. times b xs + n) (times-single a b)
              ∙ more-times s.has a b (times b xs) (each b) lacks;
        })
]

pub remove-Refines :
    (a : ℕ) (s : AdapterSet) (xs : List ℕ) (k : ℕ)
    → length xs ≡ s.size
    → s.size + k ≡ max_adapters
    → ((b : ℕ) → times b xs ≡ (if s.has b then 1 else 0))
    → Refines (remove_loop a 0 (array_of xs k)).0 (set_op (removing a) s)
remove-Refines a s xs k sized fits each = elim (Bool-cases (s.has a)) [
  | inl has ↦
      let old : times a xs ≢ 0 = ground (arith, each a) in
      let less = remove-LessOne a 0 xs k old in
      rw has (record {
        xs = less.others;
        k = suc k;
        filled = less.filled;
        sized = omega (arith, less.one_less);
        fits = omega (arith, less.one_less);
        each = λ b.
            less-times s.has a b (times b less.others)
              (ap (λ n. times b less.others + n) (sym (times-single a b))
                ∙ sym (less.each b)
                ∙ each b)
              has;
      })
  | inr lacks ↦
      let new : times a xs ≡ 0 = ground (arith, each a) in
      rw (remove-new a 0 xs k new, lacks)
        (record { xs = xs; k = k; filled = refl; sized = sized; fits = fits; each = each })
]
