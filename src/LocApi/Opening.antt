-- ===== src/LocApi/Opening.antt =====
-- What the removal of an adapter asks of the modem (gps/core/LocApiBase.cpp).
-- The place that is cleared is that of the last adapter.
use android_device_samsung_d.Common.{
  ℕ, zero, suc, ◌+◌, ◌≡◌, refl, sym, ap, ◌∙◌, subst, ◌≢◌, inl, inr, some, List, [], ◌∷◌, ◌++◌,
  arith, ◌==◌, Bool-cases, length,
}
use android_device_samsung_d.LocApi.Adapters.{
  ApiCall, open_msg, closed, LocApiBase, to_all_adapters, remove_loop, get_evt_mask, after_removal,
  remove_adapter,
}
use android_device_samsung_d.LocApi.Registry.{array_of, times, to_all_adapters-array_of}

remove_loop-cleared :
    (a i x : ℕ) (xs : List ℕ) (k : ℕ)
    → times a (x ∷ xs) ≢ 0
    → (remove_loop a i (array_of (x ∷ xs) k)).1 ≡ some (i + length xs)
unfolding times remove_loop
remove_loop-cleared a i x [] k old = ground (arith, to_all_adapters-array_of [] k)
remove_loop-cleared a i x (y ∷ ys) k old = elim (Bool-cases (x == a)) [
  | inl same ↦
      let reach : some (i + length (to_all_adapters (array_of (y ∷ ys) k)))
          ≡ some (i + length (y ∷ ys)) =
        ap (λ zs. some (i + length zs)) (to_all_adapters-array_of (y ∷ ys) k) in
      ground (arith, reach)
  | inr other ↦
      let rest : times a (y ∷ ys) ≢ 0 = ground arith in
      let more : (remove_loop a (i + 1) (array_of (y ∷ ys) k)).1 ≡ some (i + length (y ∷ ys)) =
        remove_loop-cleared a (i + 1) y ys k rest ∙ ap some (omega arith) in
      ground (arith, more)
]

module _ (evt_mask : ℕ → ℕ) where
  -- What the removal asks for with the given events, and adapters left.
  abbrev pub asks : ℕ → ℕ → ApiCall
  asks mask zero = closed
  asks mask (suc n) = open_msg mask

  after_removal-asks :
      (n : ℕ) (api : LocApiBase)
      → (after_removal evt_mask (some n) api).calls
        ≡ api.calls ++ asks (get_evt_mask evt_mask (after_removal evt_mask (some n) api)) n ∷ []
  unfolding after_removal get_evt_mask
  after_removal-asks zero api = refl
  after_removal-asks (suc n) api = refl

  -- An adapter of the array is removed: the modem is closed if it was the only one, and otherwise a message
  -- asks to open it with the events of the adapters that are left.
  pub remove_adapter-asks :
      (a x : ℕ) (xs : List ℕ) (k : ℕ) (api : LocApiBase)
      → api.loc_adapters ≡ array_of (x ∷ xs) k
      → times a (x ∷ xs) ≢ 0
      → (remove_adapter evt_mask a api).calls
        ≡ api.calls ++ asks (get_evt_mask evt_mask (remove_adapter evt_mask a api)) (length xs) ∷ []
  unfolding remove_adapter
  remove_adapter-asks a x xs k api filled old =
      let r = remove_loop a 0 api.loc_adapters in
      let stored = record api { loc_adapters = r.0 } in
      let cleared : r.1 ≡ some (length xs) =
        ap (λ l. (remove_loop a 0 l).1) filled
        ∙ (remove_loop-cleared a 0 x xs k old ∙ ap some (omega arith)) in
      subst
        (λ c.
          (after_removal evt_mask c stored).calls
          ≡ api.calls
            ++ asks (get_evt_mask evt_mask (after_removal evt_mask c stored)) (length xs) ∷ [])
        (sym cleared) (after_removal-asks (length xs) stored)
