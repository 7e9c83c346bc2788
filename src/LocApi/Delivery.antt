-- ===== src/LocApi/Delivery.antt =====
-- Which adapters the calls of a LocApiBase reach, after any sequence of additions and removals
-- (gps/core/LocApiBase.cpp).
use android_device_samsung_d.Common.{
  ℕ, zero, suc, ◌≤◌, ◌≡◌, refl, Bool, true, false, Option, none, some, List, [], ◌∷◌, ◌++◌, arith,
  if◌then◌else◌, length, any,
}
use android_device_samsung_d.LocApi.Adapters.{
  LocApiBase, max_adapters, nulls, new_loc_api, to_all_adapters, to_1st_handling_adapter, add_loop,
  remove_loop, add_adapter, after_removal, remove_adapter,
}
use android_device_samsung_d.LocApi.Registry.{array_of, times, to_all_adapters-array_of}
use android_device_samsung_d.LocApi.Sets.{
  ApiOp, adding, removing, AdapterSet, no_adapters, set_op, set_ops, Refines, add-Refines,
  remove-Refines,
}

module _ (evt_mask : ℕ → ℕ) where
  abbrev pub api_op : ApiOp → LocApiBase → LocApiBase
  api_op (adding a) api = add_adapter evt_mask a api
  api_op (removing a) api = remove_adapter evt_mask a api

  abbrev pub api_ops : List ApiOp → LocApiBase → LocApiBase
  api_ops [] api = api
  api_ops (op ∷ ops) api = api_ops ops (api_op op api)

  add_adapter-array :
      (a : ℕ) (api : LocApiBase)
      → (add_adapter evt_mask a api).loc_adapters ≡ (add_loop a api.loc_adapters).0
  unfolding add_adapter
  add_adapter-array a api = ground arith

  after_removal-array :
      (i : Option ℕ) (api : LocApiBase)
      → (after_removal evt_mask i api).loc_adapters ≡ api.loc_adapters
  unfolding after_removal
  after_removal-array none api = refl
  after_removal-array (some zero) api = refl
  after_removal-array (some (suc i)) api = refl

  remove_adapter-array :
      (a : ℕ) (api : LocApiBase)
      → (remove_adapter evt_mask a api).loc_adapters ≡ (remove_loop a 0 api.loc_adapters).0
  unfolding remove_adapter
  remove_adapter-array a api =
      let r = remove_loop a 0 api.loc_adapters in
      after_removal-array r.1 (record api { loc_adapters = r.0 })

none_times : (b : ℕ) → times b [] ≡ 0
unfolding times
none_times b = refl

module _ (evt_mask : ℕ → ℕ) where
  op-Refines :
      (op : ApiOp) (api : LocApiBase) (s : AdapterSet)
      → Refines api.loc_adapters s
      → Refines (api_op evt_mask op api).loc_adapters (set_op op s)
  op-Refines (adding a) api s h =
      rw (add_adapter-array evt_mask a api, h.filled)
        (add-Refines a s h.xs h.k h.sized h.fits h.each)
  op-Refines (removing a) api s h =
      rw (remove_adapter-array evt_mask a api, h.filled)
        (remove-Refines a s h.xs h.k h.sized h.fits h.each)

  ops-Refines :
      (ops : List ApiOp) (api : LocApiBase) (s : AdapterSet)
      → Refines api.loc_adapters s
      → Refines (api_ops evt_mask ops api).loc_adapters (set_ops ops s)
  ops-Refines [] api s h = h
  ops-Refines (op ∷ ops) api s h =
      ops-Refines ops (api_op evt_mask op api) (set_op op s) (op-Refines op api s h)

  -- The adapters that a call to all reaches after a sequence from the constructor on.
  abbrev pub reached : List ApiOp → ℕ → List ℕ
  reached ops excluded = to_all_adapters (api_ops evt_mask ops (new_loc_api excluded)).loc_adapters

  -- After any sequence of additions and removals, a call to all adapters reaches each adapter of the set
  -- once and no other, where the set takes an adapter only while it has fewer than ten, and the number
  -- of adapters reached is the size of the set, at most ten.
  pub api_ops-set_ops :
      (ops : List ApiOp) (excluded b : ℕ)
      → (times b (reached ops excluded) ≡ (if (set_ops ops no_adapters).has b then 1 else 0))
        × (length (reached ops excluded) ≡ (set_ops ops no_adapters).size)
        × ((set_ops ops no_adapters).size ≤ max_adapters)
  api_ops-set_ops ops excluded b =
      let empty : Refines (nulls max_adapters) no_adapters = record {
        xs = [];
        k = max_adapters;
        filled = refl;
        sized = refl;
        fits = refl;
        each = λ c. none_times c;
      } in
      let h = ops-Refines ops (new_loc_api excluded) no_adapters empty in
      rw (h.filled, to_all_adapters-array_of h.xs h.k) (h.each b, h.sized, omega (arith, h.fits))

module _ (handles : ℕ → Bool) where
  -- A call to the first adapter that handles it reaches the adapters before that one, which refuse it, and
  -- that one, and none after it.
  pub to_1st-first :
      (before after : List ℕ) (a k : ℕ)
      → any handles before ≡ false
      → handles a ≡ true
      → to_1st_handling_adapter handles (array_of (before ++ a ∷ after) k) ≡ before ++ a ∷ []
  unfolding to_1st_handling_adapter
  to_1st-first [] after a k refused handled = ground arith
  to_1st-first (x ∷ xs) after a k refused handled = ground (arith, to_1st-first xs after a k)
