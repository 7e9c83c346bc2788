-- ===== src/LocApi/Examples.antt =====
-- The theorems on the array of adapters at concrete arrays.
use android_device_samsung_d.Common.{◌≤◌, ◌≡◌, refl, ◌≢◌, List, [], ◌∷◌, arith, length}
use android_device_samsung_d.LocApi.Adapters.{
  LocApiBase, max_adapters, get_evt_mask, remove_adapter,
}
use android_device_samsung_d.LocApi.Delivery.{reached, api_ops-set_ops}
use android_device_samsung_d.LocApi.Opening.{asks, remove_adapter-asks}
use android_device_samsung_d.LocApi.Registry.{array_of, times}
use android_device_samsung_d.LocApi.Sets.{ApiOp, adding, removing}

abbrev some_ops : List ApiOp
some_ops = adding 1 ∷ adding 2 ∷ adding 3 ∷ adding 2 ∷ removing 1 ∷ removing 9 ∷ []

api_ops-set_ops_example :
    (times 3 (reached (λ a. a) some_ops 0) ≡ 1)
    × (length (reached (λ a. a) some_ops 0) ≡ 2)
    × (2 ≤ max_adapters)
api_ops-set_ops_example = api_ops-set_ops (λ a. a) some_ops 0 3

abbrev two_adapters : LocApiBase
two_adapters = record { loc_adapters = array_of (4 ∷ 8 ∷ []) 8; excluded_mask = 0; calls = [] }

first_found : times 4 (4 ∷ 8 ∷ []) ≢ 0
unfolding times
first_found = omega arith

remove_adapter-asks_example :
    (remove_adapter (λ a. a) 4 two_adapters).calls
    ≡ asks (λ a. a) (get_evt_mask (λ a. a) (remove_adapter (λ a. a) 4 two_adapters)) 1 ∷ []
remove_adapter-asks_example =
    remove_adapter-asks (λ a. a) 4 4 (8 ∷ []) 8 two_adapters refl first_found
