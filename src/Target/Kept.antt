-- ===== src/Target/Kept.antt =====
-- When a target is detected, and that it stays (gps/utils/loc_target.cpp).
use android_device_samsung_d.Common.{
  ℕ, ◌≡◌, refl, ap, ◌∙◌, Bool, true, false, not, ◌&&◌, ◌||◌, Option, none, some, List, [], ◌∷◌, leb,
  ◌==◌, if◌then◌else◌, codes,
}
use android_device_samsung_d.Target.Detection.{
  soc_id, id_dep, mdm, Device, read_a_line, is_qca1530, get_target_gnss_type, target_mdm,
  target_apq_sa, target_mpq, target_msm_no_ssc, target_qca1530, target_unknown, no_target, is_line,
  read_either, is_apq, is_reference_platform, detect, stored, loc_get_target,
}

-- A platform with a modem device that cannot be opened.
unfoldable pub is_undetected : Device → Bool
is_undetected dev =
    not (is_qca1530 dev)
    && not (is_apq dev)
    && is_reference_platform dev
    && not (read_a_line dev mdm).0

abbrev pub is_known : ℕ → Bool
is_known target = leb (get_target_gnss_type target) 5

-- The tests of `detect`, in their order.
abbrev pick : (qca apq mpq reference opened msm : Bool) → Option ℕ
pick qca apq mpq reference opened msm =
    if qca
    then some target_qca1530
    else if apq
    then some (if mpq then target_mpq else target_apq_sa)
    else if reference
    then (if opened then some target_mdm else none)
    else if msm
    then some target_msm_no_ssc
    else some target_unknown

abbrev lost : (qca apq reference opened : Bool) → Bool
lost qca apq reference opened = not qca && not apq && reference && not opened

pick-known :
    (qca apq mpq reference opened msm : Bool)
    → is_known (stored (pick qca apq mpq reference opened msm) no_target)
      ≡ not (lost qca apq reference opened)
pick-known true apq mpq reference opened msm = refl
pick-known false true true reference opened msm = refl
pick-known false true false reference opened msm = refl
pick-known false false mpq true true msm = refl
pick-known false false mpq true false msm = refl
pick-known false false mpq false opened true = refl
pick-known false false mpq false opened false = refl

pick-found :
    (qca apq mpq reference opened msm : Bool)
    → lost qca apq reference opened ≡ false
    → stored (pick qca apq mpq reference opened msm) no_target == no_target ≡ false
pick-found true apq mpq reference opened msm found = refl
pick-found false true true reference opened msm found = refl
pick-found false true false reference opened msm found = refl
pick-found false false mpq true true msm found = refl
pick-found false false mpq true false msm found = absurd (cc)
pick-found false false mpq false opened true found = refl
pick-found false false mpq false opened false found = refl

pick-lost :
    (qca apq mpq reference opened msm : Bool)
    → lost qca apq reference opened ≡ true
    → stored (pick qca apq mpq reference opened msm) no_target ≡ no_target
pick-lost true apq mpq reference opened msm is_lost = absurd (cc)
pick-lost false true mpq reference opened msm is_lost = absurd (cc)
pick-lost false false mpq true true msm is_lost = absurd (cc)
pick-lost false false mpq true false msm is_lost = refl
pick-lost false false mpq false opened msm is_lost = absurd (cc)

detect-known : (dev : Device) → is_known (stored (detect dev) no_target) ≡ not (is_undetected dev)
unfolding detect is_undetected
detect-known dev =
    pick-known (is_qca1530 dev) (is_apq dev) (is_line (codes "130") (read_either dev soc_id id_dep))
      (is_reference_platform dev) (read_a_line dev mdm).0
      (is_line (codes "142") (read_either dev soc_id id_dep)
        || is_line (codes "116") (read_either dev soc_id id_dep))

detect-lost : (dev : Device) → is_undetected dev ≡ true → stored (detect dev) no_target ≡ no_target
unfolding detect is_undetected
detect-lost dev is_lost =
    pick-lost (is_qca1530 dev) (is_apq dev) (is_line (codes "130") (read_either dev soc_id id_dep))
      (is_reference_platform dev) (read_a_line dev mdm).0
      (is_line (codes "142") (read_either dev soc_id id_dep)
        || is_line (codes "116") (read_either dev soc_id id_dep))
      is_lost

detect-found :
    (dev : Device) → is_undetected dev ≡ false → stored (detect dev) no_target == no_target ≡ false
unfolding detect is_undetected
detect-found dev found =
    pick-found (is_qca1530 dev) (is_apq dev) (is_line (codes "130") (read_either dev soc_id id_dep))
      (is_reference_platform dev) (read_a_line dev mdm).0
      (is_line (codes "142") (read_either dev soc_id id_dep)
        || is_line (codes "116") (read_either dev soc_id id_dep))
      found

-- `gTarget` after a call on each of the devices, in order.
abbrev pub g_target_after : List Device → ℕ → ℕ
g_target_after [] g = g
g_target_after (dev ∷ devs) g = g_target_after devs (loc_get_target dev g).1

stored_call : (dev : Device) (g : ℕ) → g == no_target ≡ false → loc_get_target dev g ≡ (g, g)
unfolding loc_get_target
stored_call dev g set = rw set refl

stored_calls : (devs : List Device) (g : ℕ) → g == no_target ≡ false → g_target_after devs g ≡ g
stored_calls [] g set = refl
stored_calls (dev ∷ devs) g set =
    ap (λ r. g_target_after devs r.1) (stored_call dev g set) ∙ stored_calls devs g set

-- The first call detects one of the six kinds of GPS hardware unless the device is a platform with a
-- modem device that cannot be opened. After a call that detects one, any number of calls, however the device
-- answers at each of them, leave `gTarget` as it is, and the next call returns it and leaves it, too.
pub loc_get_target-kept :
    (dev : Device) (between : List Device) (later : Device)
    → is_undetected dev ≡ false
    → (is_known (loc_get_target dev no_target).0 ≡ true)
      × (g_target_after between (loc_get_target dev no_target).1 ≡ (loc_get_target dev no_target).0)
      × (loc_get_target later (g_target_after between (loc_get_target dev no_target).1)
          ≡ loc_get_target dev no_target)
unfolding loc_get_target
loc_get_target-kept dev between later found =
    let g = stored (detect dev) no_target in
    let set = detect-found dev found in
    let kept = stored_calls between g set in
    (
      detect-known dev ∙ ap not found,
      kept,
      ap (loc_get_target later) kept ∙ stored_call later g set,
    )

-- On a platform with a modem device that cannot be opened, a first call returns `(unsigned int)-1` and
-- leaves `gTarget` unset.
pub loc_get_target-lost :
    (dev : Device)
    → is_undetected dev ≡ true
    → loc_get_target dev no_target ≡ (no_target, no_target)
unfolding loc_get_target
loc_get_target-lost dev lost_dev = ap (λ g. (g, g)) (detect-lost dev lost_dev)
