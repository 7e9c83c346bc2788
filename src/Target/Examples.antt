-- ===== src/Target/Examples.antt =====
-- Devices of gps/utils/loc_target.cpp.
use android_device_samsung_d.Common.{
  ℕ, ◌≡◌, refl, true, Option, none, some, List, [], ◌∷◌, ◌++◌, leb, if◌then◌else◌, codes,
}
use android_device_samsung_d.Target.Detection.{
  SysFile, hw_platform, mdm, Device, is_qca1530, target_qca1530, no_target, is_apq,
  is_reference_platform, detect, loc_get_target, loc_get_target_name,
}
use android_device_samsung_d.Target.Kept.{
  is_undetected, is_known, g_target_after, loc_get_target-kept,
}

abbrev platform_line : SysFile → Option (List ℕ)
platform_line hw_platform = some (codes "MTP" ++ b'\n' ∷ [])
platform_line _ = none

abbrev with_modem : SysFile → Option (List ℕ)
with_modem mdm = some []
with_modem f = platform_line f

abbrev device : (ℕ → Option (List ℕ)) → (SysFile → Option (List ℕ)) → Device
device poll content = record {
  qca1530 = poll;
  baseband = codes "mdm";
  has_file = λ f. true;
  content = content;
}

abbrev mtp : Device
mtp = device (λ i. none) with_modem

abbrev lost_mtp : Device
lost_mtp = device (λ i. some []) platform_line

loc_get_target-kept_example :
    (is_known (loc_get_target mtp no_target).0 ≡ true)
    × (g_target_after (lost_mtp ∷ mtp ∷ []) (loc_get_target mtp no_target).1
        ≡ (loc_get_target mtp no_target).0)
    × (loc_get_target lost_mtp
          (g_target_after (lost_mtp ∷ mtp ∷ []) (loc_get_target mtp no_target).1)
        ≡ loc_get_target mtp no_target)
unfolding is_undetected is_qca1530 is_apq is_reference_platform
loc_get_target-kept_example = loc_get_target-kept mtp (lost_mtp ∷ mtp ∷ []) lost_mtp refl

mtp_target : (loc_get_target mtp no_target).0 ≡ 7
unfolding loc_get_target detect
mtp_target = refl

mtp_name : loc_get_target_name 7 ≡ codes " GNSS_MDM with SSC"
unfolding loc_get_target_name
mtp_name = refl

-- Without its modem device, the first call leaves no target.
lost_target : (loc_get_target lost_mtp no_target).0 ≡ no_target
unfolding loc_get_target detect
lost_target = refl

-- The detection may end in any of thirty rounds.
abbrev found_in_round : ℕ → ℕ → Option (List ℕ)
found_in_round n i = some (if leb n i then codes "yes" else codes "detect")

in_last_round :
    (loc_get_target (device (found_in_round 29) platform_line) no_target).0 ≡ target_qca1530
unfolding loc_get_target detect
in_last_round = refl

too_late : (loc_get_target (device (found_in_round 30) platform_line) no_target).0 ≡ no_target
unfolding loc_get_target detect
too_late = refl
