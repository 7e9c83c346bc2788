-- ===== src/Routing/Nifs.antt =====
-- The state machines of `loc_eng_data` (gps/loc_api/libloc_api_50001/loc_eng.{h,cpp}).
-- `agnss_nif`, `internet_nif`, `wifi_nif` and `ds_nif`.
use android_device_samsung_d.Common.{
  ℕ, zero, suc, Bool, true, false, Option, none, some, List, [], ◌==◌, if◌then◌else◌, ℤ, pos,
  negsuc,
}
use android_device_samsung_d.Agps.Construction.{new_agps_state_machine}
use android_device_samsung_d.Agps.Types.{
  servicer_type_agps, Action, Machine, Run, ok, fault, out_of_fuel, Cmd,
}

pub data Nif : Type 0 where
  agnss_nif internet_nif wifi_nif ds_nif : Nif

-- The four pointers, `none` for NULL, and the calls that the engine itself makes to the adapter.
pub record Nifs : Type 0 where
  pub agnss : Option Machine
  pub internet : Option Machine
  pub wifi : Option Machine
  pub ds : Option Machine
  pub adapter_calls : List Action

abbrev pub nif_of : Nif → Nifs → Option Machine
nif_of agnss_nif d = d.agnss
nif_of internet_nif d = d.internet
nif_of wifi_nif d = d.wifi
nif_of ds_nif d = d.ds

abbrev pub with_nif : Nif → Machine → Nifs → Nifs
with_nif agnss_nif m d = record d { agnss = some m }
with_nif internet_nif m d = record d { internet = some m }
with_nif wifi_nif m d = record d { wifi = some m }
with_nif ds_nif m d = record d { ds = some m }

-- A run of a message: its result and the machines after it, a call through a NULL pointer, a fault in a
-- machine, or a machine that ran out of fuel.
pub data NifRun (A : Type 0) : Type 0 where
  done : A → Nifs → NifRun A
  null_machine : NifRun A
  broken : NifRun A
  no_fuel : NifRun A

module _ {A : Type 0} where
  abbrev pub after_run : Nif → Run A → Nifs → NifRun A
  after_run w (ok a m) d = done a (with_nif w m d)
  after_run w fault d = broken
  after_run w out_of_fuel d = no_fuel

  -- A member function of a machine, called through its pointer.
  abbrev pub on_machine : Nif → Cmd A → Option Machine → Nifs → NifRun A
  on_machine w c none d = null_machine
  on_machine w c (some m) d = after_run w (c m) d

  unfoldable pub on_nif : Nif → Cmd A → Nifs → NifRun A
  on_nif w c d = on_machine w c (nif_of w d) d

abbrev pub agps_type_supl : ℕ
agps_type_supl = 1

abbrev pub agps_type_wifi : ℕ
agps_type_wifi = 4

abbrev pub agps_type_supl_es : ℕ
agps_type_supl_es = 5

-- `getAgpsStateMachine`.
unfoldable pub get_agps_state_machine : ℤ → Nif
get_agps_state_machine (pos type) =
    if type == agps_type_wifi
    then wifi_nif
    else if type == agps_type_supl
    then agnss_nif
    else if type == agps_type_supl_es
    then ds_nif
    else internet_nif
get_agps_state_machine (negsuc zero) = agnss_nif
get_agps_state_machine (negsuc (suc n)) = internet_nif

-- The machines that `loc_eng_agps_init` makes, without and with the one for SUPL, which a target with
-- GSS or QCA1530 has not.
unfoldable pub new_nifs : Bool → Nifs
new_nifs has_agnss = record {
  agnss =
      if has_agnss
      then some (new_agps_state_machine servicer_type_agps (pos agps_type_supl) false)
      else none;
  internet = some (new_agps_state_machine servicer_type_agps (pos 3) false);
  wifi = some (new_agps_state_machine servicer_type_agps (pos agps_type_wifi) true);
  ds = none;
  adapter_calls = [];
}
