-- ===== src/LocApi/Adapters.antt =====
-- The adapters of a LocApiBase and the calls to them (gps/core/LocApiBase.{h,cpp}). An adapter is its
-- address, and `none` in the array is NULL.
-- The calls that are passed up; their arguments are passed on as they are, and stand as one number.
use android_device_samsung_d.Common.{
  ℕ, zero, suc, ◌+◌, bit_and, bit_or, bit_xor, Bool, true, false, ◌||◌, Option, none, some, List,
  [], ◌∷◌, ◌++◌, ◌==◌, if◌then◌else◌, length,
}

pub data UpCall : Type 0 where
  handle_engine_up_event handle_engine_down_event : UpCall
  report_position report_sv report_status report_nmea : ℕ → UpCall
  report_xtra_server request_atl release_atl request_supl_es request_ni_notify : ℕ → UpCall
  request_xtra_data request_time request_location : UpCall
  report_data_call_opened report_data_call_closed : UpCall

-- The messages that are sent, the calls of `open` and `close`, and the calls that adapters get.
pub data ApiCall : Type 0 where
  open_msg : ℕ → ApiCall
  ssr_msg : ApiCall
  opened : ℕ → ApiCall
  closed : ApiCall
  delivered : ℕ → UpCall → ApiCall

pub record LocApiBase : Type 0 where
  pub loc_adapters : List (Option ℕ)
  pub excluded_mask : ℕ
  pub calls : List ApiCall

abbrev pub max_adapters : ℕ
max_adapters = 10

abbrev pub nulls : ℕ → List (Option ℕ)
nulls zero = []
nulls (suc k) = none ∷ nulls k

-- The constructor.
abbrev pub new_loc_api : ℕ → LocApiBase
new_loc_api excluded = record {
  loc_adapters = nulls max_adapters;
  excluded_mask = excluded;
  calls = [];
}

abbrev pub did_api : ApiCall → LocApiBase → LocApiBase
did_api c api = record api { calls = api.calls ++ c ∷ [] }

-- `TO_ALL_ADAPTERS`: the adapters that are called, in order.
unfoldable pub to_all_adapters : List (Option ℕ) → List ℕ
to_all_adapters [] = []
to_all_adapters (none ∷ rest) = []
to_all_adapters (some a ∷ rest) = a ∷ to_all_adapters rest

-- `TO_1ST_HANDLING_ADAPTER`: the adapters that are called, given which of them handle the call.
unfoldable pub to_1st_handling_adapter : (ℕ → Bool) → List (Option ℕ) → List ℕ
to_1st_handling_adapter handles [] = []
to_1st_handling_adapter handles (none ∷ rest) = []
to_1st_handling_adapter handles (some a ∷ rest) =
    let more = to_1st_handling_adapter handles rest in if handles a then a ∷ [] else a ∷ more

-- `isInSession`.
unfoldable pub is_in_session : (ℕ → Bool) → List (Option ℕ) → Bool
is_in_session in_session [] = false
is_in_session in_session (none ∷ rest) = false
is_in_session in_session (some a ∷ rest) = in_session a || is_in_session in_session rest

-- The loop of `addAdapter`, and whether it stores the adapter.
unfoldable pub add_loop : ℕ → List (Option ℕ) → List (Option ℕ) × Bool
add_loop a [] = ([], false)
add_loop a (none ∷ rest) = (some a ∷ rest, true)
add_loop a (some b ∷ rest) =
    let more = add_loop a rest in
    if b == a then (some b ∷ rest, false) else (some b ∷ more.0, more.1)

-- In `removeAdapter`, the last adapter before a NULL is taken out of the array.
unfoldable pub put_back : ℕ → Option ℕ × List (Option ℕ) → Option ℕ × List (Option ℕ)
put_back b (none, rest) = (some b, none ∷ rest)
put_back b (some last, rest) = (some last, some b ∷ rest)

unfoldable pub take_last : List (Option ℕ) → Option ℕ × List (Option ℕ)
unfolding put_back
take_last [] = (none, [])
take_last (none ∷ rest) = (none, none ∷ rest)
take_last (some b ∷ rest) = put_back b (take_last rest)

-- The loop of `removeAdapter` from index `i` on, and the index of the place that it clears, if it finds
-- the adapter: the last adapter takes the place of the one that is removed.
unfoldable pub remove_loop : ℕ → ℕ → List (Option ℕ) → List (Option ℕ) × Option ℕ
unfolding take_last to_all_adapters
remove_loop a i [] = ([], none)
remove_loop a i (none ∷ rest) = (none ∷ rest, none)
remove_loop a i (some b ∷ rest) =
    let more = remove_loop a (i + 1) rest in
    let (last, others) = take_last rest in
    if b == a
    then (last ∷ others, some (i + length (to_all_adapters rest)))
    else (some b ∷ more.0, more.1)

module _ (evt_mask : ℕ → ℕ) where
  abbrev pub mask_of : ℕ → List ℕ → ℕ
  mask_of mask [] = mask
  mask_of mask (a ∷ rest) = mask_of (bit_or mask (evt_mask a)) rest

  -- `getEvtMask`.
  unfoldable pub get_evt_mask : LocApiBase → ℕ
  unfolding to_all_adapters
  get_evt_mask api =
      bit_and (mask_of 0 (to_all_adapters api.loc_adapters)) (bit_xor api.excluded_mask 0xffff_ffff)

  -- `addAdapter`.
  unfoldable pub add_adapter : ℕ → LocApiBase → LocApiBase
  unfolding add_loop
  add_adapter a api =
      let (after, added) = add_loop a api.loc_adapters in
      let stored = record api { loc_adapters = after } in
      if added then did_api (open_msg (evt_mask a)) stored else stored

  -- What `removeAdapter` does once it has cleared the place with an index.
  unfoldable pub after_removal : Option ℕ → LocApiBase → LocApiBase
  unfolding get_evt_mask
  after_removal none api = api
  after_removal (some zero) api = did_api closed api
  after_removal (some (suc i)) api = did_api (open_msg (get_evt_mask api)) api

  -- `removeAdapter`.
  unfoldable pub remove_adapter : ℕ → LocApiBase → LocApiBase
  unfolding remove_loop after_removal
  remove_adapter a api =
      let (after, cleared) = remove_loop a 0 api.loc_adapters in
      after_removal cleared (record api { loc_adapters = after })

  -- `LocSsrMsg::proc` and `LocOpenMsg::proc`.
  unfoldable pub ssr_proc : LocApiBase → LocApiBase
  unfolding get_evt_mask
  ssr_proc api = did_api (opened (get_evt_mask api)) (did_api closed api)

  unfoldable pub open_proc : ℕ → LocApiBase → LocApiBase
  open_proc mask api = did_api (opened mask) api

-- Whether a call goes to every adapter, or to the first that handles it.
unfoldable pub is_for_all : UpCall → Bool
is_for_all handle_engine_up_event = true
is_for_all handle_engine_down_event = true
is_for_all (report_position _) = true
is_for_all (report_sv _) = true
is_for_all (report_status _) = true
is_for_all (report_nmea _) = true
is_for_all _ = false

unfoldable pub is_engine_up : UpCall → Bool
is_engine_up handle_engine_up_event = true
is_engine_up _ = false

abbrev pub deliver : UpCall → List ℕ → List ApiCall
deliver c [] = []
deliver c (a ∷ rest) = delivered a c ∷ deliver c rest

-- The functions that pass a call up, given which adapters handle it.
unfoldable pub up_call : (ℕ → Bool) → UpCall → LocApiBase → LocApiBase
unfolding is_for_all is_engine_up to_all_adapters to_1st_handling_adapter
up_call handles c api =
    let begun = if is_engine_up c then did_api ssr_msg api else api in
    let reached =
      if is_for_all c
      then to_all_adapters api.loc_adapters
      else to_1st_handling_adapter handles api.loc_adapters in
    record begun { calls = begun.calls ++ deliver c reached }
