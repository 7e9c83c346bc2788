-- ===== src/Agps/Types.antt =====
-- Data of loc_eng_agps.h: events, subscribers, notifications, the state machine and its calls out.
use android_device_samsung_d.Common.{ℕ, ℤ, Bool, Option, List, [], ◌++◌, ◌∷◌}

-- NIF resource events.
pub data AgpsRsrcStatus : Type 0 where
  rsrc_subscribe rsrc_unsubscribe rsrc_granted rsrc_released rsrc_denied rsrc_status_max :
      AgpsRsrcStatus

pub data ServicerType : Type 0 where
  servicer_type_no_cb_param servicer_type_agps servicer_type_ext : ServicerType

-- `AGpsStatusValue`: the two values that the state machine sends.
pub data AgpsStatusValue : Type 0 where
  gps_request_agps_data_conn gps_release_agps_data_conn : AgpsStatusValue

-- The bytes before the terminating NUL of a C string.
abbrev pub CString : Type 0
CString = List ℕ

-- A subscriber object, with the dynamic type as the constructor. An `int` and a `uint32_t` are
-- their 32-bit pattern.
pub data Subscriber : Type 0 where
  -- `ID` (the IPv4 address) and `mIPv6Addr`
  bit_subscriber : ℕ → List ℕ → Subscriber
  -- `ID` and `mBackwardCompatibleMode`
  atl_subscriber : ℕ → Bool → Subscriber
  -- `senderId` (also `ID`), `mSSID`, `mPassword` and `mIsInactive`
  wifi_subscriber : ℕ → Option CString → Option CString → Bool → Subscriber
  -- `ID` and `mIsInactive`
  ds_subscriber : ℕ → Bool → Subscriber

-- An element of `mSubscribers`: the address of the object that the list owns, and the object.
pub record Node : Type 0 where
  pub addr : ℕ
  pub sub : Subscriber

-- A `Subscriber*`: NULL, an object that the caller owns, or one that the list owned when the
-- pointer was taken.
pub data Ref : Type 0 where
  null : Ref
  caller : Subscriber → Ref
  listed : ℕ → Ref

-- `groupID`: the three broadcasts, and the -1 of a notification with a receiver.
pub data GroupId : Type 0 where
  broadcast_all broadcast_active broadcast_inactive no_group : GroupId

pub record Notification : Type 0 where
  pub rcver : Ref
  pub group_id : GroupId
  pub rsrc_status : AgpsRsrcStatus
  pub post_notify_delete : Bool

pub data AgpsState : Type 0 where
  released acquired pending releasing : AgpsState

-- `AGpsExtStatus`, as `sendRsrcRequest` fills it; `none` is a field that is left unset.
pub record NifRequest : Type 0 where
  pub type : ℤ
  pub status : AgpsStatusValue
  pub ipv4_addr : Option ℕ
  pub ipv6_addr : Option (List ℕ)
  pub ssid : CString
  pub password : CString

-- What `requestRsrc` is handed: the request of `AgpsStateMachine`, or the `dsCbData` of
-- `DSStateMachine`.
pub data CbData : Type 0 where
  nif_request : NifRequest → CbData
  ds_cb_data : AgpsStatusValue → CbData

-- The calls that leave the state machine.
pub data Action : Type 0 where
  -- `loc_eng_dmn_conn_loc_api_server_data_conn(sender_id, status)`
  server_data_conn : ℕ → ℕ → Action
  -- `mLocAdapter->atlOpenStatus(handle, is_succ, apn, bearer, type)`
  atl_open_status : ℕ → ℕ → Option CString → ℤ → ℤ → Action
  -- `mLocAdapter->atlCloseStatus(handle, is_succ)`
  atl_close_status : ℕ → ℕ → Action
  close_data_call : Action
  -- `mLocAdapter->requestATL(handle, type)`
  request_atl : ℕ → ℤ → Action
  request_supl_es : ℕ → Action
  -- `mServicer->requestRsrc(data)`
  request_rsrc : ServicerType → CbData → Action
  -- `loc_timer_start(msec, delay_callback, this)`
  loc_timer_start : ℕ → Action

-- The class of the object: its virtual `sendRsrcRequest` and `onRsrcEvent`.
pub data MachineKind : Type 0 where
  agps_state_machine ds_state_machine : MachineKind

-- `AgpsStateMachine`, with the `mRetries` of `DSStateMachine`, the next address that `clone`
-- returns, and the calls made so far.
pub record Machine : Type 0 where
  pub kind : MachineKind
  pub state : AgpsState
  pub subscribers : List Node
  pub servicer : ServicerType
  pub type : ℤ
  pub apn : Option CString
  pub bearer : ℤ
  pub enforce_single_subscriber : Bool
  pub retries : ℕ  -- unsigned char
  pub next_addr : ℕ
  pub calls : List Action

-- A run of a member function: its result and the machine after it, a read of memory that no longer
-- holds an object (or holds one of another class), or a loop that ran out of fuel.
pub data Run (A : Type 0) : Type 0 where
  ok : A → Machine → Run A
  fault : Run A
  out_of_fuel : Run A

abbrev pub Cmd : Type 0 → Type 0
Cmd A = Machine → Run A

abbrev pub pure : {A : Type 0} → A → Cmd A
pure a m = ok a m

module _ {A B : Type 0} where
  abbrev pub and_then : Run A → (A → Cmd B) → Run B
  and_then (ok a m) k = k a m
  and_then fault k = fault
  and_then out_of_fuel k = out_of_fuel

  infixl 5 ◌>>=◌ ◌>>◌
  abbrev pub ◌>>=◌ : Cmd A → (A → Cmd B) → Cmd B
  ◌>>=◌ c k m = and_then (c m) k

  abbrev pub ◌>>◌ : Cmd A → Cmd B → Cmd B
  ◌>>◌ c d m = and_then (c m) λ _. d

abbrev pub get : Cmd Machine
get m = ok m m

abbrev pub modify : (Machine → Machine) → Cmd (Unit {0})
modify f m = ok tt (f m)

abbrev pub call : Action → Cmd (Unit {0})
call a m = ok tt (record m { calls = m.calls ++ (a ∷ []) })
