-- ===== src/Daemon/Server.antt =====
-- The handlers of the daemon's messages (gps/loc_api/libloc_api_50001/loc_eng_dmn_conn_handler.{h,cpp})
-- and the loop body that receives them (loc_eng_dmn_conn.cpp).
-- `ctrl_msg_if_request`; the arrays are their bytes.
use android_device_samsung_d.Common.{
  ℕ, ◌-◌, ◌%◌, ◌^◌, Bool, true, false, Option, none, some, List, leb, ◌==◌, if◌then◌else◌, take, ℤ,
  pos, negsuc,
}
use android_device_samsung_d.Agps.Subscribers.{c_string}
use android_device_samsung_d.Agps.Types.{CString}
use android_device_samsung_d.Routing.Messages.{NifMsg, req_rel_bit, req_rel_wifi}

pub record IfRequest : Type 0 where
  pub type : ℕ
  pub sender_id : ℕ
  pub ipv4_addr : ℕ
  pub ipv6_addr : List ℕ
  pub ssid : List ℕ
  pub password : List ℕ

abbrev pub ssid_buf_size : ℕ
ssid_buf_size = 33

-- The type of the state machine that a type of interface stands for.
unfoldable pub agps_type_of : ℕ → Option ℤ
agps_type_of type =
    if type == 0
    then some (pos 1)
    else if type == 1
    then some (pos 4)
    else if type == 2
    then some (pos 0)
    else none

-- `strlcpy` to `SSID_BUF_SIZE` bytes.
abbrev pub copied_ssid : List ℕ → Option CString
copied_ssid text = some (take (ssid_buf_size - 1) (c_string text))

-- The message to the engine: for the first three senders about the WiFi, for the daemon about its address.
unfoldable pub if_message : ℤ → IfRequest → Bool → Option NifMsg
unfolding c_string
if_message type r is_req =
    if leb r.sender_id 2
    then some (req_rel_wifi type r.sender_id (copied_ssid r.ssid) (copied_ssid r.password) is_req)
    else if r.sender_id == 3
    then some (req_rel_bit type (r.ipv4_addr % 2 ^ 32) (take 16 r.ipv6_addr) is_req)
    else none

-- What a function returns and the message that it sends, or a message sent through `loc_api_handle` while
-- that is NULL.
pub data Handled : Type 0 where
  returned : ℤ → Option NifMsg → Handled
  null_handle : Handled

handled : Bool → Option NifMsg → Handled
handled has_handle none = returned (negsuc 0) none
handled has_handle (some m) = if has_handle then returned (pos 0) (some m) else null_handle

if_handler : Bool → Option ℤ → IfRequest → Bool → Handled
unfolding if_message handled
if_handler has_handle none r is_req = returned (negsuc 0) none
if_handler has_handle (some type) r is_req = handled has_handle (if_message type r is_req)

-- `loc_eng_dmn_conn_loc_api_server_if_request_handler`; whether `loc_api_handle` is set.
unfoldable pub if_request_handler : Bool → IfRequest → Handled
unfolding if_handler agps_type_of
if_request_handler has_handle r =
    if has_handle then if_handler true (agps_type_of r.type) r true else returned (pos 1) none

-- `loc_eng_dmn_conn_loc_api_server_if_release_handler`, which does not test `loc_api_handle`.
unfoldable pub if_release_handler : Bool → IfRequest → Handled
unfolding if_handler agps_type_of
if_release_handler has_handle r = if_handler has_handle (agps_type_of r.type) r false

-- `ctrl_msgbuf`: its `ctrl_type` and its `cmsg`.
pub record CtrlMsg : Type 0 where
  pub ctrl_type : ℕ
  pub if_request : IfRequest

abbrev pub gpsone_loc_api_if_request : ℕ
gpsone_loc_api_if_request = 0xf0

abbrev pub gpsone_loc_api_if_release : ℕ
gpsone_loc_api_if_release = 0xf1

abbrev pub ignore_result : Handled → Handled
ignore_result null_handle = null_handle
ignore_result (returned result m) = returned (pos 0) m

-- `loc_api_server_proc`: the memory, if `malloc` gives it, and the message, if one is received.
unfoldable pub loc_api_server_proc : Bool → Bool → Option CtrlMsg → Handled
unfolding if_request_handler if_release_handler
loc_api_server_proc has_handle false received = returned (negsuc 0) none
loc_api_server_proc has_handle true none = returned (negsuc 0) none
loc_api_server_proc has_handle true (some m) =
    if m.ctrl_type == gpsone_loc_api_if_request
    then ignore_result (if_request_handler has_handle m.if_request)
    else if m.ctrl_type == gpsone_loc_api_if_release
    then ignore_result (if_release_handler has_handle m.if_request)
    else returned (pos 0) none

-- The queue that a response is sent to.
pub data ResponseQueue : Type 0 where
  quipc_queue msapm_queue msapu_queue loc_api_resp_queue : ResponseQueue

unfoldable pub response_queue : ℕ → Option ResponseQueue
response_queue sender =
    if sender == 0
    then some quipc_queue
    else if sender == 1
    then some msapm_queue
    else if sender == 2
    then some msapu_queue
    else if sender == 3
    then some loc_api_resp_queue
    else none

-- `loc_eng_dmn_conn_loc_api_server_data_conn`: what it returns, and the result that it sends to a queue;
-- `sends` is whether the queue takes it.
abbrev pub responded :
    (ResponseQueue → Bool) → ℕ → Option ResponseQueue → ℤ × Option (ResponseQueue × ℕ)
responded sends status none = (pos 0, none)
responded sends status (some q) = if sends q then (pos 0, some (q, status)) else (negsuc 0, none)

unfoldable pub loc_api_server_data_conn :
    (ResponseQueue → Bool) → ℕ → ℕ → ℤ × Option (ResponseQueue × ℕ)
unfolding response_queue
loc_api_server_data_conn sends sender_id status = responded sends status (response_queue sender_id)
