-- ===== src/Setup/Servers.antt =====
-- `loc_eng_init`, `loc_eng_agps_init` and the server settings
-- (gps/loc_api/libloc_api_50001/loc_eng.cpp).
-- A server that was set before the engine: the flag, the host and the port.
use android_device_samsung_d.Common.{
  ℕ, ◌+◌, ◌*◌, ◌/◌, ◌%◌, ◌^◌, bit_and, Bool, true, false, not, ◌&&◌, ◌||◌, Option, none, some, List,
  [], ◌∷◌, ◌++◌, ltb, ◌==◌, if◌then◌else◌, decimal, length, take, ℤ, pos, negsuc,
}
use android_device_samsung_d.Engine.Messages.{GnssType, is_standalone_only, loc_eng_set_privacy}
use android_device_samsung_d.Engine.Session.{loc_position_mode_invalid}
use android_device_samsung_d.Engine.Types.{
  status_none, mute_sess_none, ServerType, cdma_pde_server, supl_server, set_server_ipv4,
  set_server_url, init_msg, config_msg, Adapter, Engine, send,
}

pub record HostBuf : Type 0 where
  pub host_set : ℕ
  pub host_buf : List ℕ
  pub port_buf : ℕ

-- The part of `loc_eng_data` that is set up: the engine, if `adapter` is not NULL, the two buffers, whether
-- `agps_status_cb` is set, and how many messages to start the data service client were sent.
pub record Setup : Type 0 where
  pub engine : Option Engine
  pub supl_host : HostBuf
  pub c2k_host : HostBuf
  pub has_agps_status_cb : Bool
  pub data_clients : ℕ

-- `LocCallbacks`: which of the callbacks that the model reads are given.
pub record Callbacks : Type 0 where
  pub gives_location : Bool
  pub gives_sv_status : Bool
  pub gives_status : Bool
  pub gives_nmea : Bool

-- The members of `gps_conf` that are read.
pub record InitConf : Type 0 where
  pub intermediate_pos : ℕ
  pub nmea_provider : ℕ

-- The results of `gethostbyname` and `inet_aton` on a host: the address as the number in its memory.
pub record Resolver : Type 0 where
  pub gethostbyname : List ℕ → Option ℕ
  pub inet_aton : List ℕ → Option ℕ

or_address : Option ℕ → Option ℕ → Option ℕ
or_address (some address) other = some address
or_address none other = other

unfoldable pub resolve_in_addr : Resolver → List ℕ → Option ℕ
unfolding or_address
resolve_in_addr resolve host = or_address (resolve.gethostbyname host) (resolve.inet_aton host)

abbrev pub max_url_len : ℕ
max_url_len = 256

-- `htonl` on a little-endian machine.
unfoldable pub htonl : ℕ → ℕ
htonl a =
    (a % 256) * 2 ^ 24 + (a / 256 % 256) * 2 ^ 16 + (a / 2 ^ 16 % 256) * 256 + a / 2 ^ 24 % 256

abbrev pub server_url : List ℕ → ℕ → List ℕ
server_url hostname port = hostname ++ b':' ∷ decimal 10 port

ipv4_server : Option ℕ → ℕ → ServerType → Engine → ℤ × Engine
unfolding htonl
ipv4_server none port type e = (negsuc 1, e)
ipv4_server (some address) port type e =
    (pos 0, send (config_msg (set_server_ipv4 (htonl address) port type)) e)

-- `loc_eng_set_server`, on an engine.
unfoldable pub loc_eng_set_server : Resolver → ServerType → List ℕ → ℕ → Engine → ℤ × Engine
unfolding ipv4_server decimal resolve_in_addr
loc_eng_set_server resolve supl_server hostname port e =
    let url = server_url hostname port in
    (pos 0, if ltb (length url) max_url_len then send (config_msg (set_server_url url)) e else e)
loc_eng_set_server resolve type hostname port e =
    ipv4_server (resolve_in_addr resolve hostname) port type e

abbrev pub host_of : List ℕ → ℕ → HostBuf
host_of hostname port = record { host_set = 1; host_buf = take 100 hostname; port_buf = port }

unfoldable pub buffer_server : ServerType → List ℕ → ℕ → Setup → Setup
buffer_server supl_server hostname port s = record s { supl_host = host_of hostname port }
buffer_server cdma_pde_server hostname port s = record s { c2k_host = host_of hostname port }
buffer_server _ hostname port s = s

abbrev pub with_engine : ℤ × Engine → Setup → ℤ × Setup
with_engine (ret, e) s = (ret, record s { engine = some e })

unfoldable pub set_server_of :
    Resolver → ServerType → List ℕ → ℕ → Option Engine → Setup → ℤ × Setup
unfolding buffer_server loc_eng_set_server
set_server_of resolve type hostname port none s = (pos 0, buffer_server type hostname port s)
set_server_of resolve type hostname port (some e) s =
    with_engine (loc_eng_set_server resolve type hostname port e) s

-- `loc_eng_set_server_proxy`.
unfoldable pub loc_eng_set_server_proxy : Resolver → ServerType → List ℕ → ℕ → Setup → ℤ × Setup
unfolding set_server_of
loc_eng_set_server_proxy resolve type hostname port s =
    set_server_of resolve type hostname port s.engine s

-- The memory of `loc_eng_data` after `memset`.
abbrev pub no_host : HostBuf
no_host = record { host_set = 0; host_buf = []; port_buf = 0 }

abbrev pub cleared_setup : Setup
cleared_setup = record {
  engine = none;
  supl_host = no_host;
  c2k_host = no_host;
  has_agps_status_cb = false;
  data_clients = 0;
}

-- The adapter after its constructor.
abbrev pub new_adapter : Adapter
new_adapter = record {
  fix_criteria = record {
    mode = loc_position_mode_invalid;
    recurrence = 0;
    min_interval = 0;
    preferred_accuracy = 0;
    preferred_time = 0;
    credentials = [];
    provider = [];
  };
  navigating = false;
  supports_agps_requests = false;
  supports_position_injection = false;
}

abbrev pub adapter_bit_nmea_1hz : ℕ
adapter_bit_nmea_1hz = 4

-- The engine that `loc_eng_init` makes, before it sends its first messages.
unfoldable pub new_engine : Callbacks → ℕ → InitConf → Engine
new_engine cb event c = record {
  adapter = new_adapter;
  has_location_cb = cb.gives_location;
  has_sv_status_cb = cb.gives_sv_status;
  has_status_cb = cb.gives_status;
  has_nmea_cb = cb.gives_nmea;
  intermediate_fix = c.intermediate_pos;
  generate_nmea = not (bit_and event adapter_bit_nmea_1hz == 0) && c.nmea_provider == 0;
  engine_status = status_none;
  fix_session_status = status_none;
  aiding_data_for_deletion = 0;
  mute_session_state = mute_sess_none;
  calls = [];
  queue = [];
}

unfoldable pub init_of : Callbacks → ℕ → InitConf → Option Engine → Setup → ℤ × Setup
unfolding new_engine
init_of cb event c (some e) s = (pos 0, record s { engine = (loc_eng_set_privacy 1 (some e)).1 })
init_of cb event c none s = (
  pos 0,
  record cleared_setup {
    engine = (loc_eng_set_privacy 1 (some (send init_msg (new_engine cb event c)))).1;
  },
)

-- `loc_eng_init`; `none` is NULL for the callbacks.
unfoldable pub loc_eng_init : Option Callbacks → ℕ → InitConf → Setup → ℤ × Setup
unfolding init_of
loc_eng_init none event c s = (negsuc 0, s)
loc_eng_init (some cb) event c s =
    if event == 0 then (negsuc 0, s) else init_of cb event c s.engine s

-- A buffered server is set if its flag is.
unfoldable pub set_buffered : Resolver → ServerType → HostBuf → Engine → Engine
unfolding loc_eng_set_server
set_buffered resolve type h e =
    if h.host_set == 0 then e else (loc_eng_set_server resolve type h.host_buf h.port_buf e).1

-- `loc_eng_agps_reinit`.
unfoldable pub loc_eng_agps_reinit : Resolver → Setup → Engine → Engine
unfolding set_buffered
loc_eng_agps_reinit resolve s e =
    set_buffered resolve cdma_pde_server s.c2k_host (set_buffered resolve supl_server s.supl_host e)

unfoldable pub agps_init_of : Resolver → GnssType → Option Engine → Setup → Setup
unfolding is_standalone_only loc_eng_agps_reinit
agps_init_of resolve gnss none s = s
agps_init_of resolve gnss (some e) s =
    let ready = record s { has_agps_status_cb = true } in
    if is_standalone_only gnss then ready else record ready {
      engine = some (loc_eng_agps_reinit resolve s e);
      data_clients =
          if e.adapter.supports_agps_requests then s.data_clients + 1 else s.data_clients;
    }

-- `loc_eng_agps_init`: whether the callbacks are given. The state machines that it makes are `new_nifs`.
unfoldable pub loc_eng_agps_init : Resolver → GnssType → Bool → Setup → Setup
unfolding agps_init_of
loc_eng_agps_init resolve gnss callbacks s =
    if s.has_agps_status_cb || not callbacks then s else agps_init_of resolve gnss s.engine s
