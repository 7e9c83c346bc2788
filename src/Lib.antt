-- ===== src/Lib.antt =====
-- The GPS stack of the d2-common device tree (gps/), modelled over explicit state.
--
-- Agps models gps/loc_api/libloc_api_50001/loc_eng_agps.{h,cpp}: the state machines that hold a
-- data connection for their subscribers. A member function is a command on a `Machine`
-- (`Agps/Types.antt`), which holds the state, the list `mSubscribers`, the APN and the bearer, the
-- retry counter and the calls made to the adapter, the servicer, the timer and the daemon. A
-- command ends in a result, in a fault (memory is read that holds no object, or one of another
-- class), or without fuel. The list owns its subscribers: each has an address, and a pointer to a
-- deleted one resolves to nothing.
--   Agps/Subscribers, Agps/Notify: the subscriber classes, forMe, equals, notifyRsrcStatus.
--   Agps/SubscriberList: linked_list_search over the list, notifySubscribers, addSubscriber.
--   Agps/Request: sendRsrcRequest of both machines, the servicers.
--   Agps/StateMachine: onRsrcEvent of the four states, subscribeRsrc, unsubscribeRsrc.
--   Agps/Construction: the constructors, setAPN, setBearer, retryCallback.
--   Agps/Replies, Agps/Events, Agps/Subscribing, Agps/Unsubscribing: the specifications and,
--   with Agps/Broadcast, Agps/Leaving and Agps/Unsubscribe, the proofs that the code implements
--   them.
--   Agps/WellFormed, Agps/Joined, Agps/Departed: the invariant, and the calls that keep it.
--   Agps/Dropped, Agps/Trace: the machine whose subscribers were dropped, and any sequence of calls.
--   Agps/DataCall, Agps/Defects: the data call machine, and the reads of the code that go wrong.
-- The loop of notifySubscribers runs on as much fuel as there are subscribers and one more, which
-- is enough since each round but the last deletes one.
--
-- LinkedList models gps/utils/linked_list.c over a memory of list elements at addresses. A read
-- through NULL or of a freed element is a fault. The list_state is reached through its handle
-- alone, so a function takes its value and returns the new one; a NULL handle is `none`.
--   LinkedList/Memory: the elements, loads, stores, free, the calls of deallocation functions.
--   LinkedList/Operations: init, add, remove, empty, flush, destroy.
--   LinkedList/Chain, LinkedList/Adding, LinkedList/Removing, LinkedList/Flushing: the shape of a
--   list in memory, and what the functions do to it.
-- The loop of linked_list_flush has as much fuel as there are elements and one more. The pointer
-- version of linked_list_search is not modelled; Agps/SubscriberList has it over the list of
-- subscribers.
--
-- MsgQ models gps/utils/msg_q.c on the functions of LinkedList. The mutex makes each call one
-- command; a receiver that waits gives the mutex up and goes on with the loop when it is woken.
--   MsgQ/Operations: init, destroy, snd, rcv, flush, unblock.
--   MsgQ/Queued, MsgQ/Sending, MsgQ/Receiving, MsgQ/Flushing: a queue as a sequence of messages,
--   and what each function does to it.
--   MsgQ/Order: sequences of calls.
-- msg_q_init2, which calls msg_q_init, is not modelled, and neither are the signals.
--
-- Ni models gps/loc_api/libloc_api_50001/loc_eng_ni.{h,cpp}: requests of the network that the user
-- accepts or denies. The two sessions are shared by the callers and by one thread for each request.
--   Ni/Types, Ni/Session, Ni/Handlers, Ni/Threads: the sessions, the functions, and the thread as
--   the parts between its calls of the mutex and the wait.
--   Ni/Reach: any interleaving of the calls and the parts. A response first reads the sessions, as
--   the code does outside the mutex, and then writes its answers one at a time. A restart tests the
--   request of a session, frees it, sets its pointer to NULL and wakes the thread, each in a part of
--   its own, of which only the last holds the mutex.
--   Ni/Places, Ni/Ownership: where a payload is, and that none is lost.
--   Ni/Answers, Ni/Rounds: a response, and a whole request.
--   Ni/Races, Ni/Restarts: the races of the code, with a response and with a restart.
-- A call of loc_eng_ni_request_handler or loc_eng_ni_init is one step, and so is a part of a thread.
-- Whether pthread_create succeeds and when a wait times out is left open.
--
-- Engine models the fix session of gps/loc_api/libloc_api_50001/loc_eng.cpp and LocEngAdapter.{h,cpp}
-- as functions on the engine, which also holds the calls to the HAL's callbacks and the modem so far,
-- and the messages that it has sent itself.
--   Engine/Types, Engine/Session: the data; setInSession, setPositionMode, loc_eng_report_status,
--   update_aiding_data_for_deletion, the handlers that start and stop a fix, and the session after the
--   modem came up.
--   Engine/Reports: proc of LocEngReportPosition, LocEngReportSv and LocEngReportNmea, and sequences of
--   the events that touch the session, the aiding data or the callbacks, the modem going down and up
--   among them.
--   Engine/Messages: the functions of the HAL that send a message, and proc of the messages; a message
--   with values for the modem calls its method of the adapter (`config_proc`).
--   Engine/Aiding, Engine/Muting, Engine/Shots, Engine/Configuring: what is proved of them.
-- In Engine a float is its bit pattern, and enum loc_api_adapter_err a number.
-- Of loc_eng.cpp, the messages of XTRA, loc_eng_get_zpp_handler and loc_eng_read_config are not
-- modelled.
--
-- Routing models the messages of loc_eng.cpp that reach the machines of Agps, on the four pointers of
-- loc_eng_data_s_type. A call through a pointer that is NULL is an outcome of its own (`null_machine`).
--   Routing/Nifs: the pointers, getAgpsStateMachine, the machines of loc_eng_agps_init.
--   Routing/Messages: proc of the messages, loc_eng_agps_open, loc_eng_agps_closed and
--   loc_eng_agps_open_failed, which send them, and dataCallCb.
--   Routing/Steps, Routing/Rounds: a connection of the modem, from its request to its release.
--
-- Setup models loc_eng_init, loc_eng_agps_init and the servers of loc_eng.cpp, on the part of
-- loc_eng_data_s_type that they set up. htonl is that of a little-endian machine. The capabilities that
-- loc_eng_init reports, and the event mask that it hands to the adapter, are left out.
--   Setup/Servers: loc_eng_set_server_proxy, loc_eng_set_server, resolve_in_addr, loc_eng_init,
--   loc_eng_agps_init, loc_eng_agps_reinit.
--   Setup/Buffered: servers that are set before loc_eng_init.
--   Setup/Restart: loc_eng_handle_engine_down and loc_eng_handle_engine_up, over Engine, Routing and Ni.
--
-- Nmea models the checksum, the list of satellites and loc_eng_nmea_generate_sv of
-- gps/loc_api/libloc_api_50001/loc_eng_nmea.cpp; texts are lists of bytes without their NUL.
--   Nmea/Checksum: loc_eng_nmea_put_checksum and the loop over sv_used_mask.
--   Nmea/Reading: a reader of sentences, which is no part of the program, and the checksum.
--   Nmea/Satellites: the list of satellites.
--   Nmea/InView: loc_eng_nmea_generate_sv, with a sentence in its buffer of 200 bytes.
--   Nmea/Groups, Nmea/Filling, Nmea/Sentences: satellites in groups of four, how the inner loop fills
--   a sentence with them, and all sentences of a report.
-- The loop over sv_used_mask has 32 rounds, one for each bit, and the loop over the sentences as many as
-- there are sentences. A float is its bit pattern; how it is rounded and whether it is positive are
-- parameters. The sentences for a position, which snprintf formats from floats, are not modelled.
--
-- Config models the configuration files: gps/utils/loc_cfg.{h,cpp}, loc_misc_utils.cpp.
--   Config/Spaces, Config/Trimming: loc_util_trim_space, in place as the code does it.
--   Config/Splitting: loc_util_split_string.
--   Config/Parsing: a line, the entries of a table, loc_read_conf_r and loc_read_conf.
--   Config/Reading, Config/Files: what the lines of a file leave in the table.
-- A file is its bytes, without a NUL; fgets and strtok_r are written out. The loop over the lines has as
-- much fuel as the file has bytes and one more, which is enough since each line takes one at least.
--
-- LocApi models gps/core/LocApiBase.{h,cpp}: the array of ten adapters, the messages that open the
-- modem, and the calls that go up to all adapters or to the first that handles them.
--   LocApi/Adapters: addAdapter, removeAdapter, getEvtMask, isInSession, the calls up.
--   LocApi/Registry, LocApi/Sets: the two loops, and the array as a set of at most ten.
--   LocApi/Delivery, LocApi/Opening: the adapters that a call reaches, and what a removal asks for.
-- An adapter is its address; its events, and which calls it handles, are parameters. What open and
-- close do is left to the classes that override them, and the calls down, which only log, are left out.
--
-- Daemon models the messages of the GPS daemon: gps/loc_api/libloc_api_50001/loc_eng_dmn_conn.cpp and
-- loc_eng_dmn_conn_handler.{h,cpp}, up to the messages of Routing that the handlers send.
--   Daemon/Server: the handlers of requests and releases, loc_api_server_proc, and
--   loc_eng_dmn_conn_loc_api_server_data_conn.
--   Daemon/Steps, Daemon/Served: a connection of the daemon, from its request to its release.
-- The pipes are parameters: whether a message is received, and whether a queue takes a response. The thread
-- helper and the setup of the queues are not modelled.
--
-- Target models gps/utils/loc_target.{h,cpp}, and loc_get_target_name of gps/utils/loc_log.cpp.
--   Target/Detection: read_a_line, is_qca1530, loc_get_target with the variable gTarget.
--   Target/Kept: what the first call stores, and what later ones return.
-- The loop of is_qca1530 has the 30 rounds of the code. A file is its bytes, without a NUL.
--
-- Common holds the shared names, Boolean tests, lists, integers, texts and decimal numbers.
--
-- Parameters: the result of the callback of an ExtServicer and of loc_timer_start
-- (`Agps.Request.Env`), what malloc and calloc return, whether pthread_mutex_init and
-- pthread_cond_init succeed, what the modem returns for a start and a stop of a fix, how a float
-- compares with an integer (`Engine.Types.Modem`) and how it is rounded (`Nmea.InView.Floats`),
-- strtol, atoi and atof (`Config.Parsing.Numbers`), gethostbyname and inet_aton
-- (`Setup.Servers.Resolver`), and the properties and files of the device
-- (`Target.Detection.Device`). Logging is left out, and so is, in Agps and Engine, the alternation
-- of threads: the engine handles its messages one at a time in one thread.
pub mod Common
pub mod Agps
pub mod LinkedList
pub mod MsgQ
pub mod Ni
pub mod Engine
pub mod Nmea
pub mod LocApi
pub mod Config
pub mod Routing
pub mod Setup
pub mod Target
pub mod Daemon
