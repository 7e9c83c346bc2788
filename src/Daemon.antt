-- ===== src/Daemon.antt =====
-- The messages of the GPS daemon (gps/loc_api/libloc_api_50001/loc_eng_dmn_conn.cpp and
-- loc_eng_dmn_conn_handler.{h,cpp}).
pub mod Server
pub mod Steps
pub mod Served
mod Examples
