-- ===== src/Setup.antt =====
-- The initialisation of the engine and its servers (gps/loc_api/libloc_api_50001/loc_eng.cpp).
pub mod Servers
pub mod Buffered
pub mod Restart
mod Examples
