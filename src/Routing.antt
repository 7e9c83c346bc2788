-- ===== src/Routing.antt =====
-- The messages of gps/loc_api/libloc_api_50001/loc_eng.cpp that subscribe to the AGPS state machines.
pub mod Nifs
pub mod Messages
pub mod Steps
pub mod Rounds
mod Examples
