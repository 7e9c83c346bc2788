-- ===== src/Engine.antt =====
-- gps/loc_api/libloc_api_50001/loc_eng.cpp: the location engine.
pub mod Types
pub mod Session
pub mod Reports
pub mod Messages
pub mod Configuring
pub mod Aiding
pub mod Muting
pub mod Shots
mod Examples
