-- ===== src/Ni.antt =====
-- gps/loc_api/libloc_api_50001/loc_eng_ni.{h,cpp}: network initiated requests and their responses.
pub mod Types
pub mod Session
pub mod Handlers
pub mod Threads
pub mod Reach
pub mod Places
pub mod Ownership
pub mod Answers
pub mod Races
pub mod Rounds
pub mod Restarts
mod Examples
