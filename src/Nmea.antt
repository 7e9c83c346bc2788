-- ===== src/Nmea.antt =====
-- gps/loc_api/libloc_api_50001/loc_eng_nmea.cpp: the NMEA sentences.
pub mod Checksum
pub mod Reading
pub mod Satellites
pub mod InView
pub mod Groups
pub mod Filling
pub mod Sentences
mod Examples
