-- ===== src/Config.antt =====
-- gps/utils/loc_misc_utils.cpp and gps/utils/loc_cfg.cpp: strings, and the configuration files.
pub mod Spaces
pub mod Trimming
pub mod Splitting
pub mod Parsing
pub mod Reading
pub mod Files
mod Examples
