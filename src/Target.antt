-- ===== src/Target.antt =====
-- gps/utils/loc_target.{h,cpp}: which GPS hardware the device has.
pub mod Detection
pub mod Kept
mod Examples
