-- ===== src/LocApi.antt =====
-- gps/core/LocApiBase.{h,cpp}: the array of adapters, and the calls that it passes up to them.
pub mod Adapters
pub mod Registry
pub mod Sets
pub mod Delivery
pub mod Opening
mod Examples
