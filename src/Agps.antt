-- ===== src/Agps.antt =====
-- gps/loc_api/libloc_api_50001/loc_eng_agps.{h,cpp}: the AGPS data connection state machine.
pub mod Types
pub mod Subscribers
pub mod Notify
pub mod SubscriberList
pub mod Request
pub mod StateMachine
pub mod Replies
pub mod Searches
pub mod Broadcast
pub mod Events
pub mod Equality
pub mod WellFormed
pub mod Subscribing
pub mod Joined
pub mod Found
pub mod Unsubscribing
pub mod Leaving
pub mod Unsubscribe
pub mod Construction
pub mod Trace
pub mod Defects
pub mod Departed
pub mod Dropped
pub mod DataCall
mod Examples
