-- ===== src/MsgQ.antt =====
-- gps/utils/msg_q.c: the message queue between threads, on the linked list.
pub mod Operations
pub mod Queued
pub mod Sending
pub mod Receiving
pub mod Flushing
pub mod Order
mod Examples
