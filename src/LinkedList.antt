-- ===== src/LinkedList.antt =====
-- gps/utils/linked_list.c: the doubly linked list that the message queues and the AGPS machines use.
pub mod Memory
pub mod Operations
pub mod Chain
pub mod Adding
pub mod Removing
pub mod Flushing
mod Examples
