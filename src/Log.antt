-- ===== src/Log.antt =====
-- src/log_buffer.c, include/log_copy.h: the ring buffer that carries the replicated log from a node
-- to the next one, and the threads that write and read it.
pub mod Window
pub mod Geometry
pub mod Bytes
pub mod Writer
pub mod Reserve
pub mod Send
pub mod Reader
pub mod Pipeline
pub mod Read
pub mod Texts
pub mod Entries
pub mod Delivery
pub mod Arrival
pub mod Values
pub mod System
pub mod Rounds
pub mod Turns
pub mod Reachable
pub mod Waiting
pub mod Arrives
pub mod Chars
pub mod Journey
pub mod Marks
pub mod Whole
pub mod Addresses
pub mod Executed
pub mod Emptied
pub mod Sending
pub mod Exchanged
pub mod Loops
pub mod Passing
