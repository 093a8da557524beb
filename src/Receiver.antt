-- ===== src/Receiver.antt =====
-- The receiving side's buffer and its state machine (bufferMngment.c, bufferMngment.h).
pub mod Slots
pub mod Replies
pub mod States
pub mod Stored
pub mod Delivered
pub mod InTurn
pub mod Arrivals
pub mod Flush
pub mod Manage
pub mod Example
