-- ===== src/Sender.antt =====
-- The sender's program (rcopy.c): its steps, and the state machine over them.
pub mod Steps
pub mod Loops
pub mod Main
pub mod Setup
pub mod Pieces
pub mod Account
pub mod Answers
pub mod Acks
pub mod Rounds
pub mod Reading
pub mod Pumping
pub mod Waiting
pub mod Received
pub mod Ending
pub mod Whole
pub mod Sent
pub mod Silence
pub mod GivesUp
pub mod Quits
pub mod Started
pub mod Sending
pub mod Retry
mod Tests
