-- ===== src/Server.antt =====
-- The server (server.c): the setup packet, the loop that receives the file, and the states of a child.
pub mod Setup
pub mod Receive
pub mod Handshake
pub mod Network
pub mod Delivery
pub mod Complete
pub mod Child
pub mod Parent
pub mod Served
pub mod Acknowledged
pub mod Working
pub mod Finishes
pub mod Arrives
pub mod Whole
pub mod Damaging
pub mod Example
mod Tests
mod ChildTests
mod FinishTests
mod WholeTests
