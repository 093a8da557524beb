-- ===== src/Net.antt =====
-- The set-up of sockets (networks.c) and the look-up of host names (gethostbyname.c).
pub mod Names
pub mod Sockets
pub mod Ports
pub mod Tcp
pub mod Print
mod Tests
