-- ===== src/Pdu.antt =====
-- The packets of the protocol, as bytes: `createPDU` and `printPDU` of windowing.c (and their copies
-- in newPDU.c), `formatReceiverReadyPDU` and the flags of bufferMngment.
pub mod Build
pub mod Layout
pub mod Print
pub mod Example
mod Tests
