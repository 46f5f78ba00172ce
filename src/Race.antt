-- ===== src/Race.antt =====
-- A send and a receive of msgq/msgq.cc that overlap, a shared access at a time. The accesses are
-- sequentially consistent.
pub mod Writes
pub mod Reads
pub mod System
pub mod Invariant
pub mod WriterSteps
pub mod WriterInside
pub mod Sends
pub mod ReaderSteps
pub mod Torn
pub mod Repeated
pub mod SendAlone
pub mod ReceiveAlone
