-- ===== src/Fake.antt =====
-- The fake mode of msgq/event.cc and msgq/ipc.cc, in which a test releases each receive: the names
-- of the shared state and of the pipes, the state, and the sockets that use it.
pub mod Digits
pub mod Names
pub mod Handle
pub mod Counts
pub mod Balance
pub mod Rendezvous
pub mod Sockets
pub mod Environment
