-- ===== src/Transport.antt =====
-- The shared-memory transport (crates/01-transport/transport/src) and the
-- fabric over it (transport-fabric/src beside it). A region of memory is a
-- function of the offset; an atomic of 32 bits is a number, and loads and stores are steps.
pub mod Region
pub mod IndexRing
pub mod SlotPool
pub mod MsgRing
pub mod Mailbox
pub mod Port
pub mod Endpoint
