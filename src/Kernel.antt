-- ===== src/Kernel.antt =====
-- The kernel service, crates/04-services/kernel/src: instances of the core, their boot sequence,
-- and the commands of the scheduler.
pub mod Logo
pub mod Sink
pub mod Boot
pub mod Instance
pub mod Farm
pub mod Service
