-- ===== src/Tests.antt =====
-- Witnesses and runs of the core on small programs, of the transport, of the application loop,
-- of the kernel service and of its codec.
pub mod Run
pub mod Transport
pub mod Endpoint
pub mod App
pub mod Devices
pub mod Kernel
pub mod Codecs
