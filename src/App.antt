-- ===== src/App.antt =====
-- The application loop: the messages of crates/03-driver/service-abi, and the world, the services
-- hub and the scheduler of crates/05-app-loop.
pub mod Abi
pub mod World
pub mod Queues
pub mod Hub
pub mod Scheduler
