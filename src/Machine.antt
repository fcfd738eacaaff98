-- ===== src/Machine.antt =====
-- The instruction loop of core.rs: opcode dispatch, interrupt service and the step functions.
-- `none` of `service_interrupts` is the panic of an index out of the five vectors.
pub mod Decode
pub mod Execute
pub mod Step
