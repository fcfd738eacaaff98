-- ===== src/Lib.antt =====
-- gbx: the Game Boy core, the kernel service around it, the shared-memory transport and the
-- application loop.
--
-- The program is an emulator. A `Core` holds the CPU registers, a bus, a timer block and a PPU.
-- `step_cycles` runs rounds until a budget of cycles is used up or a frame is ready; a round
-- services a pending interrupt, waits while halted, or executes one opcode. Every access of the
-- bus by an instruction calls `consume_cycles`, which steps the timers, the PPU and the serial
-- link; these talk to the CPU through the IO registers and latches of the bus.
--
-- The services around the core exchange commands and reports over shared memory. A port sends
-- records through a message ring, or keeps the latest in a mailbox; frames travel in the slots of
-- a pool, whose indices pass through a free and a ready ring. The scheduler pops intents by
-- priority, reduces them to commands for the services, drains their reports and reduces these.
--
-- The kernel service admits a command to its bounded queue of reports and has the farm run it. A
-- tick steps an instance of the core, or shows its boot sequence, draws the frame into a slot of
-- the pool, or inline when no slot is free, and reports the frame and the cycles done.
--
-- Files and code, first those of crates/04-services/kernel-core/src by their names:
--   Prelude       tests, lists, words of 8, 16 and 32 bits, and facts on single bits
--   Exec          exec.rs: flags and byte arithmetic of `Scalar`
--   Io            bus.rs: `IoRegs`
--   Bus           bus.rs: `BusScalar`, its ROM banks, boot overlay and inputs
--   Bus/Serial    bus.rs: `write_serial_control`, `advance_serial`, `clock_serial_bit`
--   Mmu           mmu.rs: `read8_scalar`, `write8_scalar`, OAM DMA
--   Timers        timers.rs: `Timers`, `process_register_writes`, `step`
--   Ppu           ppu_stub.rs: `PpuStub::step` and the scanline machine
--   Ppu/Render    ppu_stub.rs: `render_frame`
--   Cpu           cpu.rs: the register file and the stack
--   Core          core.rs: `Core`, resets, `consume_cycles`, accesses with their cycles
--   Core/Frame    core.rs: `frame_ready`, `take_frame`
--   Instr         instr.rs: operands; Load, Alu, Bits and Control hold the handlers
--   Machine       core.rs: Decode and Execute are `execute_opcode`, Step is `service_interrupts`,
--                 `step_instruction` and `step_cycles`
--   State         state.rs: snapshots
-- then those of crates/01-transport/transport/src, of transport-fabric/src beside it, of
-- crates/03-driver/service-abi/src and of crates/05-app-loop:
--   Transport/Region     region.rs, error.rs: allocation and the bounds of views
--   Transport/IndexRing  slot_pool.rs: `IndexRing`
--   Transport/SlotPool   slot_pool.rs: `SlotPool`; Lifecycle has its two users as steps
--   Transport/MsgRing    msg_ring.rs: the producer; Consumer the consumer; Layout and Window the
--                        bytes as records; Reserve, Stamp and Send, Peek and Receive the proofs
--   Transport/Mailbox    mailbox.rs
--   Transport/Port       port.rs, codec.rs, service.rs, error.rs of transport-fabric; History
--                        runs any calls of its two halves
--   Transport/Endpoint   endpoint.rs and `Codec` of transport-fabric
--   Transport/Endpoint/Builder  builder.rs of transport-fabric
--   App/Abi              service-abi/src/lib.rs: commands, reports, policies
--   App/World            world/src: intents, `reduce_intent`, `reduce_report`
--   App/Queues           app/src/priority.rs
--   App/Hub              hub/src/lib.rs
--   App/Scheduler        app/src/lib.rs
-- then crates/03-driver/services-common and, in crates/04-services, the services:
--   Services         services-common/src/lib.rs: `try_submit_queue`, `drain_queue`
--   Codecs           crates/03-driver/transport-codecs/src/lib.rs; Codecs/Schema is schema.rs of
--                    the transport
--   Fabric           crates/03-driver/services-fabric/src/lib.rs
--   Services/Stubs   audio/src/lib.rs, gpu/src/lib.rs, fs/src/lib.rs
--   Kernel/Logo      kernel/src/instance.rs: the boot logo in VRAM and on the map
--   Kernel/Boot      kernel/src/instance.rs: `BootSequence`
--   Kernel/Instance  kernel/src/instance.rs: `Instance`, over the scalar backend
--   Kernel/Sink      kernel/src/sink_transport.rs: the delivery of a frame
--   Kernel/Farm      kernel/src/lib.rs: `KernelFarm`, its ticks and debug commands
--   Kernel/Service   kernel/src/lib.rs: `KernelService`
--   Tests            concrete states
--
-- Correspondence. A struct is a record with the fields of the source; an array of fixed size is a
-- function of its index, and the ROM a list. A method that takes `&mut self` gives the new
-- state; a method of `Core` is a computation in the state monad `M`. Numbers are naturals, and a
-- byte or word wraps where the source wraps (`u8`, `u16`, `u32`, `sub_u8`). The one panic that
-- the core can reach in a step, `VECTORS[bit]` out of range, is the value `none`, and
-- `Outcome.panicked` for a run. The dispatch of 256 opcodes is `decode`, into `Instr`, and
-- `execute`.
--
-- What a service does is a `Run`: it finishes with a value, panics, or runs out of fuel; `Ends P Q`
-- says that it finishes with `P`, or panics because of `Q`, and never runs out. The memory of the
-- slots of a pool is part of the kernel's `FramePool`, by its offset.
--
-- Fuel. `Timers.step`, `PpuStub::step`, `advance_serial` and `step_cycles` have loops that use up
-- at least one cycle a round, and run on fuel for the number of cycles that they are given. The
-- results below say that this is enough: for the PPU, which has one round more, where it is stopped
-- or its state is valid, which leaves out a mode above 3 from a malformed snapshot. From such a state
-- the code loops for ever, and `Core` has a field `hung`, which is no field of the code, that is set
-- when the fuel of the PPU runs out. The result on `step_cycles` keeps it clear; the results on the
-- kernel service do not speak of it, and are about runs in which it stays clear.
--
-- The loop of `consumer_peek` runs on fuel 2, since a wrap sends it to offset 0 where a record
-- stands. The loop of `drain_reports` runs on the budget and two rounds more. The results on
-- `run` and on `drain_reports` say that this is enough. `KernelFarm::tick` has at most 32 extra
-- attempts, and each is a `step_cycles` with the fuel of its budget.
--
-- Concurrency. A port holds its lock during a call, and the two ends of a slot pool call it
-- through a handle for one thread, so each call is one step, and the steps of producer and
-- consumer come in any order.
--
-- Parameters. What the operating system answers to an allocation (`Platform`), the type f32 with
-- the two functions that the world uses (`Speeds`), the services behind their trait (`Service`),
-- a codec (`Codec`), the archive format of the crate rkyv (`Archive`), the text of a path and
-- whether it names a manual save, and the environment variable GBX_TIMER_SYNC_LOW.
--
-- Not modelled: the SIMD backend (bus_simd.rs, exec_simd.rs, `take_frame_lane`) and the kernel
-- service with more than one lane, `take_serial`, tracing that environment variables switch on,
-- the wasm layouts and waits of the transport, health.rs, the inspector and the applications.
pub mod Prelude
pub mod Exec
pub mod Io
pub mod Bus
pub mod Mmu
pub mod Timers
pub mod Ppu
pub mod Cpu
pub mod Core
pub mod Instr
pub mod Machine
pub mod State
pub mod Transport
pub mod App
pub mod Services
pub mod Codecs
pub mod Fabric
pub mod Kernel
pub mod Tests
