-- ===== src/Tests/Kernel.antt =====
-- The kernel service, its frames and its queue at concrete states.
use gbx.Prelude.{
  ℕ, zero, suc, ◌+◌, ◌*◌, ◌%◌, ◌≤◌, ◌≡◌, refl, arith, ◌==◌, ltb, if◌then◌else◌, true, false, none,
  some, List, [], ◌∷◌, ◌++◌, length, get_elem?,
}
use gbx.Prelude.Runs.{Run, finished, panicked, out_of_fuel, Ends}
use gbx.App.Abi.{MemSpace, KernelCmd, KernelRep, coalesce, TickPurpose}
use gbx.Bus
use gbx.Core
use gbx.Cpu
use gbx.Core.{Core, CoreConfig, Model, from_rom}
use gbx.Core.Frame.{frame_ready}
use gbx.Io
use gbx.Io.{IoRegs, lcdc_index}
use gbx.Mmu.{read8_scalar}
use gbx.Ppu
use gbx.Timers
use gbx.Bus.Serial
use gbx.Machine.Step
use gbx.Machine.Step.{step_cycles, service_interrupts, pending_interrupts, resume, run_one}
use gbx.Ppu.{Ppu, cycles_per_frame}
use gbx.Ppu.Render.{render_frame, scy_index}
use gbx.Ppu.Render.Pixels.{plane_shade, render_frame_lem}
use gbx.Services.{try_submit_queue, drain_queue}
use gbx.Services.Admission.{Effect, try_submit_queue_lem, drain_queue_lem}
use gbx.Transport.Region.{
  TransportResult, new_aligned, allocate_backing, mmap_backing, is_power_below,
}
use gbx.Transport.IndexRing
use gbx.Transport.IndexRing.{fill_sequential, fill_loop}
use gbx.Transport.SlotPool
use gbx.Transport.SlotPool.{SlotPool, SlotPoolConfig}
use gbx.Transport.SlotPool.Config.{new-IsFresh}
use gbx.Transport.SlotPool.Lifecycle.Moves.{Owned}
use gbx.Transport.SlotPool.Lifecycle.Ownership.{fresh-Sound}
use gbx.Transport.Port.{SubmitOutcome}
use gbx.Kernel.Boot
use gbx.Kernel.Boot.{BootSequence, advance, is_done}
use gbx.Kernel.Boot.Phases.{frames, frames-new}
use gbx.Kernel.Sink
use gbx.Kernel.Sink.{FramePool, FrameSink}
use gbx.Kernel.Instance.{Instance, new_scalar, mem_window, step, step_core, is_ready, boot_active}
use gbx.Kernel.Instance.Windows.{mem_window_lem}
use gbx.Kernel.Farm
use gbx.Kernel.Farm.{KernelFarm, ensure_instance, tick}
use gbx.Kernel.Farm.Frames.{Frames}
use gbx.Kernel.Farm.Tick.{Stops}
use gbx.Kernel.Farm.Reports.{tick_lem}
use gbx.Kernel.Farm.Booting.{tick_boot}
use gbx.Kernel.Farm.Twice.{tick_twice}
use gbx.Kernel.Service.{KernelService, build, try_submit}
use gbx.Kernel.Service.Room.{SoundPool, try_submit-Ends}
use gbx.Tests.Transport.{platform, platform_aligns}

-- Two slots of 25 pages, enough for a frame of 160 by 144 pixels.
abbrev config : SlotPoolConfig
config = record { slot_count = 2; slot_size = 102400 }

abbrev slots : SlotPool
slots = record {
  slots = record { len = 204800; alignment = 4096; base = 8192 };
  free_ring = fill_sequential (record {
    region = record { len = 40; alignment = 8; base = 8192 };
    capacity = 2;
    head = 0;
    tail = 0;
    entries = λ _. 0;
  });
  ready_ring = record {
    region = record { len = 40; alignment = 8; base = 8192 };
    capacity = 2;
    head = 0;
    tail = 0;
    entries = λ _. 0;
  };
  slot_size = 102400;
  slot_count = 2;
}

created : SlotPool.new (λ _. platform) config ≡ TransportResult.ok slots
unfolding SlotPool.new IndexRing.new new_aligned allocate_backing mmap_backing is_power_below
created = refl

abbrev pool : FramePool
pool = record { slots = slots; memory = λ _. 0 }

slots-Owned : Owned 2 slots [] []
slots-Owned =
    fresh-Sound config slots
      (new-IsFresh (λ _. platform) config slots platform_aligns (omega arith) created)

-- A command with two reports, and a service that counts them.
abbrev two_reports : ℕ → Run (List ℕ × ℕ)
two_reports s = finished (7 ∷ 8 ∷ [], s + 2)

-- A full queue of three gives way to the two reports.
try_submit_queue_lem_example :
    (outcome : SubmitOutcome) × (queue : List ℕ) × (t : ℕ) × (try_submit_queue two_reports 3
        coalesce 2
        (1 ∷ 2 ∷ 3 ∷ [])
        0
      ≡ finished (outcome, queue, t))
    × Effect 3 2 (1 ∷ 2 ∷ 3 ∷ []) (7 ∷ 8 ∷ []) 0 2 coalesce outcome queue t
try_submit_queue_lem_example =
    try_submit_queue_lem two_reports 3 2 0 2 (7 ∷ 8 ∷ []) refl coalesce (1 ∷ 2 ∷ 3 ∷ [])

abbrev three : List ℕ
three = 1 ∷ 2 ∷ 3 ∷ []

drain_queue_lem_example :
    ((drain_queue 2 three).0 ++ (drain_queue 2 three).1 ≡ three)
    × (length (drain_queue 2 three).0 ≡ 2)
drain_queue_lem_example = drain_queue_lem 2 three

-- LCD and background on, the window off.
abbrev lit : IoRegs
lit = record { regs = λ i. if i == lcdc_index then 0x91 else if i == 0x47 then 0xE4 else 0 }

render_frame_lem_example :
    render_frame lit (λ i. i % 256) (λ _. 0) 4 2 32 (λ _. 9) ((1 * 4 + 2) * 4 + 1)
    ≡ plane_shade lit (λ i. i % 256) 1 2
unfolding Io.read
render_frame_lem_example =
    render_frame_lem lit (λ i. i % 256) (λ _. 0) 4 2 32 (omega arith) 1 2 1 (omega arith)
      (omega arith) (omega arith) (λ _. 9) (λ a. omega arith) (omega arith) refl refl

-- A cartridge that is not blank, and the boot sequence for it.
abbrev cartridge : List ℕ
cartridge = 0x3E ∷ 0x12 ∷ []

frames-new_example :
    (is_done (frames 365 (Boot.new (Bus.new cartridge none) cartridge)).0.phase ≡ true)
    × ((frames 365 (Boot.new (Bus.new cartridge none) cartridge)).1.io.regs scy_index
        ≡ (frames 365 (Boot.new (Bus.new cartridge none) cartridge)).0.scy)
frames-new_example = frames-new (Bus.new cartridge none) cartridge 365

-- A callback that fills its buffer, or panics if the buffer is smaller than 8 bytes.
abbrev fill : ℕ → (ℕ → ℕ) → ℕ → Run ((ℕ → ℕ) × ℕ)
fill len buf s = if ltb len 8 then panicked else finished (λ _. 0xFF, s + 1)

-- An instance just before the last dots of the last line, with the CPU halted and the LCD on.
abbrev late_ppu : Ppu
late_ppu = record Ppu.new { dot_in_line = 448; ly = 153; mode = 1; lcd_was_on = true }

abbrev late_core : Core
late_core = record (from_rom (0x00 ∷ 0x00 ∷ 0x00 ∷ [])) {
  cpu = record Cpu.new { halted = true };
  ppu = late_ppu;
  bus = record (Bus.new [] none) {
    io = record { regs = λ i. if i == lcdc_index then 0x80 else 0 };
  };
}

abbrev inst : Instance
inst = new_scalar late_core (Sink.new 160 144)

mem_window_lem_example :
    get_elem? (mem_window MemSpace.wram 0xDFFE 16 inst) 1 ≡ some (read8_scalar inst.core.bus 0xDFFF)
mem_window_lem_example = mem_window_lem MemSpace.wram 0xDFFE 16 1 inst

abbrev farm : KernelFarm
farm = record (Farm.new pool Core.default_config) {
  instances = λ j. if j == 3 then some inst else none;
}

tick_lem_example :
    Ends
      (λ r.
        (frames : List KernelRep) × (last : ℕ) × (r.1 ≡ frames ++ KernelRep.tick_done 3 1 r.0 ∷ [])
        × Frames 3 (ensure_instance 0 3 farm).next_frame_id frames last
        × (1 ≤ length frames)
        × (length frames ≤ 2)
        × Owned 2 r.2.frame_pool.slots [] []
        × (r.2.frame_pool.slots.slot_size ≡ 102400))
      (Stops 3 2 refl [] [] 102400 (ensure_instance 0 3 farm) 70224)
      (tick 0 3 70224 [] farm)
unfolding Farm.new
tick_lem_example = tick_lem 3 2 refl [] [] 102400 0 70224 [] farm slots-Owned refl

abbrev boot : BootSequence
boot = (Boot.new (Bus.new cartridge none) cartridge).0

abbrev booting : Instance
booting = record inst { boot = some boot }

abbrev booting_farm : KernelFarm
booting_farm = record farm { instances = λ _. some booting }

tick_boot_example :
    (frame : KernelRep) × (after : KernelFarm) × (next : Instance) × (tick 0 3 70224 [] booting_farm
      ≡ finished (70224, frame ∷ KernelRep.tick_done 3 1 70224 ∷ [], after))
    × Frames 3 booting.next_frame_id (frame ∷ []) next.next_frame_id
    × (after.instances 3 ≡ some next)
    × (next.boot ≡ (
        if is_done (advance boot booting.core.bus).0.phase
        then none
        else some (advance boot booting.core.bus).0))
    × Owned 2 after.frame_pool.slots [] []
unfolding Sink.new new_scalar Farm.new
tick_boot_example =
    tick_boot 3 2 refl [] [] 102400 0 70224 [] booting_farm booting boot refl refl refl refl
      slots-Owned refl (omega arith)

-- The instance when the tick has used up a budget of 4 cycles, and when its frame is then ready.
abbrev instance_of : Run (ℕ × Instance) → Instance
instance_of (finished r) = r.1
instance_of panicked = inst
instance_of out_of_fuel = inst

abbrev first : Instance
first = instance_of (step 4 inst)

abbrev ready : Instance
ready = instance_of (step cycles_per_frame first)

late_steps :
    (step 4 (ensure_instance 0 3 farm) ≡ finished (4, first))
    × (is_ready first ≡ false)
    × (boot_active first ≡ false)
    × (step cycles_per_frame first ≡ finished (4, ready))
    × (is_ready ready ≡ true)
unfolding step is_ready boot_active frame_ready ensure_instance new_scalar step_core step_cycles
    Step.step_loop Step.advance service_interrupts pending_interrupts resume run_one from_rom
    Core.new Bus.new Io.new Io.if_reg Io.set_if Io.read Io.write Cpu.new Core.consume_cycles
    Core.step_peripherals Timers.new Timers.step Timers.step_loop Timers.step_round
    Timers.process_register_writes Timers.take_div_reset Timers.take_tima_write
    Timers.take_tma_write Timers.take_tac_write Timers.advance_tima_state Timers.advance_state
    Timers.apply_div_increment Timers.increment_div Timers.is_triggered Timers.compute_timer_input
    Timers.tac_bit Timers.tac_trigger_bit Ppu.new Ppu.step_counted Ppu.step_loop Ppu.advance_round
    Ppu.spend Ppu.is_lcd_on Ppu.handle_event Ppu.advance_line Ppu.next_line
    Ppu.cycles_until_next_event Ppu.set_mode Ppu.mode_enabled Ppu.stat_with Ppu.refresh_coincidence
    Ppu.raise_vblank_interrupt Ppu.raise_stat_interrupt Ppu.start_lcd Serial.advance_serial
    Serial.advance_loop Serial.tick Io.set_div
late_steps = (refl, refl, refl, refl, refl)

tick_twice_example :
    Ends
      (λ r.
        (frames : List KernelRep) × (last : ℕ) × (r.1 ≡ frames ++ KernelRep.tick_done 3 1 r.0 ∷ [])
        × Frames 3 first.next_frame_id frames last
        × (length frames ≡ 2))
      (Stops 3 2 refl [] [] 102400 (ensure_instance 0 3 farm) 4)
      (tick 0 3 4 [] farm)
unfolding Farm.new
tick_twice_example =
    tick_twice 3 2 refl [] [] 102400 0 4 4 4 [] farm first ready late_steps.0 late_steps.1
      late_steps.2 late_steps.3 (omega arith) late_steps.4 slots-Owned refl

abbrev lagging : ℕ → List KernelRep
lagging zero = []
lagging (suc n) = KernelRep.rom_loaded 3 0 ∷ lagging n

-- A tick is admitted to a queue of 62 reports out of 64, and may leave 65 there.
abbrev service : KernelService
service = record (build 64 pool Core.default_config) { reports = lagging 62; farm = farm }

try_submit-Ends_example :
    Ends
      (λ r.
        (length r.1.reports ≤ service.capacity + 1)
        × (r.1.capacity ≡ service.capacity)
        × SoundPool 2 refl [] [] 102400 0 r.1.farm)
      (Unit {0})
      (try_submit 0 (KernelCmd.tick 3 TickPurpose.display 70224) service)
unfolding build Farm.new
try_submit-Ends_example =
    try_submit-Ends 2 refl [] [] 102400 0 (KernelCmd.tick 3 TickPurpose.display 70224) service 1
      (omega arith) (omega arith) (slots-Owned, refl)
