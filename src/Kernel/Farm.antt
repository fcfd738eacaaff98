-- ===== src/Kernel/Farm.antt =====
-- `KernelFarm`, crates/04-services/kernel/src/lib.rs, for a configuration of one lane, the default:
-- the instances by their group, and the frame pool that they share. A map is a function of its key.
pub mod Frames
pub mod Tick
pub mod Reports
pub mod Booting
pub mod Twice
use gbx.Prelude.{
  ℕ, zero, suc, ◌+◌, ◌*◌, ◌^◌, u32, Bool, true, false, not, ◌&&◌, ◌==◌, if◌then◌else◌, Option, none,
  some, List, [], ◌∷◌, ◌++◌, length, unwrap_or,
}
use gbx.Prelude.Runs.{Run, finished, ◌>>=◌}
use mathlib.Core.Option
use gbx.App.Abi.{
  FrameSpan, KernelRep, DebugCmd, snapshot, mem_window, step_instruction, step_frame, DebugRep,
  StepKind,
}
use gbx.Bus
use gbx.Core
use gbx.Core.{Core, CoreConfig, Model}
use gbx.Ppu.{cycles_per_frame}
use gbx.Kernel.Sink
use gbx.Kernel.Sink.{FramePool, FrameSink, Delivered, produce_frame}
use gbx.Kernel.Instance
use gbx.Kernel.Instance.{
  Instance, new_scalar, step, step_instructions, is_ready, boot_active, bump_frame_id,
  inspector_snapshot, render_into,
}

pub record KernelFarm : Type 0 where
  pub instances : ℕ → Option Instance
  pub frame_pool : FramePool
  pub core_config : CoreConfig
  pub default_rom : List ℕ
  pub boot_rom : Option (List ℕ)

-- `vec![0u8; n]`
abbrev pub zeros : ℕ → List ℕ
zeros zero = []
zeros (suc n) = 0 ∷ zeros n

-- `KernelFarm::new`
unfoldable pub new : FramePool → CoreConfig → KernelFarm
new frame_pool core_config = record {
  instances = λ _. none;
  frame_pool = frame_pool;
  core_config = core_config;
  default_rom = zeros 0x8000;
  boot_rom = none;
}

abbrev pub put : KernelFarm → ℕ → Option Instance → KernelFarm
put farm id inst = record farm { instances = λ j. if j == id then inst else farm.instances j }

-- What `ensure_instance` makes for a new group; `sync_low` is the byte of GBX_TIMER_SYNC_LOW.
unfoldable pub make_instance : ℕ → KernelFarm → Instance
make_instance sync_low farm =
    let core = Core.new (Bus.new farm.default_rom farm.boot_rom) farm.core_config Model.dmg in
    let core : Core = elim farm.boot_rom [
      | some boot ↦ Core.reset_power_on core Model.dmg
      | none ↦ Core.reset_post_boot sync_low core Model.dmg
    ] in
    new_scalar core (Sink.new farm.core_config.frame_width farm.core_config.frame_height)

unfoldable pub ensure_instance : ℕ → ℕ → KernelFarm → Instance
unfolding make_instance
ensure_instance sync_low id farm = unwrap_or (make_instance sync_low farm) (farm.instances id)

-- What a tick changes: the instance, the frame pool and the reports.
pub record Ticking : Type 0 where
  pub inst : Instance
  pub pool : FramePool
  pub out : List KernelRep

-- The report of a frame, with the frame's number counted.
unfoldable pub report_frame :
    ℕ → ℕ → ℕ → List KernelRep → Delivered × FramePool × Instance → Ticking
report_frame id width height out (frame, pool, inst) =
    let (frame_id, counted) = bump_frame_id inst in
    record {
      inst = counted;
      pool = pool;
      out =
          out
          ++ KernelRep.lane_frame id 0
              (record { width = width; height = height; pixels = frame.0; slot_span = frame.1 })
              frame_id
            ∷ [];
    }

-- The dimensions of a frame, never 0.
abbrev pub frame_width : FrameSink → ℕ
frame_width sink = if sink.width == 0 then 160 else sink.width

abbrev pub frame_height : FrameSink → ℕ
frame_height sink = if sink.height == 0 then 144 else sink.height

-- `publish_lane_frames`; with one lane it always publishes.
unfoldable pub publish : ℕ → Ticking → Run Ticking
unfolding report_frame
publish id t =
    let width = frame_width t.inst.sink in
    let height = frame_height t.inst.sink in
    produce_frame render_into (width * height * 4) t.pool t.inst >>= λ r.
    finished (report_frame id width height t.out r)

-- The first two attempts, and whether one published.
unfoldable pub publish_ready : ℕ → Ticking → Run (Bool × Ticking)
publish_ready id t =
    if is_ready t.inst
    then (publish id t >>= λ t. finished (true, t))
    else if boot_active t.inst
    then (publish id t >>= λ t. finished (true, t))
    else finished (false, t)

-- The loop of up to 32 extra attempts: the cycles in all. A frame that is published here breaks,
-- and does not set `published`.
unfoldable pub extra_attempts : ℕ → ℕ → ℕ → Ticking → Run (ℕ × Ticking)
extra_attempts zero id cycles t = finished (cycles, t)
extra_attempts (suc left) id cycles t = elim (boot_active t.inst) [
  | true ↦ finished (cycles, t)
  | false ↦ do
    r ← step cycles_per_frame t.inst
    let stepped = record t { inst = r.1 }
    elim (r.0 == 0) [
      | true ↦ finished (cycles, stepped)
      | false ↦ elim (is_ready r.1) [
        | true ↦ publish id stepped >>= λ t. finished (u32 (cycles + r.0), t)
        | false ↦ extra_attempts left id (u32 (cycles + r.0)) stepped
      ]
    ]
]

-- What follows when nothing was published: the extra attempts, then the forced frame.
unfoldable pub publish_late : ℕ → ℕ → Ticking → Run (ℕ × Ticking)
unfolding extra_attempts
publish_late id cycles t = do
  r ← if boot_active t.inst then finished (cycles, t) else extra_attempts 32 id cycles t
  forced ← publish id r.1
  finished (r.0, forced)

unfoldable pub finish_tick : ℕ → ℕ × Ticking → ℕ × Ticking
finish_tick id (cycles, t) =
    (cycles, record t { out = t.out ++ KernelRep.tick_done id 1 cycles ∷ [] })

-- `tick` on the instance that `ensure_instance` gives: the cycles done, and the changes.
unfoldable pub tick_instance : ℕ → ℕ → Ticking → Run (ℕ × Ticking)
unfolding publish_ready publish_late finish_tick
tick_instance id budget t = do
  r ← step budget t.inst
  p ← publish_ready id (record t { inst = r.1 })
  done ← if p.0 then finished (r.0, p.1) else publish_late id r.0 p.1
  finished (finish_tick id done)

-- `tick`: the cycles, the reports, and the farm.
unfoldable pub tick :
    ℕ → ℕ → ℕ → List KernelRep → KernelFarm → Run (ℕ × List KernelRep × KernelFarm)
tick sync_low id budget out farm = do
  r ←
      tick_instance id budget
        (record { inst = ensure_instance sync_low id farm; pool = farm.frame_pool; out = out })
  finished (r.0, r.1.out, put (record farm { frame_pool = r.1.pool }) id (some r.1.inst))

-- `load_rom`, with the length that it returns.
unfoldable pub load_rom : ℕ → ℕ → List ℕ → KernelFarm → ℕ × KernelFarm
load_rom sync_low id rom farm = (
  length rom,
  put farm id (some (Instance.load_rom sync_low rom (ensure_instance sync_low id farm))),
)

-- `set_inputs`: a group that is not there is left out.
unfoldable pub set_inputs : ℕ → ℕ → KernelFarm → KernelFarm
set_inputs id joypad farm = elim (farm.instances id) [
  | none ↦ farm
  | some inst ↦ put farm id (some (Instance.set_inputs joypad inst))
]

-- `terminate`
unfoldable pub terminate : ℕ → KernelFarm → KernelFarm
terminate id farm = put farm id none

abbrev pub debug_report : DebugRep → List KernelRep
debug_report rep = KernelRep.debug rep ∷ []

-- `handle_debug` with no reports before, as its caller has it. `pc` is that of the instance, or 0.
unfoldable pub handle_debug : ℕ → DebugCmd → KernelFarm → Run (List KernelRep × KernelFarm)
handle_debug sync_low (snapshot group) farm =
    let inst = ensure_instance sync_low group farm in
    finished
      (debug_report (DebugRep.snapshot (inspector_snapshot inst)), put farm group (some inst))
handle_debug sync_low (mem_window group space base len) farm =
    let inst = ensure_instance sync_low group farm in
    finished (
      debug_report (DebugRep.mem_window space base (Instance.mem_window space base len inst)),
      put farm group (some inst),
    )
handle_debug sync_low (step_instruction group count) farm = do
  r ← step_instructions count (ensure_instance sync_low group farm)
  finished
      (debug_report (DebugRep.stepped StepKind.instruction r.0 r.1 none), put farm group (some r.2))
handle_debug sync_low (step_frame group) farm = do
  r ← tick sync_low group cycles_per_frame [] farm
  let pc : Option ℕ = Option.map (λ (inst : Instance). inst.core.cpu.pc) (r.2.instances group)
  finished (r.1 ++ debug_report (DebugRep.stepped StepKind.frame r.0 (unwrap_or 0 pc) none), r.2)
