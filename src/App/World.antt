-- ===== src/App/World.antt =====
-- The world and its reducers: types.rs, world.rs, reduce_intent.rs and reduce_report.rs of
-- crates/05-app-loop/world/src. The type f32 is a parameter; the inspector's view model, which no
-- reducer reads, is left out.
use gbx.Prelude.{ℕ, ◌+◌, ◌^◌, ltb, ◌==◌, if◌then◌else◌, Bool, true, false, not, ◌||◌, List, [], ◌∷◌}
use gbx.App.Abi.{
  SubmitPolicy, coalesce, best_effort, lossless, display, exploration, MemSpace, DebugCmd,
  submit_policy,
}
use gbx.App.Abi.{
  KernelCmd, KernelRep, GpuCmd, upload_frame, GpuRep, AudioCmd, AudioRep, FsCmd, FsRep,
}

pub data IntentPriority : Type 0 where
  p0 : IntentPriority
  p1 : IntentPriority
  p2 : IntentPriority

-- f32: `clamp` to the speeds allowed, and the cycles of a frame at a speed, rounded.
pub record Speeds : Type 1 where
  pub F32 : Type 0
  pub one : F32
  pub clamp_speed : F32 → F32
  pub display_cycle_budget : F32 → ℕ

pub data WorkCmd : Type 0 where
  kernel : KernelCmd → WorkCmd
  fs : FsCmd → WorkCmd

unfoldable pub work_policy : WorkCmd → SubmitPolicy
unfolding submit_policy
work_policy (kernel (KernelCmd.tick group display budget)) = coalesce
work_policy (kernel (KernelCmd.tick group exploration budget)) = best_effort
work_policy (kernel (KernelCmd.load_rom group bytes)) = lossless
work_policy (kernel (KernelCmd.set_inputs group lanes_mask joypad)) = lossless
work_policy (kernel (KernelCmd.terminate group)) = lossless
work_policy (kernel (KernelCmd.debug cmd)) = submit_policy cmd
work_policy (fs cmd) = coalesce

pub data AvCmd : Type 0 where
  gpu : GpuCmd → AvCmd
  audio : AudioCmd → AvCmd

pub data Report : Type 0 where
  kernel : KernelRep → Report
  gpu : GpuRep → Report
  audio : AudioRep → Report
  fs : FsRep → Report

pub data ViewMode : Type 0 where
  single : ViewMode
  grid : ViewMode

abbrev pub is_grid : ViewMode → Bool
is_grid single = false
is_grid grid = true

module _ (speeds : Speeds) where
  open speeds use {F32, one, clamp_speed, display_cycle_budget}

  pub data Intent : Type 0 where
    pump_frame : Intent
    toggle_pause : Intent
    set_speed : F32 → Intent
    load_rom : (group : ℕ) → List ℕ → Intent
    select_display_lane : ℕ → Intent
    debug_snapshot : (group : ℕ) → Intent
    debug_mem : (group : ℕ) → MemSpace → (base len : ℕ) → Intent
    debug_step_instruction : (group count : ℕ) → Intent
    debug_step_frame : (group : ℕ) → Intent

  unfoldable pub priority : Intent → IntentPriority
  priority pump_frame = p1
  priority toggle_pause = p0
  priority (set_speed speed) = p0
  priority (load_rom group bytes) = p0
  priority (select_display_lane lane) = p1
  priority (debug_snapshot group) = p1
  priority (debug_mem group space base len) = p1
  priority (debug_step_instruction group count) = p0
  priority (debug_step_frame group) = p0

  pub record FollowUps : Type 0 where
    pub immediate_av : List AvCmd
    pub deferred_intents : List (IntentPriority × Intent)

  pub record WorldPerf : Type 0 where
    pub last_frame_id : ℕ
    pub audio_underruns : ℕ

  pub record World : Type 0 where
    pub paused : Bool
    pub speed : F32
    pub display_lane : ℕ
    pub view_mode : ViewMode
    pub auto_pump : Bool
    pub rom_loaded : Bool
    pub rom_events : ℕ
    pub perf : WorldPerf

  unfoldable pub default_world : World
  default_world = record {
    paused = false;
    speed = one;
    display_lane = 0;
    view_mode = single;
    auto_pump = true;
    rom_loaded = false;
    rom_events = 0;
    perf = record { last_frame_id = 0; audio_underruns = 0 };
  }

  unfoldable pub reduce_intent : World → Intent → List WorkCmd × World
  reduce_intent w pump_frame =
      (WorkCmd.kernel (KernelCmd.tick 0 display (display_cycle_budget w.speed)) ∷ [], w)
  reduce_intent w (load_rom group bytes) = (WorkCmd.kernel (KernelCmd.load_rom group bytes) ∷ [], w)
  reduce_intent w toggle_pause = ([], record w { paused = not w.paused })
  reduce_intent w (set_speed multiplier) = ([], record w { speed = clamp_speed multiplier })
  reduce_intent w (select_display_lane lane) = ([], record w { display_lane = lane })
  reduce_intent w (debug_snapshot group) =
      (WorkCmd.kernel (KernelCmd.debug (DebugCmd.snapshot group)) ∷ [], w)
  reduce_intent w (debug_mem group space base len) =
      (WorkCmd.kernel (KernelCmd.debug (DebugCmd.mem_window group space base len)) ∷ [], w)
  reduce_intent w (debug_step_instruction group count) =
      (WorkCmd.kernel (KernelCmd.debug (DebugCmd.step_instruction group count)) ∷ [], w)
  reduce_intent w (debug_step_frame group) =
      (WorkCmd.kernel (KernelCmd.debug (DebugCmd.step_frame group)) ∷ [], w)

  abbrev pub no_follow_ups : FollowUps
  no_follow_ups = record { immediate_av = []; deferred_intents = [] }

  -- `saturating_add(1)` on 64 bits
  unfoldable pub saturating_inc : ℕ → ℕ
  saturating_inc n = if ltb (n + 1) (2 ^ 64) then n + 1 else n

  unfoldable pub reduce_report : World → Report → FollowUps × World
  unfolding saturating_inc
  reduce_report w (Report.kernel (KernelRep.lane_frame group lane span frame_id)) = (
    record {
      immediate_av =
          if is_grid w.view_mode || lane == w.display_lane
          then AvCmd.gpu (upload_frame lane span) ∷ []
          else [];
      deferred_intents = [];
    },
    if lane == w.display_lane
        then record w {
          perf = record { last_frame_id = frame_id; audio_underruns = w.perf.audio_underruns };
        }
        else w,
  )
  reduce_report w (Report.kernel (KernelRep.tick_done group lanes_mask cycles_done)) = (
    record {
      immediate_av = [];
      deferred_intents = if w.auto_pump then (p1, pump_frame) ∷ [] else [];
    },
    w,
  )
  reduce_report w (Report.kernel (KernelRep.rom_loaded group bytes_len)) =
      (no_follow_ups, record w { rom_loaded = true; rom_events = saturating_inc w.rom_events })
  reduce_report w (Report.kernel other) = (no_follow_ups, w)
  reduce_report w (Report.audio AudioRep.underrun) = (
    no_follow_ups,
    record w {
      perf = record {
        last_frame_id = w.perf.last_frame_id;
        audio_underruns = saturating_inc w.perf.audio_underruns;
      };
    },
  )
  reduce_report w (Report.audio other) = (no_follow_ups, w)
  reduce_report w (Report.gpu rep) = (no_follow_ups, w)
  reduce_report w (Report.fs rep) = (no_follow_ups, w)
