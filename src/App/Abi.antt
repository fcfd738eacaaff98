-- ===== src/App/Abi.antt =====
-- The protocol between the scheduler and the services, crates/03-driver/service-abi/src/lib.rs. A
-- slice or a path is the list of its elements.
use gbx.Prelude.{ℕ, Bool, Option, List}

pub data SubmitPolicy : Type 0 where
  must : SubmitPolicy
  coalesce : SubmitPolicy
  best_effort : SubmitPolicy
  lossless : SubmitPolicy

pub record SlotSpan : Type 0 where
  pub start_idx : ℕ
  pub count : ℕ

pub record FrameSpan : Type 0 where
  pub width : ℕ
  pub height : ℕ
  pub pixels : List ℕ
  pub slot_span : Option SlotSpan

pub record AudioSpan : Type 0 where
  pub samples : List ℕ
  pub channels : ℕ
  pub sample_rate_hz : ℕ
  pub slot_span : Option SlotSpan

pub data TickPurpose : Type 0 where
  display : TickPurpose
  exploration : TickPurpose

pub data MemSpace : Type 0 where
  vram : MemSpace
  wram : MemSpace
  oam : MemSpace
  io : MemSpace

pub record CpuVm : Type 0 where
  pub a : ℕ
  pub f : ℕ
  pub b : ℕ
  pub c : ℕ
  pub d : ℕ
  pub e : ℕ
  pub h : ℕ
  pub l : ℕ
  pub sp : ℕ
  pub pc : ℕ
  pub ime : Bool
  pub halted : Bool

pub record PpuVm : Type 0 where
  pub ly : ℕ
  pub mode : ℕ
  pub stat : ℕ
  pub lcdc : ℕ
  pub scx : ℕ
  pub scy : ℕ
  pub wy : ℕ
  pub wx : ℕ
  pub bgp : ℕ
  pub frame_ready : Bool

pub record TimersVm : Type 0 where
  pub div : ℕ
  pub tima : ℕ
  pub tma : ℕ
  pub tac : ℕ

pub record InspectorVmMinimal : Type 0 where
  pub cpu : CpuVm
  pub ppu : PpuVm
  pub timers : TimersVm
  pub io : List ℕ

pub data StepKind : Type 0 where
  instruction : StepKind
  frame : StepKind

pub data DebugCmd : Type 0 where
  snapshot : (group : ℕ) → DebugCmd
  mem_window : (group : ℕ) → MemSpace → (base len : ℕ) → DebugCmd
  step_instruction : (group count : ℕ) → DebugCmd
  step_frame : (group : ℕ) → DebugCmd

unfoldable pub submit_policy : DebugCmd → SubmitPolicy
submit_policy (step_instruction group count) = lossless
submit_policy (step_frame group) = lossless
submit_policy (snapshot group) = coalesce
submit_policy (mem_window group space base len) = lossless

pub data KernelCmd : Type 0 where
  tick : (group : ℕ) → TickPurpose → (budget : ℕ) → KernelCmd
  load_rom : (group : ℕ) → List ℕ → KernelCmd
  set_inputs : (group lanes_mask joypad : ℕ) → KernelCmd
  terminate : (group : ℕ) → KernelCmd
  debug : DebugCmd → KernelCmd

pub data DebugRep : Type 0 where
  snapshot : InspectorVmMinimal → DebugRep
  mem_window : MemSpace → (base : ℕ) → List ℕ → DebugRep
  stepped : StepKind → (cycles pc : ℕ) → Option (List ℕ) → DebugRep

pub data KernelRep : Type 0 where
  tick_done : (group lanes_mask cycles_done : ℕ) → KernelRep
  lane_frame : (group lane : ℕ) → FrameSpan → (frame_id : ℕ) → KernelRep
  rom_loaded : (group bytes_len : ℕ) → KernelRep
  audio_ready : (group : ℕ) → AudioSpan → KernelRep
  dropped_thumb : (group count : ℕ) → KernelRep
  debug : DebugRep → KernelRep

pub data GpuCmd : Type 0 where
  upload_frame : (lane : ℕ) → FrameSpan → GpuCmd

pub data GpuRep : Type 0 where
  frame_shown : (lane frame_id : ℕ) → GpuRep

pub data AudioCmd : Type 0 where
  submit : AudioSpan → AudioCmd

pub data AudioRep : Type 0 where
  played : (frames : ℕ) → AudioRep
  underrun : AudioRep

pub data FsCmd : Type 0 where
  persist : (path bytes : List ℕ) → FsCmd

pub data FsRep : Type 0 where
  saved : (path : List ℕ) → (ok : Bool) → FsRep
