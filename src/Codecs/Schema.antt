-- ===== src/Codecs/Schema.antt =====
-- The messages as they are archived, crates/01-transport/transport/src/schema.rs. A string or a
-- vector is the list of its elements.
use gbx.Prelude.{ℕ, Bool, Option, List}

abbrev pub schema_version_v1 : ℕ
schema_version_v1 = 1

abbrev pub tag_kernel_cmd : ℕ
tag_kernel_cmd = 0x01

abbrev pub tag_fs_cmd : ℕ
tag_fs_cmd = 0x02

abbrev pub tag_gpu_cmd : ℕ
tag_gpu_cmd = 0x03

abbrev pub tag_audio_cmd : ℕ
tag_audio_cmd = 0x04

abbrev pub tag_kernel_rep : ℕ
tag_kernel_rep = 0x11

abbrev pub tag_fs_rep : ℕ
tag_fs_rep = 0x12

abbrev pub tag_gpu_rep : ℕ
tag_gpu_rep = 0x13

abbrev pub tag_audio_rep : ℕ
tag_audio_rep = 0x14

pub data TickPurposeV1 : Type 0 where
  display exploration : TickPurposeV1

pub record KernelTickCmdV1 : Type 0 where
  pub purpose : TickPurposeV1
  pub budget : ℕ

pub record KernelLoadRomCmdV1 : Type 0 where
  pub bytes : List ℕ

pub record KernelSetInputsCmdV1 : Type 0 where
  pub group : ℕ
  pub lanes_mask : ℕ
  pub joypad : ℕ

pub record KernelTerminateCmdV1 : Type 0 where
  pub group : ℕ

pub data KernelDebugMemSpaceV1 : Type 0 where
  vram wram oam io : KernelDebugMemSpaceV1

pub record KernelDebugCpuVmV1 : Type 0 where
  pub a : ℕ
  pub f : ℕ
  pub b : ℕ
  pub c : ℕ
  pub d : ℕ
  pub e : ℕ
  pub h : ℕ
  pub l : ℕ
  pub sp : ℕ
  pub pc : ℕ
  pub ime : Bool
  pub halted : Bool

pub record KernelDebugPpuVmV1 : Type 0 where
  pub ly : ℕ
  pub mode : ℕ
  pub stat : ℕ
  pub lcdc : ℕ
  pub scx : ℕ
  pub scy : ℕ
  pub wy : ℕ
  pub wx : ℕ
  pub bgp : ℕ
  pub frame_ready : Bool

pub record KernelDebugTimersVmV1 : Type 0 where
  pub div : ℕ
  pub tima : ℕ
  pub tma : ℕ
  pub tac : ℕ

pub record KernelDebugSnapshotV1 : Type 0 where
  pub cpu : KernelDebugCpuVmV1
  pub ppu : KernelDebugPpuVmV1
  pub timers : KernelDebugTimersVmV1
  pub io : List ℕ

pub data KernelDebugStepKindV1 : Type 0 where
  instruction frame : KernelDebugStepKindV1

pub data KernelDebugCmdV1 : Type 0 where
  snapshot : (group : ℕ) → KernelDebugCmdV1
  mem_window : (group : ℕ) → KernelDebugMemSpaceV1 → (base len : ℕ) → KernelDebugCmdV1
  step_instruction : (group count : ℕ) → KernelDebugCmdV1
  step_frame : (group : ℕ) → KernelDebugCmdV1

pub data KernelDebugRepV1 : Type 0 where
  snapshot : KernelDebugSnapshotV1 → KernelDebugRepV1
  mem_window : KernelDebugMemSpaceV1 → (base : ℕ) → List ℕ → KernelDebugRepV1
  stepped : KernelDebugStepKindV1 → (cycles pc : ℕ) → Option (List ℕ) → KernelDebugRepV1

pub data KernelCmdV1 : Type 0 where
  tick : KernelTickCmdV1 → KernelCmdV1
  load_rom : KernelLoadRomCmdV1 → KernelCmdV1
  set_inputs : KernelSetInputsCmdV1 → KernelCmdV1
  terminate : KernelTerminateCmdV1 → KernelCmdV1
  debug : KernelDebugCmdV1 → KernelCmdV1

pub record FsPersistCmdV1 : Type 0 where
  pub key : List ℕ
  pub payload : List ℕ

pub data FsCmdV1 : Type 0 where
  persist : FsPersistCmdV1 → FsCmdV1

pub data GpuCmdV1 : Type 0 where
  upload_frame : (lane frame_id : ℕ) → GpuCmdV1

pub data AudioCmdV1 : Type 0 where
  submit_samples : (frames : ℕ) → AudioCmdV1

pub record SlotSpanV1 : Type 0 where
  pub start_idx : ℕ
  pub count : ℕ

pub data KernelRepV1 : Type 0 where
  tick_done : TickPurposeV1 → (budget : ℕ) → KernelRepV1
  lane_frame : (lane frame_id : ℕ) → SlotSpanV1 → (pixels : List ℕ) → KernelRepV1
  rom_loaded : (bytes_len : ℕ) → KernelRepV1
  audio_ready : (group : ℕ) → SlotSpanV1 → KernelRepV1
  debug : KernelDebugRepV1 → KernelRepV1

pub data FsRepV1 : Type 0 where
  saved : (key : List ℕ) → (ok : Bool) → FsRepV1

pub data GpuRepV1 : Type 0 where
  frame_presented : (lane frame_id : ℕ) → GpuRepV1

pub data AudioRepV1 : Type 0 where
  played : (frames : ℕ) → AudioRepV1
  underrun : AudioRepV1
