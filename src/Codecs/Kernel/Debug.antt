-- ===== src/Codecs/Kernel/Debug.antt =====
-- The messages of the debugger in `KernelCodec` (transport-codecs).
use gbx.Prelude.{◌≡◌, refl, ap}
use gbx.App.Abi.{MemSpace, CpuVm, PpuVm, TimersVm, InspectorVmMinimal, StepKind, DebugCmd, DebugRep}
use gbx.Codecs.Schema.{
  KernelDebugMemSpaceV1, KernelDebugCpuVmV1, KernelDebugPpuVmV1, KernelDebugTimersVmV1,
  KernelDebugSnapshotV1, KernelDebugStepKindV1, KernelDebugCmdV1, KernelDebugRepV1,
}

unfoldable pub encode_mem_space : MemSpace → KernelDebugMemSpaceV1
encode_mem_space MemSpace.vram = KernelDebugMemSpaceV1.vram
encode_mem_space MemSpace.wram = KernelDebugMemSpaceV1.wram
encode_mem_space MemSpace.oam = KernelDebugMemSpaceV1.oam
encode_mem_space MemSpace.io = KernelDebugMemSpaceV1.io

unfoldable pub decode_mem_space : KernelDebugMemSpaceV1 → MemSpace
decode_mem_space KernelDebugMemSpaceV1.vram = MemSpace.vram
decode_mem_space KernelDebugMemSpaceV1.wram = MemSpace.wram
decode_mem_space KernelDebugMemSpaceV1.oam = MemSpace.oam
decode_mem_space KernelDebugMemSpaceV1.io = MemSpace.io

unfoldable pub encode_step_kind : StepKind → KernelDebugStepKindV1
encode_step_kind StepKind.instruction = KernelDebugStepKindV1.instruction
encode_step_kind StepKind.frame = KernelDebugStepKindV1.frame

unfoldable pub decode_step_kind : KernelDebugStepKindV1 → StepKind
decode_step_kind KernelDebugStepKindV1.instruction = StepKind.instruction
decode_step_kind KernelDebugStepKindV1.frame = StepKind.frame

unfoldable pub encode_debug_cmd : DebugCmd → KernelDebugCmdV1
encode_debug_cmd (DebugCmd.snapshot group) = KernelDebugCmdV1.snapshot group
encode_debug_cmd (DebugCmd.mem_window group space base len) =
    KernelDebugCmdV1.mem_window group (encode_mem_space space) base len
encode_debug_cmd (DebugCmd.step_instruction group count) =
    KernelDebugCmdV1.step_instruction group count
encode_debug_cmd (DebugCmd.step_frame group) = KernelDebugCmdV1.step_frame group

unfoldable pub decode_debug_cmd : KernelDebugCmdV1 → DebugCmd
decode_debug_cmd (KernelDebugCmdV1.snapshot group) = DebugCmd.snapshot group
decode_debug_cmd (KernelDebugCmdV1.mem_window group space base len) =
    DebugCmd.mem_window group (decode_mem_space space) base len
decode_debug_cmd (KernelDebugCmdV1.step_instruction group count) =
    DebugCmd.step_instruction group count
decode_debug_cmd (KernelDebugCmdV1.step_frame group) = DebugCmd.step_frame group

unfoldable pub encode_cpu : CpuVm → KernelDebugCpuVmV1
encode_cpu cpu = record {
  a = cpu.a;
  f = cpu.f;
  b = cpu.b;
  c = cpu.c;
  d = cpu.d;
  e = cpu.e;
  h = cpu.h;
  l = cpu.l;
  sp = cpu.sp;
  pc = cpu.pc;
  ime = cpu.ime;
  halted = cpu.halted;
}

unfoldable pub decode_cpu : KernelDebugCpuVmV1 → CpuVm
decode_cpu cpu = record {
  a = cpu.a;
  f = cpu.f;
  b = cpu.b;
  c = cpu.c;
  d = cpu.d;
  e = cpu.e;
  h = cpu.h;
  l = cpu.l;
  sp = cpu.sp;
  pc = cpu.pc;
  ime = cpu.ime;
  halted = cpu.halted;
}

unfoldable pub encode_ppu : PpuVm → KernelDebugPpuVmV1
encode_ppu ppu = record {
  ly = ppu.ly;
  mode = ppu.mode;
  stat = ppu.stat;
  lcdc = ppu.lcdc;
  scx = ppu.scx;
  scy = ppu.scy;
  wy = ppu.wy;
  wx = ppu.wx;
  bgp = ppu.bgp;
  frame_ready = ppu.frame_ready;
}

unfoldable pub decode_ppu : KernelDebugPpuVmV1 → PpuVm
decode_ppu ppu = record {
  ly = ppu.ly;
  mode = ppu.mode;
  stat = ppu.stat;
  lcdc = ppu.lcdc;
  scx = ppu.scx;
  scy = ppu.scy;
  wy = ppu.wy;
  wx = ppu.wx;
  bgp = ppu.bgp;
  frame_ready = ppu.frame_ready;
}

unfoldable pub encode_timers : TimersVm → KernelDebugTimersVmV1
encode_timers timers = record {
  div = timers.div;
  tima = timers.tima;
  tma = timers.tma;
  tac = timers.tac;
}

unfoldable pub decode_timers : KernelDebugTimersVmV1 → TimersVm
decode_timers timers = record {
  div = timers.div;
  tima = timers.tima;
  tma = timers.tma;
  tac = timers.tac;
}

unfoldable pub encode_snapshot : InspectorVmMinimal → KernelDebugSnapshotV1
unfolding encode_cpu encode_ppu encode_timers
encode_snapshot vm = record {
  cpu = encode_cpu vm.cpu;
  ppu = encode_ppu vm.ppu;
  timers = encode_timers vm.timers;
  io = vm.io;
}

unfoldable pub decode_snapshot : KernelDebugSnapshotV1 → InspectorVmMinimal
unfolding decode_cpu decode_ppu decode_timers
decode_snapshot vm = record {
  cpu = decode_cpu vm.cpu;
  ppu = decode_ppu vm.ppu;
  timers = decode_timers vm.timers;
  io = vm.io;
}

unfoldable pub encode_debug_rep : DebugRep → KernelDebugRepV1
encode_debug_rep (DebugRep.snapshot vm) = KernelDebugRepV1.snapshot (encode_snapshot vm)
encode_debug_rep (DebugRep.mem_window space base bytes) =
    KernelDebugRepV1.mem_window (encode_mem_space space) base bytes
encode_debug_rep (DebugRep.stepped kind cycles pc disasm) =
    KernelDebugRepV1.stepped (encode_step_kind kind) cycles pc disasm

unfoldable pub decode_debug_rep : KernelDebugRepV1 → DebugRep
decode_debug_rep (KernelDebugRepV1.snapshot vm) = DebugRep.snapshot (decode_snapshot vm)
decode_debug_rep (KernelDebugRepV1.mem_window space base bytes) =
    DebugRep.mem_window (decode_mem_space space) base bytes
decode_debug_rep (KernelDebugRepV1.stepped kind cycles pc disasm) =
    DebugRep.stepped (decode_step_kind kind) cycles pc disasm

decode_mem_space-encode_mem_space :
    (space : MemSpace) → decode_mem_space (encode_mem_space space) ≡ space
unfolding decode_mem_space encode_mem_space
decode_mem_space-encode_mem_space MemSpace.vram = refl
decode_mem_space-encode_mem_space MemSpace.wram = refl
decode_mem_space-encode_mem_space MemSpace.oam = refl
decode_mem_space-encode_mem_space MemSpace.io = refl

decode_step_kind-encode_step_kind :
    (kind : StepKind) → decode_step_kind (encode_step_kind kind) ≡ kind
unfolding decode_step_kind encode_step_kind
decode_step_kind-encode_step_kind StepKind.instruction = refl
decode_step_kind-encode_step_kind StepKind.frame = refl

-- A command of the debugger is decoded as it was.
pub decode_debug_cmd-encode_debug_cmd :
    (cmd : DebugCmd) → decode_debug_cmd (encode_debug_cmd cmd) ≡ cmd
unfolding decode_debug_cmd encode_debug_cmd
decode_debug_cmd-encode_debug_cmd (DebugCmd.snapshot group) = refl
decode_debug_cmd-encode_debug_cmd (DebugCmd.mem_window group space base len) =
    ap (λ s. DebugCmd.mem_window group s base len) (decode_mem_space-encode_mem_space space)
decode_debug_cmd-encode_debug_cmd (DebugCmd.step_instruction group count) = refl
decode_debug_cmd-encode_debug_cmd (DebugCmd.step_frame group) = refl

-- A report of the debugger is decoded as it was.
pub decode_debug_rep-encode_debug_rep :
    (rep : DebugRep) → decode_debug_rep (encode_debug_rep rep) ≡ rep
unfolding decode_debug_rep encode_debug_rep decode_snapshot encode_snapshot decode_cpu encode_cpu
    decode_ppu encode_ppu decode_timers encode_timers
decode_debug_rep-encode_debug_rep (DebugRep.snapshot vm) = refl
decode_debug_rep-encode_debug_rep (DebugRep.mem_window space base bytes) =
    ap (λ s. DebugRep.mem_window s base bytes) (decode_mem_space-encode_mem_space space)
decode_debug_rep-encode_debug_rep (DebugRep.stepped kind cycles pc disasm) =
    ap (λ k. DebugRep.stepped k cycles pc disasm) (decode_step_kind-encode_step_kind kind)
