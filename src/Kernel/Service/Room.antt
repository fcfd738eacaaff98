-- ===== src/Kernel/Service/Room.antt =====
-- The queue of the kernel service keeps to its capacity (lib.rs of the kernel service).
use gbx.Prelude.{
  ℕ, zero, suc, ◌+◌, ◌%◌, ◌≤◌, ◌≡◌, refl, ap, arith, ◌==◌, u32, Option, unwrap_or, none, some, List,
  [], ◌∷◌, ◌++◌, length, length-append, Bool-cases, Option-cases, inl, inr,
}
use mathlib.Core.Option
use gbx.Prelude.Runs.{Ends, returns, panics, >>=-Ends, Ends-map}
use gbx.App.Abi.{
  DebugCmd, DebugRep, StepKind, snapshot, mem_window, step_instruction, step_frame, KernelCmd,
  KernelRep,
}
use gbx.Core.{Core}
use gbx.Machine.Step
use gbx.Ppu.{cycles_per_frame}
use gbx.Services.Bounds.{try_submit_queue-Ends}
use gbx.Transport.SlotPool.Lifecycle.Moves.{Owned}
use gbx.Kernel.Sink.{or_panic}
use gbx.Kernel.Instance.{Instance, instructions_loop, step_instructions}
use gbx.Kernel.Farm
use gbx.Kernel.Farm.{KernelFarm, ensure_instance, tick, handle_debug}
use gbx.Kernel.Farm.Reports.{tick_lem}
use gbx.Kernel.Service.{KernelService, reports_for, kernel_policy, materialise_reports, try_submit}

-- How many more reports a command may make than it is admitted for.
abbrev pub slack : KernelCmd → ℕ
slack (KernelCmd.tick group purpose budget) = 1
slack (KernelCmd.load_rom group bytes) = 0
slack (KernelCmd.set_inputs group lanes_mask joypad) = 0
slack (KernelCmd.terminate group) = 0
slack (KernelCmd.debug (step_frame group)) = 1
slack (KernelCmd.debug (snapshot group)) = 0
slack (KernelCmd.debug (mem_window group space base len)) = 0
slack (KernelCmd.debug (step_instruction group count)) = 0

-- Why a command panics is not told here.
or_panic-Ends : {A : Type 0} (o : Option A) → Ends (λ _. Unit {0}) (Unit {0}) (or_panic o)
or_panic-Ends none = panics tt
or_panic-Ends (some a) = returns a tt

instructions_loop-Ends :
    (count total last_pc : ℕ) (core : Core)
    → Ends (λ _. Unit {0}) (Unit {0}) (instructions_loop count total last_pc core)
unfolding instructions_loop
instructions_loop-Ends zero total last_pc core = returns _ tt
instructions_loop-Ends (suc count) total last_pc core =
    >>=-Ends _ (or_panic-Ends (Step.step_instruction core)) (λ w. w)
      λ r u. elim (Bool-cases (r.0 == 0)) [
        | inl idle ↦ rw idle (returns _ tt)
        | inr busy ↦ rw busy (instructions_loop-Ends count (u32 (total + r.0)) r.1 r.2)
      ]

step_instructions-Ends :
    (count : ℕ) (inst : Instance) → Ends (λ _. Unit {0}) (Unit {0}) (step_instructions count inst)
unfolding step_instructions
step_instructions-Ends zero inst = returns _ tt
step_instructions-Ends (suc count) inst =
    >>=-Ends _ (instructions_loop-Ends (suc count) 0 inst.core.cpu.pc inst.core) (λ w. w)
      λ r u. returns _ tt

length-snoc : (l : List KernelRep) (rep : KernelRep) → length (l ++ rep ∷ []) ≡ length l + 1
length-snoc l rep = length-append l (rep ∷ [])

module _ (n : ℕ) (divides : 4294967296 % n ≡ 0) (writing reading : List ℕ) (size sync_low : ℕ) where
  -- The frame pool of the farm is sound.
  abbrev pub SoundPool : KernelFarm → Type 0
  SoundPool farm =
      Owned n farm.frame_pool.slots writing reading × (farm.frame_pool.slots.slot_size ≡ size)

  set_inputs-SoundPool :
      (id joypad : ℕ) (farm : KernelFarm)
      → SoundPool farm
      → SoundPool (Farm.set_inputs id joypad farm)
  unfolding Farm.set_inputs
  set_inputs-SoundPool id joypad farm o = elim (Option-cases (farm.instances id)) [
    | inl gone ↦ rw (Farm.set_inputs, gone) o
    | inr (inst, found) ↦ rw (Farm.set_inputs, found) o
  ]

  abbrev Makes : ℕ → List KernelRep × KernelFarm → Type 0
  Makes count r = (length r.0 ≤ count) × SoundPool r.1

  handle_debug-Ends :
      (cmd : DebugCmd) (farm : KernelFarm)
      → SoundPool farm
      → Ends
          (Makes (reports_for (KernelCmd.debug cmd) + slack (KernelCmd.debug cmd)))
          (Unit {0})
          (handle_debug sync_low cmd farm)
  unfolding handle_debug reports_for
  handle_debug-Ends (snapshot group) farm o = returns _ (omega arith, o)
  handle_debug-Ends (mem_window group space base len) farm o = returns _ (omega arith, o)
  handle_debug-Ends (step_instruction group count) farm o =
      >>=-Ends _ (step_instructions-Ends count (ensure_instance sync_low group farm)) (λ w. w)
        λ r u. returns _ (omega arith, o)
  handle_debug-Ends (step_frame group) farm o =
      >>=-Ends _
        (tick_lem group n divides writing reading size sync_low cycles_per_frame [] farm o.0 o.1)
        (λ w. tt)
        λ r (frames, last, reports, numbers, low, high, own, same). returns _ (
          omega (
            arith,
            ap length reports,
            length-snoc frames (KernelRep.tick_done group 1 r.0),
            length-snoc r.1 (
                KernelRep.debug (
                  DebugRep.stepped StepKind.frame r.0
                    (unwrap_or 0
                      (Option.map (λ (inst : Instance). inst.core.cpu.pc) (r.2.instances group)))
                    none)),
          ),
          (own, same),
        )

  materialise_reports-Ends :
      (cmd : KernelCmd) (farm : KernelFarm)
      → SoundPool farm
      → Ends
          (Makes (reports_for cmd + slack cmd))
          (Unit {0})
          (materialise_reports sync_low cmd farm)
  unfolding materialise_reports reports_for Farm.load_rom Farm.set_inputs Farm.terminate
  materialise_reports-Ends (KernelCmd.tick group purpose budget) farm o =
      >>=-Ends _ (tick_lem group n divides writing reading size sync_low budget [] farm o.0 o.1)
        (λ w. tt)
        λ r (frames, last, reports, numbers, low, high, own, same). returns _ (
          omega (arith, ap length reports, length-snoc frames (KernelRep.tick_done group 1 r.0)),
          (own, same),
        )
  materialise_reports-Ends (KernelCmd.load_rom group bytes) farm o = returns _ (omega arith, o)
  materialise_reports-Ends (KernelCmd.set_inputs group lanes_mask joypad) farm o =
      returns _ (omega arith, set_inputs-SoundPool group joypad farm o)
  materialise_reports-Ends (KernelCmd.terminate group) farm o = returns _ (omega arith, o)
  materialise_reports-Ends (KernelCmd.debug cmd) farm o = handle_debug-Ends cmd farm o

  -- On a sound frame pool whose slot count divides 2³² a command ends, or panics, unless a loop of
  -- the PPU hangs in it, and keeps the queue of reports within its capacity, or within one report
  -- of it if the command is a tick or a step of a frame, or if the queue was that long.
  pub try_submit-Ends :
      (cmd : KernelCmd) (k : KernelService) (over : ℕ)
      → slack cmd ≤ over
      → length k.reports ≤ k.capacity + over
      → SoundPool k.farm
      → Ends
          (λ r.
            (length r.1.reports ≤ k.capacity + over)
            × (r.1.capacity ≡ k.capacity)
            × SoundPool r.1.farm)
          (Unit {0})
          (try_submit sync_low cmd k)
  unfolding try_submit
  try_submit-Ends cmd k over h few o =
      >>=-Ends _
        (try_submit_queue-Ends (materialise_reports sync_low cmd) SoundPool (Unit {0}) k.capacity
          (reports_for cmd) over k.farm o
          (Ends-map (materialise_reports-Ends cmd k.farm o)
            λ r (made, sound). (omega (arith, made, h), sound))
          (kernel_policy cmd) k.reports few)
        (λ w. w) λ r (fits, sound). returns _ (fits, refl, sound)
