-- ===== src/Kernel/Farm/Frames.antt =====
-- Runs of an instance, and the frames that it reports (instance.rs and lib.rs of the kernel
-- service).
use gbx.Prelude.{
  ℕ, zero, suc, ◌+◌, ◌^◌, ◌%◌, ◌≤◌, ◌≡◌, inl, inr, arith, u32, List, [], ◌∷◌, ◌++◌, Option-cases,
  min, sub_u32, ◌-◌,
}
use gbx.Prelude.Runs.{finished, out_of_fuel}
use gbx.App.Abi.{KernelRep}
use gbx.Core.{Core}
use gbx.Machine.Step.{Outcome, advance, step_loop, step_cycles}
use gbx.Kernel.Instance.{Instance, step, step_core, render_into, render_boot}

-- The loop of `step_cycles` uses up fuel only with its budget, whatever the core.
step_loop_enough :
    (fuel budget consumed : ℕ) (core : Core)
    → budget ≤ fuel
    → ¬ (step_loop fuel budget consumed core ≡ Outcome.out_of_fuel)
unfolding step_loop
step_loop_enough zero budget consumed core h e = ground arith
step_loop_enough (suc fuel) budget consumed core h e =
    elim (Option-cases (advance (min budget 4) core)) [
      | inl stops ↦ ground arith
      | inr (after, ran) ↦
          let delta = sub_u32 after.cycles_this_frame core.cycles_this_frame in
          ground (arith, ran, step_loop_enough fuel (budget - delta) (u32 (consumed + delta)) after)
    ]

pub step-ends : (budget : ℕ) (inst : Instance) → ¬ (step budget inst ≡ out_of_fuel)
unfolding step step_core step_cycles
step-ends budget inst e = ground (arith, step_loop_enough budget budget 0 inst.core (omega arith))

pub render_into-ends :
    (len : ℕ) (buf : ℕ → ℕ) (inst : Instance) → ¬ (render_into len buf inst ≡ out_of_fuel)
unfolding render_into render_boot
render_into-ends len buf inst e = ground arith

pub step-next_frame_id :
    (budget cycles : ℕ) (inst after : Instance)
    → step budget inst ≡ finished (cycles, after)
    → after.next_frame_id ≡ inst.next_frame_id
unfolding step step_core
step-next_frame_id budget cycles inst after e = ground arith

pub render_into-next_frame_id :
    (len : ℕ) (buf drawn : ℕ → ℕ) (inst after : Instance)
    → render_into len buf inst ≡ finished (drawn, after)
    → after.next_frame_id ≡ inst.next_frame_id
unfolding render_into render_boot
render_into-next_frame_id len buf drawn inst after e = ground arith

-- The reports are frames of lane 0 of the group `id`, numbered on from `first` up to `last`.
abbrev pub Frames : ℕ → ℕ → List KernelRep → ℕ → Type 0
Frames id first [] last = first ≡ last
Frames id first (KernelRep.lane_frame group lane span frame_id ∷ reps) last =
    (group ≡ id) × (lane ≡ 0) × (frame_id ≡ (first + 1) % 2 ^ 64) × Frames id frame_id reps last
Frames id first (KernelRep.tick_done group mask cycles ∷ reps) last = ⊥
Frames id first (KernelRep.rom_loaded group len ∷ reps) last = ⊥
Frames id first (KernelRep.audio_ready group span ∷ reps) last = ⊥
Frames id first (KernelRep.dropped_thumb group count ∷ reps) last = ⊥
Frames id first (KernelRep.debug rep ∷ reps) last = ⊥

pub Frames-append :
    (id first middle last : ℕ) (xs ys : List KernelRep)
    → Frames id first xs middle
    → Frames id middle ys last
    → Frames id first (xs ++ ys) last
Frames-append id first middle last [] ys p q = rw p q
Frames-append id first middle last (KernelRep.lane_frame g lane span fid ∷ xs) ys p q =
    (p.0, p.1, p.2, Frames-append id fid middle last xs ys p.3 q)
Frames-append id first middle last (KernelRep.tick_done g mask cycles ∷ xs) ys p q = absurd p
Frames-append id first middle last (KernelRep.rom_loaded g len ∷ xs) ys p q = absurd p
Frames-append id first middle last (KernelRep.audio_ready g span ∷ xs) ys p q = absurd p
Frames-append id first middle last (KernelRep.dropped_thumb g count ∷ xs) ys p q = absurd p
Frames-append id first middle last (KernelRep.debug rep ∷ xs) ys p q = absurd p
