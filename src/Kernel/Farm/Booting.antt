-- ===== src/Kernel/Farm/Booting.antt =====
-- A tick of an instance that shows its boot sequence (lib.rs and instance.rs of the kernel
-- service).
use gbx.Prelude.{
  ℕ, ◌*◌, ◌%◌, ◌≤◌, min, ◌≡◌, refl, ap, ◌∙◌, arith, true, false, if◌then◌else◌, none, some, List,
  [], ◌∷◌, ◌++◌, length, is_some,
}
use mathlib.Core.Path.{subst}
use mathlib.Core.List.{append_assoc}
use gbx.Prelude.Runs.{finished, panicked, Ends-finished}
use gbx.App.Abi.{KernelRep}
use gbx.Transport.SlotPool.Lifecycle.Moves.{Owned}
use gbx.Kernel.Boot.{BootSequence, advance, render, render_boot_frame, is_done}
use gbx.Kernel.Instance.{Instance, step, render_into, render_boot, is_ready, boot_active}
use gbx.Kernel.Farm.{
  KernelFarm, put, Ticking, frame_width, frame_height, ensure_instance, publish, publish_ready,
  finish_tick, tick_instance, tick,
}
use gbx.Kernel.Farm.Frames.{Frames}
use gbx.Kernel.Farm.Tick.{Reaches, publish-Ends}

-- A boot frame fits in a buffer of 160 by 144 pixels.
boot_drawn :
    (l : ℕ) (buf : ℕ → ℕ) (inst : Instance) (boot : BootSequence)
    → inst.boot ≡ some boot
    → 92160 ≤ l
    → ¬ (render_into l buf inst ≡ panicked)
unfolding render_into render_boot render render_boot_frame
boot_drawn l buf inst boot e h p = ground arith

boot_after :
    (l : ℕ) (buf drawn : ℕ → ℕ) (inst after : Instance) (boot : BootSequence)
    → inst.boot ≡ some boot
    → render_into l buf inst ≡ finished (drawn, after)
    → after.boot ≡ (
        if is_done (advance boot inst.core.bus).0.phase
        then none
        else some (advance boot inst.core.bus).0)
unfolding render_into render_boot render
boot_after l buf drawn inst after boot e p = ground arith

only_one : (reps : List KernelRep) → length reps ≡ 1 → (r : KernelRep) × (reps ≡ r ∷ [])
only_one [] h = absurd (omega arith)
only_one (r ∷ []) h = (r, refl)
only_one (r ∷ q ∷ rs) h = absurd (omega arith)

not_ready : (inst : Instance) → is_some inst.boot ≡ true → is_ready inst ≡ false
unfolding is_ready
not_ready inst on = rw on refl

active : (inst : Instance) → is_some inst.boot ≡ true → boot_active inst ≡ true
unfolding boot_active
active inst on = on

tick_publishes :
    (sync_low id budget : ℕ) (out : List KernelRep) (farm : KernelFarm) (inst : Instance)
    (u : Ticking)
    → farm.instances id ≡ some inst
    → is_some inst.boot ≡ true
    → publish id (record { inst = inst; pool = farm.frame_pool; out = out }) ≡ finished u
    → tick sync_low id budget out farm
      ≡ finished (
        budget,
        u.out ++ KernelRep.tick_done id 1 budget ∷ [],
        put (record farm { frame_pool = u.pool }) id (some u.inst),
      )
unfolding tick ensure_instance tick_instance step publish_ready finish_tick
tick_publishes sync_low id budget out farm inst u there on published =
    rw (there, on, not_ready inst on, active inst on, published) refl

module _ (id n : ℕ) (divides : 4294967296 % n ≡ 0) (writing reading : List ℕ) (size : ℕ) where
  -- While an instance shows its boot sequence, a tick of a screen of 160 by 144 pixels never panics
  -- on a sound pool whose slot count divides 2³² and whose slots hold a frame. It counts the budget
  -- as done and reports one frame and the end of the tick, and the sequence is one frame further,
  -- or over.
  pub tick_boot :
      (sync_low budget : ℕ) (out : List KernelRep) (farm : KernelFarm) (inst : Instance)
      (boot : BootSequence)
      → farm.instances id ≡ some inst
      → inst.boot ≡ some boot
      → inst.sink.width ≡ 160
      → inst.sink.height ≡ 144
      → Owned n farm.frame_pool.slots writing reading
      → farm.frame_pool.slots.slot_size ≡ size
      → 92160 ≤ size
      → (frame : KernelRep) × (after : KernelFarm) × (next : Instance) × (tick sync_low id budget
            out farm
          ≡ finished (budget, out ++ frame ∷ KernelRep.tick_done id 1 budget ∷ [], after))
        × Frames id inst.next_frame_id (frame ∷ []) next.next_frame_id
        × (after.instances id ≡ some next)
        × (next.boot ≡ (
            if is_done (advance boot inst.core.bus).0.phase
            then none
            else some (advance boot inst.core.bus).0))
        × Owned n after.frame_pool.slots writing reading
  tick_boot sync_low budget out farm inst boot there boots wide high o z large =
      let t : Ticking = record { inst = inst; pool = farm.frame_pool; out = out } in
      let fits : 92160 ≤ min (frame_width inst.sink * frame_height inst.sink * 4) size =
        ground (arith, wide, high) in
      let (u, published, ((fs, reports, numbers, count, sound), (l, buf, drawn, shown, e, b, c))) =
        Ends-finished
          (publish-Ends id n divides writing reading size inst budget t (o, z, Reaches.here))
          (λ (l, buf, room, e). boot_drawn l buf inst boot boots (omega (arith, fits, room)) e) in
      let (frame, alone) = only_one fs count in
      let on : is_some inst.boot ≡ true = ap is_some boots in
      let one : out ++ fs ≡ out ++ frame ∷ [] = ap (λ l. out ++ l) alone in
      (
        frame,
        put (record farm { frame_pool = u.pool }) id (some u.inst),
        u.inst,
        tick_publishes sync_low id budget out farm inst u there on published
            ∙ ap
                (λ l. finished (
                  budget,
                  l ++ KernelRep.tick_done id 1 budget ∷ [],
                  put (record farm { frame_pool = u.pool }) id (some u.inst),
                ))
                (reports ∙ one)
            ∙ ap
                (λ l.
                  finished (budget, l, put (record farm { frame_pool = u.pool }) id (some u.inst)))
                (append_assoc out (frame ∷ []) (KernelRep.tick_done id 1 budget ∷ [])),
        subst (λ l. Frames id inst.next_frame_id l u.inst.next_frame_id) alone numbers,
        ground arith,
        b ∙ boot_after l buf drawn inst shown boot boots e,
        sound.0,
      )
