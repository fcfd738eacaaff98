-- ===== src/Kernel/Farm/Twice.antt =====
-- A tick whose frame is ready only after an extra attempt (lib.rs of the kernel service).
use gbx.Prelude.{
  ℕ, suc, ◌+◌, ◌%◌, ◌<◌, ◌≡◌, refl, ap, sym, arith, u32, true, false, ◌==◌, List, [], ◌∷◌, ◌++◌,
  length, inl, inr,
}
use mathlib.Core.List.{append-nil}
use gbx.Prelude.Runs.{finished, ◌>>=◌, Ends, returns, >>=-Ends}
use gbx.App.Abi.{KernelRep}
use gbx.Ppu.{cycles_per_frame}
use gbx.Transport.SlotPool.Lifecycle.Moves.{Owned}
use gbx.Kernel.Sink.{FramePool}
use gbx.Kernel.Instance.{Instance, step, is_ready, boot_active}
use gbx.Kernel.Farm.{
  KernelFarm, Ticking, ensure_instance, publish, publish_ready, extra_attempts, publish_late,
  finish_tick, tick_instance, tick,
}
use gbx.Kernel.Farm.Frames.{Frames, step-next_frame_id}
use gbx.Kernel.Farm.Tick.{Reaches, Sound, Progress, Stops, Progress-trans, publish-Ends}

extra_attempts-ready :
    (left id cycles more : ℕ) (t : Ticking) (ready : Instance)
    → boot_active t.inst ≡ false
    → step cycles_per_frame t.inst ≡ finished (more, ready)
    → (more == 0) ≡ false
    → is_ready ready ≡ true
    → extra_attempts (suc left) id cycles t
      ≡ (publish id (record t { inst = ready }) >>= λ u. finished (u32 (cycles + more), u))
unfolding extra_attempts
extra_attempts-ready left id cycles more t ready off ran busy shows = ground (arith, ran)

publish_ready-waits :
    (id : ℕ) (t : Ticking)
    → is_ready t.inst ≡ false
    → boot_active t.inst ≡ false
    → publish_ready id t ≡ finished (false, t)
unfolding publish_ready
publish_ready-waits id t waits off = rw (waits, off) refl

module _ (id n : ℕ) (divides : 4294967296 % n ≡ 0) (writing reading : List ℕ) (size : ℕ)
    (start : Instance) (budget : ℕ) where
  late_twice :
      (cycles more : ℕ) (t : Ticking) (ready : Instance)
      → boot_active t.inst ≡ false
      → step cycles_per_frame t.inst ≡ finished (more, ready)
      → (more == 0) ≡ false
      → is_ready ready ≡ true
      → ready.next_frame_id ≡ t.inst.next_frame_id
      → Sound id n divides writing reading size start budget t
      → Ends
          (λ r. Progress id n divides writing reading size start budget 2 t r.1)
          (Stops id n divides writing reading size start budget)
          (publish_late id cycles t)
  unfolding publish_late
  late_twice cycles more t ready off ran busy shows same o =
      let stepped : Ticking = record t { inst = ready } in
      let from : Sound id n divides writing reading size start budget stepped =
        (o.0, o.1, Reaches.stepped cycles_per_frame more t.inst ready o.2 (inr refl) ran) in
      let begun : Progress id n divides writing reading size start budget 0 t stepped =
        ([], sym (append-nil t.out), sym same, refl, from) in
      rw (off, extra_attempts-ready 31 id cycles more t ready off ran busy shows)
        (>>=-Ends _
          (>>=-Ends _ (publish-Ends id n divides writing reading size start budget stepped from)
            (λ w. inr (ready, from.2, w)) λ u p. returns (u32 (cycles + more), u) p.0)
          (λ w. w)
          λ r p.
            >>=-Ends _ (publish-Ends id n divides writing reading size start budget r.1 p.4)
              (λ w. inr (r.1.inst, p.4.2, w))
              λ u q.
                returns (r.0, u)
                  (Progress-trans id n divides writing reading size start budget 0 2 t stepped u
                    begun
                    (Progress-trans id n divides writing reading size start budget 1 1 stepped r.1 u
                      p q.0)))

  abbrev Twice : List KernelRep → Instance → ℕ × Ticking → Type 0
  Twice out first r =
      (frames : List KernelRep) × (last : ℕ) × (r.1.out
        ≡ out ++ frames ++ KernelRep.tick_done id 1 r.0 ∷ [])
      × Frames id first.next_frame_id frames last
      × (length frames ≡ 2)

  finished-Twice :
      (out : List KernelRep) (first : Instance) (pool : FramePool) (r : ℕ × Ticking)
      → Progress id n divides writing reading size start budget 2
          (record { inst = first; pool = pool; out = out })
          r.1
      → Ends
          (Twice out first)
          (Stops id n divides writing reading size start budget)
          (finished (finish_tick id r))
  unfolding finish_tick
  finished-Twice out first pool r (frames, reports, numbers, count, o) = returns _ (
    frames,
    r.1.inst.next_frame_id,
    ap (λ l. l ++ KernelRep.tick_done id 1 r.0 ∷ []) reports,
    numbers,
    count,
  )

module _ (id n : ℕ) (divides : 4294967296 % n ≡ 0) (writing reading : List ℕ) (size : ℕ) where
  -- On a sound frame pool whose slot count divides 2³², a tick after whose budget no frame is
  -- ready, and whose first extra attempt ends with one, reports two frames, where one was ready, or
  -- panics, or hangs in a loop of the PPU; it panics only if the instance that it ticks, or one
  -- that it reaches from there by its own steps and frames, cannot be stepped or cannot draw its
  -- frame.
  pub tick_twice :
      (sync_low budget cycles more : ℕ) (out : List KernelRep) (farm : KernelFarm)
      (first ready : Instance)
      → step budget (ensure_instance sync_low id farm) ≡ finished (cycles, first)
      → is_ready first ≡ false
      → boot_active first ≡ false
      → step cycles_per_frame first ≡ finished (more, ready)
      → 0 < more
      → is_ready ready ≡ true
      → Owned n farm.frame_pool.slots writing reading
      → farm.frame_pool.slots.slot_size ≡ size
      → Ends
          (λ r.
            (frames : List KernelRep) × (last : ℕ) × (r.1
              ≡ out ++ frames ++ KernelRep.tick_done id 1 r.0 ∷ [])
            × Frames id first.next_frame_id frames last
            × (length frames ≡ 2))
          (Stops id n divides writing reading size (ensure_instance sync_low id farm) budget)
          (tick sync_low id budget out farm)
  unfolding tick tick_instance finish_tick
  tick_twice sync_low budget cycles more out farm first ready ran waits off ran2 busy shows o z =
      let from = ensure_instance sync_low id farm in
      let same = step-next_frame_id cycles_per_frame more first ready ran2 in
      let t : Ticking = record { inst = first; pool = farm.frame_pool; out = out } in
      rw (ran, publish_ready-waits id t waits off)
        (>>=-Ends _
          (>>=-Ends _
            (late_twice id n divides writing reading size from budget cycles more t ready off ran2
              (ground arith) shows same
              (o, z, Reaches.stepped budget cycles from first Reaches.here (inl refl) ran))
            (λ w. w)
            λ r p.
              finished-Twice id n divides writing reading size from budget out first farm.frame_pool
                r p)
          (λ w. w)
          λ r (frames, last, reports, numbers, count).
            returns _ (frames, last, reports, numbers, count))
