-- ===== src/Kernel/Farm/Reports.antt =====
-- The reports of a tick (lib.rs of the kernel service).
use gbx.Prelude.{
  ℕ, ◌+◌, ◌%◌, ◌≤◌, ◌≡◌, refl, inl, ap, arith, Bool, true, false, if◌then◌else◌, List, [], ◌∷◌,
  ◌++◌, length, from_bool,
}
use gbx.Prelude.Runs.{finished, Ends, returns, >>=-Ends, Ends-map}
use gbx.App.Abi.{KernelRep}
use gbx.Transport.SlotPool.Lifecycle.Moves.{Owned}
use gbx.Kernel.Farm.{
  KernelFarm, Ticking, ensure_instance, publish_late, finish_tick, tick_instance, tick,
}
use gbx.Kernel.Instance.{Instance}
use gbx.Kernel.Farm.Frames.{Frames}
use gbx.Kernel.Farm.Tick.{
  Reaches, Sound, Progress, Stops, Progress-trans, step-Ends, publish_ready-Ends, publish_late-Ends,
}

module _ (id n : ℕ) (divides : 4294967296 % n ≡ 0) (writing reading : List ℕ) (size : ℕ)
    (start : Instance) (budget : ℕ) where
  -- From `t` on, frames and then the end of the tick were reported.
  abbrev pub Ticked : Ticking → ℕ × Ticking → Type 0
  Ticked t r =
      (frames : List KernelRep) × (r.1.out ≡ t.out ++ frames ++ KernelRep.tick_done id 1 r.0 ∷ [])
      × Frames id t.inst.next_frame_id frames r.1.inst.next_frame_id
      × (1 ≤ length frames)
      × (length frames ≤ 2)
      × Sound id n divides writing reading size start budget r.1

  finish :
      (k : ℕ) (t : Ticking) (r : ℕ × Ticking)
      → 1 ≤ k
      → k ≤ 2
      → Progress id n divides writing reading size start budget k t r.1
      → Ticked t (finish_tick id r)
  unfolding finish_tick
  finish k t r low high (frames, out, numbers, count, o) = (
    frames,
    ap (λ l. l ++ KernelRep.tick_done id 1 r.0 ∷ []) out,
    numbers,
    omega arith,
    omega arith,
    o,
  )

  decide :
      (cycles : ℕ) (t : Ticking) (q : Bool × Ticking)
      → Progress id n divides writing reading size start budget (from_bool q.0) t q.1
      → Ends
          (λ r.
            (k : ℕ) × (1 ≤ k)
            × (k ≤ 2)
            × Progress id n divides writing reading size start budget k t r.1)
          (Stops id n divides writing reading size start budget)
          (if q.0 then finished (cycles, q.1) else publish_late id cycles q.1)
  decide cycles t (true, u) p = returns (cycles, u) (1, omega arith, omega arith, p)
  decide cycles t (false, u) p =
      Ends-map (publish_late-Ends id n divides writing reading size start budget cycles u p.4)
        λ r (k, low, high, q). (
          0 + k,
          omega arith,
          omega arith,
          Progress-trans id n divides writing reading size start budget 0 k t u r.1 p q,
        )

  pub tick_instance-Ends :
      (t : Ticking)
      → Sound id n divides writing reading size start budget t
      → Ends
          (Ticked t)
          (Stops id n divides writing reading size start budget)
          (tick_instance id budget t)
  unfolding tick_instance
  tick_instance-Ends t o =
      >>=-Ends _ (step-Ends id n divides writing reading size start budget budget t (inl refl) o)
        (λ w. w)
        λ r p.
          >>=-Ends _
            (publish_ready-Ends id n divides writing reading size start budget
              (record t { inst = r.1 }) p.4)
            (λ w. w)
            λ q ready.
              >>=-Ends _ (decide r.0 (record t { inst = r.1 }) q ready) (λ w. w)
                λ done (k, low, high, late). returns _ (
                  finish (0 + k) t done (omega arith) (omega arith) (
                    Progress-trans id n divides writing reading size start budget 0 k t
                      (record t { inst = r.1 }) done.1 p late))

module _ (id n : ℕ) (divides : 4294967296 % n ≡ 0) (writing reading : List ℕ) (size : ℕ) where
  -- On a sound frame pool whose slot count divides 2³², a tick panics only if the instance that it
  -- ticks, or one that it reaches from there by its own steps and frames, cannot be stepped or
  -- cannot draw its frame. Else, unless a loop of the PPU hangs in it, it ends and appends to the
  -- reports one frame or two, numbered on from the last, and then the end of the tick with the
  -- cycles done; the pool is as sound as before.
  pub tick_lem :
      (sync_low budget : ℕ) (out : List KernelRep) (farm : KernelFarm)
      → Owned n farm.frame_pool.slots writing reading
      → farm.frame_pool.slots.slot_size ≡ size
      → Ends
          (λ r.
            (frames : List KernelRep) × (last : ℕ) × (r.1
              ≡ out ++ frames ++ KernelRep.tick_done id 1 r.0 ∷ [])
            × Frames id (ensure_instance sync_low id farm).next_frame_id frames last
            × (1 ≤ length frames)
            × (length frames ≤ 2)
            × Owned n r.2.frame_pool.slots writing reading
            × (r.2.frame_pool.slots.slot_size ≡ size))
          (Stops id n divides writing reading size (ensure_instance sync_low id farm) budget)
          (tick sync_low id budget out farm)
  unfolding tick
  tick_lem sync_low budget out farm o z =
      >>=-Ends _
        (tick_instance-Ends id n divides writing reading size (ensure_instance sync_low id farm)
          budget _ (o, z, Reaches.here))
        (λ w. w)
        λ r (frames, reports, numbers, low, high, sound).
          returns _ (frames, r.1.inst.next_frame_id, reports, numbers, low, high, sound.0, sound.1)
