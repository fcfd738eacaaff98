-- ===== src/Kernel/Farm/Tick.antt =====
-- What a tick reports (lib.rs of the kernel service).
use gbx.Prelude.{
  ℕ, zero, suc, ◌+◌, ◌*◌, ◌^◌, ◌%◌, ◌≤◌, ◌≡◌, ◌⊎◌, inl, inr, refl, ap, sym, arith, u32, true, false,
  if◌then◌else◌, List, [], ◌∷◌, ◌++◌, length, length-append, Bool-cases, from_bool, min, ◌==◌,
}
use mathlib.Core.Path.{subst}
use mathlib.Core.List.{append_assoc, append-nil}
use gbx.Prelude.Runs.{finished, panicked, Ends, returns, panics, >>=-Ends, Ends-map, Run-cases}
use gbx.App.Abi.{KernelRep}
use gbx.Ppu.{cycles_per_frame}
use gbx.Kernel.Sink.Delivery.{produce_frame-Owned}
use gbx.Transport.SlotPool.Lifecycle.Moves.{Owned}
use gbx.Kernel.Instance.{Instance, step, render_into, bump_frame_id, is_ready, boot_active}
use gbx.Kernel.Farm.Frames.{
  Frames, Frames-append, step-ends, render_into-ends, step-next_frame_id, render_into-next_frame_id,
}
use gbx.Kernel.Farm.{
  frame_width, frame_height, report_frame, Ticking, publish, publish_ready, extra_attempts,
  publish_late,
}

-- The instances that a tick of `budget` cycles has at hand: the one that it starts with, and after
-- steps of the tick's budget or of a frame's cycles, and after a frame was drawn and numbered.
pub data Reaches (start : Instance) (budget : ℕ) : Instance → Type 0 where
  here : Reaches start budget start
  stepped :
      (b cycles : ℕ) (inst after : Instance)
      → Reaches start budget inst
      → (b ≡ budget) ⊎ (b ≡ cycles_per_frame)
      → step b inst ≡ finished (cycles, after)
      → Reaches start budget after
  drew :
      (l : ℕ) (buf drawn : ℕ → ℕ) (inst after : Instance)
      → Reaches start budget inst
      → render_into l buf inst ≡ finished (drawn, after)
      → Reaches start budget (bump_frame_id after).1

module _ (id n : ℕ) (divides : 4294967296 % n ≡ 0) (writing reading : List ℕ) (size : ℕ)
    (start : Instance) (budget : ℕ) where
  -- Each slot is in one place, with these in the hands of the users, and has `size` bytes; the
  -- instance is one that the tick reaches from its start.
  abbrev pub Sound : Ticking → Type 0
  Sound t =
      Owned n t.pool.slots writing reading
      × (t.pool.slots.slot_size ≡ size)
      × Reaches start budget t.inst

  -- From `t` on, `count` frames were reported.
  abbrev pub Progress : ℕ → Ticking → Ticking → Type 0
  Progress count t u =
      (frames : List KernelRep) × (u.out ≡ t.out ++ frames)
      × Frames id t.inst.next_frame_id frames u.inst.next_frame_id
      × (length frames ≡ count)
      × Sound u

  -- The frame of an instance does not fit in a buffer of its size, or of a slot.
  abbrev pub Undrawn : Instance → Type 0
  Undrawn inst =
      (l : ℕ) × (buf : ℕ → ℕ) × (min (frame_width inst.sink * frame_height inst.sink * 4) size ≤ l)
      × (render_into l buf inst ≡ panicked)

  -- The instance of `u` has drawn a frame since `t`.
  abbrev pub Drawn : Ticking → Ticking → Type 0
  Drawn t u =
      (l : ℕ) × (buf drawn : ℕ → ℕ) × (inst : Instance) × (render_into l buf t.inst
        ≡ finished (drawn, inst))
      × (u.inst.boot ≡ inst.boot)
      × (u.inst.core ≡ inst.core)

  -- Why a tick can panic: an instance that it reaches cannot be stepped, or cannot draw its frame.
  abbrev pub Stops : Type 0
  Stops =
      ((inst : Instance) × Reaches start budget inst
        × ((step budget inst ≡ panicked) ⊎ (step cycles_per_frame inst ≡ panicked)))
      ⊎ ((inst : Instance) × Reaches start budget inst × Undrawn inst)

  pub Progress-trans :
      (a b : ℕ) (t u v : Ticking) → Progress a t u → Progress b u v → Progress (a + b) t v
  Progress-trans a b t u v (fs, p, f, c, o) (gs, q, g, d, o2) = (
    fs ++ gs,
    rw (q, p) (append_assoc t.out fs gs),
    Frames-append id t.inst.next_frame_id u.inst.next_frame_id v.inst.next_frame_id fs gs f g,
    omega (arith, length-append fs gs),
    o2,
  )

  pub publish-Ends :
      (t : Ticking)
      → Sound t
      → Ends (λ u. Progress 1 t u × Drawn t u) (Undrawn t.inst) (publish id t)
  unfolding publish report_frame bump_frame_id
  publish-Ends t (o, z, from) =
      let len = frame_width t.inst.sink * frame_height t.inst.sink * 4 in
      let delivered =
        produce_frame-Owned render_into t.inst (λ l buf. render_into-ends l buf t.inst) n divides
          writing reading len size t.pool o z in
      >>=-Ends _ delivered (λ w. w)
        λ (frame, pool, inst) (o, z, (l, buf, drawn, room, e, holds)).
          let same = render_into-next_frame_id l buf drawn t.inst inst e in
          returns _ (
            (
              _ ∷ [],
              refl,
              (refl, refl, ap (λ (k : ℕ). (k + 1) % 2 ^ 64) same, refl),
              refl,
              (o, z, drew l buf drawn t.inst inst from e),
            ),
            (l, buf, drawn, inst, e, refl, refl),
          )

  stuck :
      (b : ℕ) (inst : Instance)
      → (b ≡ budget) ⊎ (b ≡ cycles_per_frame)
      → step b inst ≡ panicked
      → (step budget inst ≡ panicked) ⊎ (step cycles_per_frame inst ≡ panicked)
  stuck b inst (inl e) h = inl (subst (λ k. step k inst ≡ panicked) e h)
  stuck b inst (inr e) h = inr (subst (λ k. step k inst ≡ panicked) e h)

  pub step-Ends :
      (b : ℕ) (t : Ticking)
      → (b ≡ budget) ⊎ (b ≡ cycles_per_frame)
      → Sound t
      → Ends (λ r. Progress 0 t (record t { inst = r.1 })) Stops (step b t.inst)
  step-Ends b t which o = elim (Run-cases (step b t.inst) (step-ends b t.inst)) [
    | inl ((cycles, after), e) ↦ rw e (
        returns (cycles, after)
          (
            [],
            sym (append-nil t.out),
            sym (step-next_frame_id b cycles t.inst after e),
            refl,
            (o.0, o.1, stepped b cycles t.inst after o.2 which e),
          ))
    | inr e ↦ rw e (panics (inl (t.inst, o.2, stuck b t.inst which e)))
  ]

  -- One frame was reported, or none.
  abbrev AtMostOne : Ticking → ℕ × Ticking → Type 0
  AtMostOne t r = (k : ℕ) × (k ≤ 1) × Progress k t r.1

  unmoved : (t : Ticking) → Sound t → Progress 0 t t
  unmoved t o = ([], sym (append-nil t.out), refl, refl, o)

  later :
      (t u : Ticking)
      → Progress 0 t u
      → (left cycles : ℕ) → Ends (AtMostOne u) Stops (extra_attempts left id cycles u)
      → Ends (AtMostOne t) Stops (extra_attempts left id cycles u)
  later t u p left cycles ends =
      Ends-map ends λ r (k, few, q). (0 + k, omega arith, Progress-trans 0 k t u r.1 p q)

  pub extra_attempts-Ends :
      (left cycles : ℕ) (t : Ticking)
      → Sound t
      → Ends (AtMostOne t) Stops (extra_attempts left id cycles t)
  unfolding extra_attempts
  extra_attempts-Ends zero cycles t o = returns (cycles, t) (0, omega arith, unmoved t o)
  extra_attempts-Ends (suc left) cycles t o = elim (Bool-cases (boot_active t.inst)) [
    | inl on ↦ rw (on, extra_attempts) (returns (cycles, t) (0, omega arith, unmoved t o))
    | inr off ↦
        rw (off, extra_attempts)
          (>>=-Ends _ (step-Ends cycles_per_frame t (inr refl) o) (λ w. w)
            λ r p.
              let now : Ticking = record t { inst = r.1 } in
              elim (Bool-cases (r.0 == 0)) [
                | inl idle ↦ rw idle (returns (cycles, now) (0, omega arith, p))
                | inr busy ↦ elim (Bool-cases (is_ready r.1)) [
                  | inl ready ↦
                      rw (busy, ready)
                        (>>=-Ends _ (publish-Ends now p.4) (λ w. inr (r.1, p.4.2, w))
                          λ u q. returns _ (1, omega arith, Progress-trans 0 1 t now u p q.0))
                  | inr waits ↦
                      rw (busy, waits)
                        (later t now p left (u32 (cycles + r.0))
                          (extra_attempts-Ends left (u32 (cycles + r.0)) now p.4))
                ]
              ])
  ]

  pub publish_ready-Ends :
      (t : Ticking)
      → Sound t
      → Ends (λ r. Progress (from_bool r.0) t r.1) Stops (publish_ready id t)
  unfolding publish_ready
  publish_ready-Ends t o = elim (Bool-cases (is_ready t.inst)) [
    | inl ready ↦
        rw ready
          (>>=-Ends _ (publish-Ends t o) (λ w. inr (t.inst, o.2, w)) λ u q. returns (true, u) q.0)
    | inr waits ↦ elim (Bool-cases (boot_active t.inst)) [
      | inl on ↦
          rw (waits, on)
            (>>=-Ends _ (publish-Ends t o) (λ w. inr (t.inst, o.2, w)) λ u q. returns (true, u) q.0)
      | inr off ↦ rw (waits, off) (returns (false, t) (unmoved t o))
    ]
  ]

  -- One frame was reported, or two.
  abbrev OneOrTwo : Ticking → ℕ × Ticking → Type 0
  OneOrTwo t r = (k : ℕ) × (1 ≤ k) × (k ≤ 2) × Progress k t r.1

  pub publish_late-Ends :
      (cycles : ℕ) (t : Ticking) → Sound t → Ends (OneOrTwo t) Stops (publish_late id cycles t)
  unfolding publish_late
  publish_late-Ends cycles t o =
      >>=-Ends _ attempts (λ w. w)
        λ r (k, few, p).
          >>=-Ends _ (publish-Ends r.1 p.4) (λ w. inr (r.1.inst, p.4.2, w))
            λ u q.
              returns (r.0, u) (k + 1, omega arith, omega arith, Progress-trans k 1 t r.1 u p q.0)
    where
      attempts :
          Ends
            (AtMostOne t)
            Stops
            (if boot_active t.inst then finished (cycles, t) else extra_attempts 32 id cycles t)
      attempts = elim (Bool-cases (boot_active t.inst)) [
        | inl on ↦ rw on (returns (cycles, t) (0, omega arith, unmoved t o))
        | inr off ↦ rw off (extra_attempts-Ends 32 cycles t o)
      ]
