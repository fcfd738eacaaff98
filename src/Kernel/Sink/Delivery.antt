-- ===== src/Kernel/Sink/Delivery.antt =====
-- Where a frame goes (sink_transport.rs), whatever the state of the pool.
use gbx.Prelude.{
  ℕ, suc, ◌+◌, ◌-◌, ◌*◌, ◌%◌, ◌≤◌, ◌<◌, min, ◌≡◌, ◌⊎◌, inl, inr, refl, ap, sym, ◌∙◌, arith, ltb,
  if◌then◌else◌, Option, none, some, List, [], ◌∷◌,
}
use mathlib.Core.Path.{subst}
use gbx.Prelude.Runs.{Run, finished, panicked, out_of_fuel, Ends, returns, panics, Run-cases}
use gbx.Transport.SlotPool.{SlotPool, SlotPush, try_acquire_free, push_ready}
use gbx.Transport.SlotPool.Config.{slot_mut_in}
use gbx.Transport.SlotPool.Lifecycle.Counts.{count, occurs_self}
use gbx.Transport.SlotPool.Lifecycle.Moves.{Owned}
use gbx.Transport.SlotPool.Lifecycle.Operations.{acquire-Owned, push_ready-Owned}
use gbx.Kernel.Sink.{
  FramePool, Delivered, to_vec, splice, produce_inline, publish, produce_slot, produce_frame,
}

acquire-none : (pool p : SlotPool) → try_acquire_free pool ≡ (none, p) → p ≡ pool
unfolding try_acquire_free
acquire-none pool p h = ground arith

acquire-slot_size : (pool : SlotPool) → (try_acquire_free pool).1.slot_size ≡ pool.slot_size
unfolding try_acquire_free
acquire-slot_size pool = ground arith

push_ready-slot_size :
    (pool : SlotPool) (i : ℕ) (push : SlotPush) (p : SlotPool)
    → push_ready pool i ≡ some (push, p)
    → p.slot_size ≡ pool.slot_size
unfolding push_ready
push_ready-slot_size pool i push p h = ground arith

first-lt : (n i a b c d : ℕ) → a + b + suc c + d ≡ (if ltb i n then 1 else 0) → i < n
first-lt n i a b c d h = ground arith

module _ {I : Type 0} (write : ℕ → (ℕ → ℕ) → I → Run ((ℕ → ℕ) × I)) (s : I)
    (ends : (l : ℕ) (buf : ℕ → ℕ) → ¬ (write l buf s ≡ out_of_fuel)) (n : ℕ)
    (divides : 4294967296 % n ≡ 0) (writing reading : List ℕ) (len size : ℕ) where
  -- The frame that `write` drew is inline, or stands in the memory of a slot of the pool.
  abbrev pub Holds : FramePool → FramePool → Delivered → (ℕ → ℕ) → Type 0
  Holds before after frame drawn =
      ((frame ≡ (to_vec drawn 0 len, none)) × (after.memory ≡ before.memory))
      ⊎ ((i : ℕ) × (frame ≡ ([], some (record { start_idx = i; count = 1 })))
          × (i < n)
          × (after.memory ≡ splice before.memory (i * size) (min len size) drawn))

  -- The frame is delivered, and the pool is as sound as before.
  abbrev pub Delivers : FramePool → Delivered × FramePool × I → Type 0
  Delivers pool (frame, after, t) =
      Owned n after.slots writing reading
      × (after.slots.slot_size ≡ size)
      × ((l : ℕ) × (buf drawn : ℕ → ℕ) × (min len size ≤ l)
          × (write l buf s ≡ finished (drawn, t))
          × Holds pool after frame drawn)

  -- The frame cannot be drawn in a buffer of `len` bytes, or of a slot.
  abbrev pub CannotDraw : Type 0
  CannotDraw = (l : ℕ) × (buf : ℕ → ℕ) × (min len size ≤ l) × (write l buf s ≡ panicked)

  deliver_inline :
      (pool : FramePool)
      → Owned n pool.slots writing reading
      → pool.slots.slot_size ≡ size
      → Ends (Delivers pool) CannotDraw (produce_inline write len pool s)
  unfolding produce_inline
  deliver_inline pool o z = elim (Run-cases (write len (λ _. 0) s) (ends len (λ _. 0))) [
    | inl ((drawn, t), e) ↦ rw e (
        returns ((to_vec drawn 0 len, none), pool, t)
          (o, z, (len, (λ _. 0), drawn, omega arith, e, inl (refl, refl))))
    | inr e ↦ rw e (panics (len, (λ _. 0), omega arith, e))
  ]

  deliver_slot :
      (i : ℕ) (pool : FramePool)
      → Owned n pool.slots (i ∷ writing) reading
      → pool.slots.slot_size ≡ size
      → Ends (Delivers pool) CannotDraw (produce_slot write len i pool s)
  unfolding produce_slot publish
  deliver_slot i pool o z =
      let own = o.is_owned in
      let small : i < n =
        first-lt n i (count i o.free) (count i o.ready) (count i writing) (count i reading)
          (omega (arith, own.once i, occurs_self i)) in
      let range =
        slot_mut_in pool.slots i o.layout (omega (arith, own.count_is))
        ∙ ap (λ (k : ℕ). some (i * k, i * k + k)) z in
      let start = i * size in
      let room : start + size - start ≡ size = omega arith in
      let (slots, pushed, owned) =
        push_ready-Owned n divides pool.slots o.layout (i ∷ writing) reading o.free_at o.ready_at
          o.free o.ready [] i writing refl own in
      let under : ℕ → ℕ = λ k. pool.memory (start + k) in
      elim (Run-cases (write (min len size) under s) (ends (min len size) under)) [
        | inl ((drawn, t), e) ↦
            rw (range, room, e, pushed)
              (returns
                (
                  ([], some (record { start_idx = i; count = 1 })),
                  record { slots = slots; memory = splice pool.memory start (min len size) drawn },
                  t,
                )
                (
                  owned,
                  push_ready-slot_size pool.slots i SlotPush.ok slots pushed ∙ z,
                  (min len size, under, drawn, omega arith, e, inr (i, refl, small, refl)),
                ))
        | inr e ↦ rw (range, room, e) (panics (min len size, under, omega arith, e))
      ]

  -- The state of the pool after the attempt to acquire a slot.
  abbrev tried : FramePool → FramePool
  tried pool = record pool { slots = (try_acquire_free pool.slots).1 }

  pub produce_frame-Owned :
      (pool : FramePool)
      → Owned n pool.slots writing reading
      → pool.slots.slot_size ≡ size
      → Ends (Delivers pool) CannotDraw (produce_frame write len pool s)
  unfolding produce_frame
  produce_frame-Owned pool o z = deliver (try_acquire_free pool.slots).0 refl
    where
      same_size : (tried pool).slots.slot_size ≡ size
      same_size = acquire-slot_size pool.slots ∙ z

      deliver :
          (found : Option ℕ)
          → (try_acquire_free pool.slots).0 ≡ found
          → Ends (Delivers pool) CannotDraw (produce_frame write len pool s)
      deliver none e =
          let same =
            acquire-none pool.slots (try_acquire_free pool.slots).1
              (ap (λ f. (f, (try_acquire_free pool.slots).1)) e) in
          rw (e, produce_frame)
            (deliver_inline (tried pool) (subst (λ q. Owned n q writing reading) (sym same) o)
              same_size)
      deliver (some i) e =
          rw (e, produce_frame)
            (deliver_slot i (tried pool)
              (acquire-Owned n divides pool.slots o.layout writing reading o.free_at o.ready_at
                o.free o.ready i (try_acquire_free pool.slots).1 o.is_owned
                (ap (λ f. (f, (try_acquire_free pool.slots).1)) e))
              same_size)
