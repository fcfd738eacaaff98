-- ===== src/Kernel/Sink.antt =====
-- `TransportFrameSink`, crates/04-services/kernel/src/sink_transport.rs: a frame goes to a slot of
-- the pool, or inline if no slot is free. The pool comes with the bytes of its slots, by their
-- offset; the callback is given the length of its buffer and the bytes, and changes a state `I`.
pub mod Delivery
use gbx.Prelude.{
  ℕ, zero, suc, ◌+◌, ◌-◌, ◌≤◌, min, ltb, leb, ◌&&◌, ◌==◌, if◌then◌else◌, Option, none, some, List,
  [], ◌∷◌,
}
use gbx.Prelude.Runs.{Run, finished, panicked, ◌>>=◌}
use gbx.App.Abi.{SlotSpan}
use gbx.Transport.SlotPool.{
  SlotPool, SlotPush, try_acquire_free, slot_mut, push_ready, release_free,
}

pub record FramePool : Type 0 where
  pub slots : SlotPool
  pub memory : ℕ → ℕ

pub record FrameSink : Type 0 where
  pub width : ℕ
  pub height : ℕ

-- `TransportFrameSink::new`
unfoldable pub new : ℕ → ℕ → FrameSink
new width height = record {
  width = if width == 0 then 160 else width;
  height = if height == 0 then 144 else height;
}

-- A panic of an operation of the pool is `none` there.
abbrev pub or_panic : {A : Type 0} → Option A → Run A
or_panic none = panicked
or_panic (some a) = finished a

-- `Vec::from(&buf[..len])`, from `start`.
unfoldable pub to_vec : (ℕ → ℕ) → ℕ → ℕ → List ℕ
to_vec buf start zero = []
to_vec buf start (suc len) = buf start ∷ to_vec buf (suc start) len

-- The memory with `len` bytes at `offset` replaced.
abbrev pub splice : (ℕ → ℕ) → ℕ → ℕ → (ℕ → ℕ) → ℕ → ℕ
splice memory offset len buf i =
    if leb offset i && ltb i (offset + len) then buf (i - offset) else memory i

-- The pixels of a frame, if they are inline, and the slot that holds them.
abbrev pub Delivered : Type 0
Delivered = List ℕ × Option SlotSpan

module _ {I : Type 0} (write : ℕ → (ℕ → ℕ) → I → Run ((ℕ → ℕ) × I)) where
  -- No slot is free.
  unfoldable pub produce_inline : ℕ → FramePool → I → Run (Delivered × FramePool × I)
  produce_inline expected_len pool s = do
    r ← write expected_len (λ _. 0) s
    finished ((to_vec r.0 0 expected_len, none), pool, r.1)

  -- What becomes of a written slot: it is published, or copied and freed again.
  unfoldable pub publish :
      ℕ → ℕ → ℕ → (ℕ → ℕ) → I → SlotPush × SlotPool → Run (Delivered × FramePool × I)
  publish slot_idx start written memory s (SlotPush.ok, slots) = finished (
    ([], some (record { start_idx = slot_idx; count = 1 })),
    record { slots = slots; memory = memory },
    s,
  )
  publish slot_idx start written memory s (SlotPush.would_block, slots) = do
    freed ← or_panic (release_free slots slot_idx)
    finished ((to_vec memory start written, none), record { slots = freed; memory = memory }, s)

  unfoldable pub produce_slot : ℕ → ℕ → FramePool → I → Run (Delivered × FramePool × I)
  unfolding publish
  produce_slot expected_len slot_idx pool s = do
    range ← or_panic (slot_mut pool.slots slot_idx)
    let start = range.0
    let usable_len = min expected_len (range.1 - start)
    r ← write usable_len (λ i. pool.memory (start + i)) s
    pushed ← or_panic (push_ready pool.slots slot_idx)
    publish slot_idx start usable_len (splice pool.memory start usable_len r.0) r.1 pushed

  unfoldable pub produce_frame : ℕ → FramePool → I → Run (Delivered × FramePool × I)
  unfolding produce_inline produce_slot
  produce_frame expected_len pool s =
      let (found, slots) = try_acquire_free pool.slots in
      elim found [
        | none ↦ produce_inline expected_len (record pool { slots = slots }) s
        | some idx ↦ produce_slot expected_len idx (record pool { slots = slots }) s
      ]
