-- ===== src/Transport/SlotPool/Lifecycle/Ownership.antt =====
-- Every slot of a pool (slot_pool.rs) has one place, whatever the order of the steps.
use mathlib.Core.Path.{subst}
use gbx.Prelude.{refl, ℕ, suc, ◌+◌, ◌%◌, ◌^◌, ◌≤◌, ◌<◌, ◌≡◌, arith, ltb, if◌then◌else◌}
use gbx.Prelude.{Option, none, List, [], ◌∷◌, ◌++◌, length, some}
use gbx.Transport.Region.{TransportResult, Platform}
use gbx.Transport.Region.Bounds.{HeapAligns}
use gbx.Transport.IndexRing.Window.{range, length-range, len-Holds}
use gbx.Transport.SlotPool.{
  SlotPool, SlotPoolConfig, SlotPush, SlotPop, new, try_acquire_free, push_ready, pop_ready,
  release_free, free_len, ready_len,
}
use gbx.Transport.SlotPool.Config.{IsFresh, new-IsFresh}
use gbx.Transport.SlotPool.Lifecycle.{
  System, Step, acquire, publish, abandon, receive, release, Reach, here, next,
}
use gbx.Transport.SlotPool.Lifecycle.Counts.{count, count-range, occurs_self}
use gbx.Transport.SlotPool.Lifecycle.Moves.{Owned}
use gbx.Transport.SlotPool.Lifecycle.Operations.{
  acquire-Owned, pop_ready-Owned, push_ready-Owned, abandon-Owned, release_free-Owned,
}

-- The system at the start: a new pool, nothing held.
abbrev pub start : SlotPool → System
start pool = record { pool = pool; writing = []; reading = [] }

abbrev pub Sound : ℕ → System → Type 0
Sound n s = Owned n s.pool s.writing s.reading

pub fresh-Sound :
    (config : SlotPoolConfig) (pool : SlotPool)
    → IsFresh config pool
    → Sound config.slot_count (start pool)
fresh-Sound config pool f = record {
  free_at = 0;
  ready_at = 0;
  free = range 0 config.slot_count;
  ready = [];
  layout = f.layout;
  is_owned = record {
    count_is = f.count;
    free_capacity = f.free_capacity;
    ready_capacity = f.ready_capacity;
    free_ring = f.all_free;
    ready_ring = f.none_ready;
    total = omega (arith, length-range 0 config.slot_count);
    once = λ i. ground (arith, count-range i 0 config.slot_count);
  };
}

module _ (n : ℕ) (divides : 4294967296 % n ≡ 0) where
  Step-Sound : {s t : System} → Step s t → Sound n s → Sound n t
  Step-Sound (acquire s i p h) o =
      acquire-Owned n divides s.pool o.layout s.writing s.reading o.free_at o.ready_at o.free
        o.ready i p o.is_owned h
  Step-Sound (publish s xs i ys p e h) o =
      let (q, done, owned) =
        push_ready-Owned n divides s.pool o.layout s.writing s.reading o.free_at o.ready_at o.free
          o.ready xs i ys e o.is_owned in
      let same : q ≡ p = cc in subst (λ p. Owned n p (xs ++ ys) s.reading) same owned
  Step-Sound (abandon s xs i ys p e h) o =
      let (q, done, owned) =
        abandon-Owned n divides s.pool o.layout s.writing s.reading o.free_at o.ready_at o.free
          o.ready xs i ys e o.is_owned in
      let same : q ≡ p = cc in subst (λ p. Owned n p (xs ++ ys) s.reading) same owned
  Step-Sound (receive s i p h) o =
      pop_ready-Owned n divides s.pool o.layout s.writing s.reading o.free_at o.ready_at o.free
        o.ready i p o.is_owned h
  Step-Sound (release s xs i ys p e h) o =
      let (q, done, owned) =
        release_free-Owned n divides s.pool o.layout s.writing s.reading o.free_at o.ready_at o.free
          o.ready xs i ys e o.is_owned in
      let same : q ≡ p = cc in subst (λ p. Owned n p s.writing (xs ++ ys)) same owned

  Reach-Sound : {s t : System} → Sound n s → Reach s t → Sound n t
  Reach-Sound o here = o
  Reach-Sound o (next r st) = Step-Sound st (Reach-Sound o r)

-- Nobody holds the slot, and its index names one.
abbrev pub IsUnheld : ℕ → System → Option ℕ → Type 0
IsUnheld n s none = Unit
IsUnheld n s (some i) = (count i s.writing + count i s.reading ≡ 0) × (i < n)

abbrev pub popped : SlotPop → Option ℕ
popped SlotPop.empty = none
popped (SlotPop.ok i) = some i

nobody_holds :
    (n i a b c d : ℕ) → a + b + suc (c + d) ≡ (if ltb i n then 1 else 0) → (c + d ≡ 0) × (i < n)
nobody_holds n i a b c d h = ground arith

module _ (os : ℕ → Platform) (config : SlotPoolConfig) (pool : SlotPool) (s : System)
    (aligns : HeapAligns (os 0)) (divides : 4294967296 % config.slot_count ≡ 0)
    (small : config.slot_count < 2 ^ 32) (created : new os config ≡ TransportResult.ok pool)
    (reached : Reach (start pool) s) where
  reached-Sound : Sound config.slot_count s
  reached-Sound =
      Reach-Sound config.slot_count divides
        (fresh-Sound config pool (new-IsFresh os config pool aligns small created)) reached

  acquired-IsUnheld :
      (found : Option ℕ) (p : SlotPool)
      → try_acquire_free s.pool ≡ (found, p)
      → IsUnheld config.slot_count s found
  acquired-IsUnheld none p h = tt
  acquired-IsUnheld (some i) p h =
      let o = reached-Sound in
      let moved =
        acquire-Owned config.slot_count divides s.pool o.layout s.writing s.reading o.free_at
          o.ready_at o.free o.ready i p o.is_owned h in
      nobody_holds config.slot_count i (count i moved.free) (count i moved.ready)
        (count i s.writing) (count i s.reading)
        (omega (arith, moved.is_owned.once i, occurs_self i))

  received-IsUnheld :
      (found : SlotPop) (p : SlotPool)
      → pop_ready s.pool ≡ (found, p)
      → IsUnheld config.slot_count s (popped found)
  received-IsUnheld SlotPop.empty p h = tt
  received-IsUnheld (SlotPop.ok i) p h =
      let o = reached-Sound in
      let moved =
        pop_ready-Owned config.slot_count divides s.pool o.layout s.writing s.reading o.free_at
          o.ready_at o.free o.ready i p o.is_owned h in
      nobody_holds config.slot_count i (count i moved.free) (count i moved.ready)
        (count i s.writing) (count i s.reading)
        (omega (arith, moved.is_owned.once i, occurs_self i))

  -- In every state that the two users of a new pool reach, in any order of steps, no slot is held
  -- twice, and the slot that can next be acquired or received, if there is one, is held by nobody
  -- and its index is below the slot count. The slot count divides 2 ^ 32 and the heap aligns its
  -- blocks.
  pub slots_exclusive :
      (i : ℕ)
      → (count i s.writing + count i s.reading ≤ 1)
        × IsUnheld config.slot_count s (try_acquire_free s.pool).0
        × IsUnheld config.slot_count s (popped (pop_ready s.pool).0)
  slots_exclusive i =
      let held = (reached-Sound.is_owned).once i in
      (ground (arith, held), acquired-IsUnheld _ _ refl, received-IsUnheld _ _ refl)

  -- In every state that the two users of a new pool reach the writer can publish each index that it
  -- holds: no panic, and the ready ring has room. The slot count divides 2 ^ 32 and the heap aligns
  -- its blocks.
  pub held_publishes :
      (xs : List ℕ) (i : ℕ) (ys : List ℕ)
      → s.writing ≡ xs ++ i ∷ ys
      → (p : SlotPool) × (push_ready s.pool i ≡ some (SlotPush.ok, p))
  held_publishes xs i ys e =
      let o = reached-Sound in
      let (p, done, _) =
        push_ready-Owned config.slot_count divides s.pool o.layout s.writing s.reading o.free_at
          o.ready_at o.free o.ready xs i ys e o.is_owned in
      (p, done)

  -- In every state that the two users of a new pool reach the reader can release each index that it
  -- holds: no panic, and the free ring has room. The slot count divides 2 ^ 32 and the heap aligns
  -- its blocks.
  pub held_releases :
      (xs : List ℕ) (i : ℕ) (ys : List ℕ)
      → s.reading ≡ xs ++ i ∷ ys
      → (p : SlotPool) × (release_free s.pool i ≡ some p)
  held_releases xs i ys e =
      let o = reached-Sound in
      let (p, done, _) =
        release_free-Owned config.slot_count divides s.pool o.layout s.writing s.reading o.free_at
          o.ready_at o.free o.ready xs i ys e o.is_owned in
      (p, done)

  -- In every state that the two users of a new pool reach the free slots, the ready slots and those
  -- held add up to the slot count. The slot count divides 2 ^ 32 and the heap aligns its blocks.
  pub slots_conserved :
      free_len s.pool + ready_len s.pool + length s.writing + length s.reading ≡ config.slot_count
  unfolding free_len ready_len
  slots_conserved =
      let o = reached-Sound in
      let own = o.is_owned in
      omega (
        arith,
        own.total,
        len-Holds s.pool.free_ring o.free_at o.free own.free_ring,
        len-Holds s.pool.ready_ring o.ready_at o.ready own.ready_ring,
      )
