-- ===== src/Transport/SlotPool/Lifecycle/Operations.antt =====
-- Each operation of slot_pool.rs keeps the invariant of a slot pool in use.
use mathlib.Core.Path.{subst₂}
use gbx.Prelude.{ℕ, suc, ◌+◌, ◌%◌, ◌<◌, ◌≡◌, arith, ap, ltb, if◌then◌else◌}
use gbx.Prelude.{List, [], ◌∷◌, ◌++◌, length, some}
use gbx.Transport.IndexRing.{IndexRing}
use gbx.Transport.IndexRing.Window.{Holds, push-Holds, pop-Holds, pop-empty}
use gbx.Transport.SlotPool.{
  SlotPool, SlotPush, SlotPop, try_acquire_free, push_ready, pop_ready, release_free,
}
use gbx.Transport.SlotPool.Config.{HasLayout}
use gbx.Transport.SlotPool.Lifecycle.Counts.{count, occurs_self, count-middle, length-middle}
use gbx.Transport.SlotPool.Lifecycle.Moves.{
  IsOwned, Owned, first_free, first_ready, last_ready, last_free_written, last_free_read,
}

-- An index that occurs somewhere is below `n`.
occurs-lt : (n i a b c d : ℕ) → a + b + c + d ≡ (if ltb i n then 1 else 0) → 0 < c + d → i < n
occurs-lt n i a b c d e h = ground arith

module _ (n : ℕ) (divides : 4294967296 % n ≡ 0) (pool : SlotPool) (l : HasLayout pool) where
  same_layout_free : (ring : IndexRing) → HasLayout (record pool { free_ring = ring })
  same_layout_free ring = record {
    some_bytes = l.some_bytes;
    whole_lines = l.whole_lines;
    length = l.length;
    page = l.page;
  }

  same_layout_ready : (ring : IndexRing) → HasLayout (record pool { ready_ring = ring })
  same_layout_ready ring = record {
    some_bytes = l.some_bytes;
    whole_lines = l.whole_lines;
    length = l.length;
    page = l.page;
  }

  -- An acquired index stood at the front of the free ring, and moves to the writer.
  pub acquire-Owned :
      (w r : List ℕ) (ft rt : ℕ) (free ready : List ℕ) (i : ℕ) (p : SlotPool)
      → IsOwned n pool w r ft rt free ready
      → try_acquire_free pool ≡ (some i, p)
      → Owned n p (i ∷ w) r
  unfolding try_acquire_free
  acquire-Owned w r ft rt [] ready i p o h =
      let e = pop-empty pool.free_ring ft (rw o.free_capacity divides) o.free_ring in
      ground (arith, e)
  acquire-Owned w r ft rt (x ∷ free) ready i p o h =
      let (ring, e, held, capacity) =
        pop-Holds pool.free_ring ft (rw o.free_capacity divides) x free o.free_ring in
      let same : record pool { free_ring = ring } ≡ p = ground (arith, e) in
      let index : x ≡ i = ground (arith, e) in
      subst₂ (λ q j. Owned n q (j ∷ w) r) same index
        (record {
          free_at = suc ft;
          ready_at = rt;
          free = free;
          ready = ready;
          layout = same_layout_free ring;
          is_owned = first_free n pool w r ft rt ring x free ready o held capacity;
        })

  -- A received index stood at the front of the ready ring, and moves to the reader.
  pub pop_ready-Owned :
      (w r : List ℕ) (ft rt : ℕ) (free ready : List ℕ) (i : ℕ) (p : SlotPool)
      → IsOwned n pool w r ft rt free ready
      → pop_ready pool ≡ (SlotPop.ok i, p)
      → Owned n p w (i ∷ r)
  unfolding pop_ready
  pop_ready-Owned w r ft rt free [] i p o h =
      let e = pop-empty pool.ready_ring rt (rw o.ready_capacity divides) o.ready_ring in
      ground (arith, e)
  pop_ready-Owned w r ft rt free (x ∷ ready) i p o h =
      let (ring, e, held, capacity) =
        pop-Holds pool.ready_ring rt (rw o.ready_capacity divides) x ready o.ready_ring in
      let same : record pool { ready_ring = ring } ≡ p = ground (arith, e) in
      let index : x ≡ i = ground (arith, e) in
      subst₂ (λ q j. Owned n q w (j ∷ r)) same index
        (record {
          free_at = ft;
          ready_at = suc rt;
          free = free;
          ready = ready;
          layout = same_layout_ready ring;
          is_owned = first_ready n pool w r ft rt ring x free ready o held capacity;
        })

  -- The writer can publish any index that it holds: no panic, and the ready ring has room.
  pub push_ready-Owned :
      (w r : List ℕ) (ft rt : ℕ) (free ready xs : List ℕ) (i : ℕ) (ys : List ℕ)
      → w ≡ xs ++ i ∷ ys
      → IsOwned n pool w r ft rt free ready
      → (p : SlotPool) × (push_ready pool i ≡ some (SlotPush.ok, p)) × Owned n p (xs ++ ys) r
  unfolding push_ready
  push_ready-Owned w r ft rt free ready xs i ys e o =
      let many = length-middle xs i ys in
      let (ring, pushed, held, capacity) =
        push-Holds pool.ready_ring rt (rw o.ready_capacity divides) ready i o.ready_ring
          (omega (arith, o.total, o.ready_capacity, ap length e, many)) in
      let small : i < n =
        occurs-lt n i (count i free) (count i ready) (count i w) (count i r) (o.once i)
          (omega (arith, ap (count i) e, count-middle i xs i ys, occurs_self i)) in
      (
        record pool { ready_ring = ring },
        ground (arith, pushed, small, o.count_is),
        record {
          free_at = ft;
          ready_at = rt;
          free = free;
          ready = ready ++ i ∷ [];
          layout = same_layout_ready ring;
          is_owned = last_ready n pool w r ft rt ring xs i ys free ready e o held capacity;
        },
      )

  release_one :
      (w r : List ℕ) (ft rt : ℕ) (free ready : List ℕ) (i : ℕ)
      → IsOwned n pool w r ft rt free ready
      → 0 < count i w + count i r
      → 0 < length w + length r
      → (ring : IndexRing) × (release_free pool i ≡ some (record pool { free_ring = ring }))
        × Holds ring ft (free ++ i ∷ [])
        × (ring.capacity ≡ pool.free_ring.capacity)
  unfolding release_free
  release_one w r ft rt free ready i o here room =
      let (ring, pushed, held, capacity) =
        push-Holds pool.free_ring ft (rw o.free_capacity divides) free i o.free_ring
          (omega (arith, o.total, o.free_capacity)) in
      let small : i < n =
        occurs-lt n i (count i free) (count i ready) (count i w) (count i r) (o.once i) here in
      (ring, ground (arith, pushed, small, o.count_is), held, capacity)

  -- The writer can give back an index that it holds.
  pub abandon-Owned :
      (w r : List ℕ) (ft rt : ℕ) (free ready xs : List ℕ) (i : ℕ) (ys : List ℕ)
      → w ≡ xs ++ i ∷ ys
      → IsOwned n pool w r ft rt free ready
      → (p : SlotPool) × (release_free pool i ≡ some p) × Owned n p (xs ++ ys) r
  abandon-Owned w r ft rt free ready xs i ys e o =
      let (ring, freed, held, capacity) =
        release_one w r ft rt free ready i o
          (omega (arith, ap (count i) e, count-middle i xs i ys, occurs_self i))
          (omega (arith, ap length e, length-middle xs i ys)) in
      (
        _,
        freed,
        record {
          free_at = ft;
          ready_at = rt;
          free = free ++ i ∷ [];
          ready = ready;
          layout = same_layout_free ring;
          is_owned = last_free_written n pool w r ft rt ring xs i ys free ready e o held capacity;
        },
      )

  -- The reader can release an index that it holds: no panic, and the free ring has room.
  pub release_free-Owned :
      (w r : List ℕ) (ft rt : ℕ) (free ready xs : List ℕ) (i : ℕ) (ys : List ℕ)
      → r ≡ xs ++ i ∷ ys
      → IsOwned n pool w r ft rt free ready
      → (p : SlotPool) × (release_free pool i ≡ some p) × Owned n p w (xs ++ ys)
  release_free-Owned w r ft rt free ready xs i ys e o =
      let (ring, freed, held, capacity) =
        release_one w r ft rt free ready i o
          (omega (arith, ap (count i) e, count-middle i xs i ys, occurs_self i))
          (omega (arith, ap length e, length-middle xs i ys)) in
      (
        _,
        freed,
        record {
          free_at = ft;
          ready_at = rt;
          free = free ++ i ∷ [];
          ready = ready;
          layout = same_layout_free ring;
          is_owned = last_free_read n pool w r ft rt ring xs i ys free ready e o held capacity;
        },
      )
