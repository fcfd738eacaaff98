-- ===== src/Transport/SlotPool/Lifecycle/Moves.antt =====
-- The invariant of a slot pool in use (slot_pool.rs), and one index moved in it.
use gbx.Prelude.{ℕ, suc, ◌+◌, ◌≡◌, arith, ltb, if◌then◌else◌}
use gbx.Prelude.{ap, ◌∙◌, List, [], ◌∷◌, ◌++◌, length, length-snoc}
use gbx.Transport.IndexRing.{IndexRing}
use gbx.Transport.IndexRing.Window.{Holds}
use gbx.Transport.SlotPool.{SlotPool}
use gbx.Transport.SlotPool.Config.{HasLayout}
use gbx.Transport.SlotPool.Lifecycle.Counts.{count, count-middle, length-middle, count-snoc}

-- The free ring holds `free`, the ready ring `ready`, and every index below `n` stands once in
-- these two and the lists that the two users hold.
pub record IsOwned (n : ℕ) (pool : SlotPool) (writing reading : List ℕ) (free_at ready_at : ℕ)
    (free ready : List ℕ) : Type 0 where
  pub count_is : pool.slot_count ≡ n
  pub free_capacity : pool.free_ring.capacity ≡ n
  pub ready_capacity : pool.ready_ring.capacity ≡ n
  pub free_ring : Holds pool.free_ring free_at free
  pub ready_ring : Holds pool.ready_ring ready_at ready
  pub total : length free + length ready + length writing + length reading ≡ n
  pub once :
      (i : ℕ)
      → count i free + count i ready + count i writing + count i reading
        ≡ (if ltb i n then 1 else 0)

-- Some contents of the rings make it so.
pub record Owned (n : ℕ) (pool : SlotPool) (writing reading : List ℕ) : Type 0 where
  pub free_at : ℕ
  pub ready_at : ℕ
  pub free : List ℕ
  pub ready : List ℕ
  pub layout : HasLayout pool
  pub is_owned : IsOwned n pool writing reading free_at ready_at free ready

module _ (n : ℕ) (pool : SlotPool) (w r : List ℕ) (ft rt : ℕ) (ring : IndexRing) where
  pub first_free :
      (x : ℕ) (free ready : List ℕ)
      → IsOwned n pool w r ft rt (x ∷ free) ready
      → Holds ring (suc ft) free
      → ring.capacity ≡ pool.free_ring.capacity
      → IsOwned n (record pool { free_ring = ring }) (x ∷ w) r (suc ft) rt free ready
  first_free x free ready o h c = record {
    count_is = o.count_is;
    free_capacity = c ∙ o.free_capacity;
    ready_capacity = o.ready_capacity;
    free_ring = h;
    ready_ring = o.ready_ring;
    total = omega (arith, o.total);
    once = λ i. omega (arith, o.once i);
  }

  pub first_ready :
      (x : ℕ) (free ready : List ℕ)
      → IsOwned n pool w r ft rt free (x ∷ ready)
      → Holds ring (suc rt) ready
      → ring.capacity ≡ pool.ready_ring.capacity
      → IsOwned n (record pool { ready_ring = ring }) w (x ∷ r) ft (suc rt) free ready
  first_ready x free ready o h c = record {
    count_is = o.count_is;
    free_capacity = o.free_capacity;
    ready_capacity = c ∙ o.ready_capacity;
    free_ring = o.free_ring;
    ready_ring = h;
    total = omega (arith, o.total);
    once = λ i. omega (arith, o.once i);
  }

  pub last_ready :
      (xs : List ℕ) (v : ℕ) (ys free ready : List ℕ)
      → w ≡ xs ++ v ∷ ys
      → IsOwned n pool w r ft rt free ready
      → Holds ring rt (ready ++ v ∷ [])
      → ring.capacity ≡ pool.ready_ring.capacity
      → IsOwned n (record pool { ready_ring = ring }) (xs ++ ys) r ft rt free (ready ++ v ∷ [])
  last_ready xs v ys free ready e o h c = record {
    count_is = o.count_is;
    free_capacity = o.free_capacity;
    ready_capacity = c ∙ o.ready_capacity;
    free_ring = o.free_ring;
    ready_ring = h;
    total = omega (arith, o.total, ap length e, length-middle xs v ys, length-snoc ready v);
    once =
        λ i. omega (arith, o.once i, ap (count i) e, count-middle i xs v ys, count-snoc i ready v);
  }

  pub last_free_written :
      (xs : List ℕ) (v : ℕ) (ys free ready : List ℕ)
      → w ≡ xs ++ v ∷ ys
      → IsOwned n pool w r ft rt free ready
      → Holds ring ft (free ++ v ∷ [])
      → ring.capacity ≡ pool.free_ring.capacity
      → IsOwned n (record pool { free_ring = ring }) (xs ++ ys) r ft rt (free ++ v ∷ []) ready
  last_free_written xs v ys free ready e o h c = record {
    count_is = o.count_is;
    free_capacity = c ∙ o.free_capacity;
    ready_capacity = o.ready_capacity;
    free_ring = h;
    ready_ring = o.ready_ring;
    total = omega (arith, o.total, ap length e, length-middle xs v ys, length-snoc free v);
    once =
        λ i. omega (arith, o.once i, ap (count i) e, count-middle i xs v ys, count-snoc i free v);
  }

  pub last_free_read :
      (xs : List ℕ) (v : ℕ) (ys free ready : List ℕ)
      → r ≡ xs ++ v ∷ ys
      → IsOwned n pool w r ft rt free ready
      → Holds ring ft (free ++ v ∷ [])
      → ring.capacity ≡ pool.free_ring.capacity
      → IsOwned n (record pool { free_ring = ring }) w (xs ++ ys) ft rt (free ++ v ∷ []) ready
  last_free_read xs v ys free ready e o h c = record {
    count_is = o.count_is;
    free_capacity = c ∙ o.free_capacity;
    ready_capacity = o.ready_capacity;
    free_ring = h;
    ready_ring = o.ready_ring;
    total = omega (arith, o.total, ap length e, length-middle xs v ys, length-snoc free v);
    once =
        λ i. omega (arith, o.once i, ap (count i) e, count-middle i xs v ys, count-snoc i free v);
  }
