-- ===== src/Transport/SlotPool/Config.antt =====
-- What `SlotPool::new` accepts, and the byte ranges of the slots.
use gbx.Prelude.{ℕ, zero, suc, ◌+◌, ◌*◌, ◌%◌, ◌^◌, ◌≤◌, ◌<◌, ◌≡◌, arith, refl, sym, ap, ◌∙◌}
use gbx.Prelude.{none, some, []}
use mathlib.Core.Path.{subst}
use native.Mathlib.Nat.{suc-mul}
use gbx.Transport.Region.{TransportResult, err, ◌>>=◌, ◌>>◌, Platform, new_aligned}
use gbx.Transport.Region.Bounds.{HeapAligns, new_aligned-aligned, >>=-ok}
use gbx.Transport.IndexRing.{IndexRing, fill_sequential}
use gbx.Transport.IndexRing
use gbx.Transport.IndexRing.Window.{Holds, range, new-Holds, fill_sequential-Holds}
use gbx.Transport.SlotPool.{SlotPool, SlotPoolConfig, slot_mut, new, validate_config, slots_len}

-- The slots fill their region, which starts at a page, and are whole cache lines.
pub record HasLayout (pool : SlotPool) : Type 0 where
  pub some_bytes : 0 < pool.slot_size
  pub whole_lines : pool.slot_size % 64 ≡ 0
  pub length : pool.slots.len ≡ pool.slot_size * pool.slot_count
  pub page : pool.slots.base % 4096 ≡ 0

-- A pool as `new` leaves it.
pub record IsFresh (config : SlotPoolConfig) (pool : SlotPool) : Type 0 where
  pub layout : HasLayout pool
  pub count : pool.slot_count ≡ config.slot_count
  pub size : pool.slot_size ≡ config.slot_size
  pub some_slots : 0 < config.slot_count
  pub free_capacity : pool.free_ring.capacity ≡ config.slot_count
  pub ready_capacity : pool.ready_ring.capacity ≡ config.slot_count
  pub all_free : Holds pool.free_ring 0 (range 0 config.slot_count)
  pub none_ready : Holds pool.ready_ring 0 []

validate_config-ok :
    (config : SlotPoolConfig)
    → validate_config config ≡ TransportResult.ok tt
    → (0 < config.slot_count) × (0 < config.slot_size) × (config.slot_size % 64 ≡ 0)
unfolding validate_config
validate_config-ok config h = ground arith

-- Five fallible steps in a row.
chain :
    {A B C D E : Type 0} {e : E} (v : TransportResult (Unit {0})) (l : TransportResult A)
    (g : A → TransportResult B) (f : TransportResult C) (r : TransportResult D) (k : B → C → D → E)
    → (v >> (l >>= λ n. g n >>= λ s. f >>= λ a. r >>= λ b. TransportResult.ok (k s a b)))
      ≡ TransportResult.ok e
    → (n : A) × (s : B) × (a : C) × (b : D) × (v ≡ TransportResult.ok tt)
      × (l ≡ TransportResult.ok n)
      × (g n ≡ TransportResult.ok s)
      × (f ≡ TransportResult.ok a)
      × (r ≡ TransportResult.ok b)
      × (k s a b ≡ e)
chain (TransportResult.ok tt) (TransportResult.ok n) g f r k h =
    let (s, p, h2) = >>=-ok (g n) _ h in
    let (a, q, h3) = >>=-ok f _ h2 in
    let (b, o, h4) = >>=-ok r _ h3 in (n, s, a, b, refl, refl, p, q, o, cc)
chain (TransportResult.ok tt) (err e) g f r k h = cc
chain (err e) l g f r k h = cc

module _ (os : ℕ → Platform) (config : SlotPoolConfig) where
  record Parts (pool : SlotPool) : Type 0 where
    n : ℕ
    free : IndexRing
    valid : validate_config config ≡ TransportResult.ok tt
    fits : slots_len config ≡ TransportResult.ok n
    mapped : new_aligned (os 0) n 4096 ≡ TransportResult.ok pool.slots
    freed : IndexRing.new (os 1) config.slot_count ≡ TransportResult.ok free
    readied : IndexRing.new (os 2) config.slot_count ≡ TransportResult.ok pool.ready_ring
    filled : pool.free_ring ≡ fill_sequential free
    size : pool.slot_size ≡ config.slot_size
    count : pool.slot_count ≡ config.slot_count

  new-Parts : (pool : SlotPool) → new os config ≡ TransportResult.ok pool → Parts pool
  unfolding new
  new-Parts pool h =
      let (n, s, a, b, v, l, g, f, r, e) =
        chain (validate_config config) (slots_len config) (λ n. new_aligned (os 0) n 4096)
          (IndexRing.new (os 1) config.slot_count) (IndexRing.new (os 2) config.slot_count)
          (λ s a b. record {
            slots = s;
            free_ring = fill_sequential a;
            ready_ring = b;
            slot_size = config.slot_size;
            slot_count = config.slot_count;
          })
          h in
      record {
        n = n;
        free = a;
        valid = v;
        fits = l;
        freed = f;
        mapped = g ∙ ap (λ p. TransportResult.ok p.slots) e;
        readied = r ∙ ap (λ p. TransportResult.ok p.ready_ring) e;
        filled = sym (ap (λ p. p.free_ring) e);
        size = sym (ap (λ p. p.slot_size) e);
        count = sym (ap (λ p. p.slot_count) e);
      }

  fits-length :
      (n : ℕ) → slots_len config ≡ TransportResult.ok n → n ≡ config.slot_size * config.slot_count
  unfolding slots_len
  fits-length n h = ground arith

  -- Whatever `new` returns is a pool whose slots fill their region, which is page aligned, all of
  -- them free and none ready.
  pub new-IsFresh :
      (pool : SlotPool)
      → HeapAligns (os 0)
      → config.slot_count < 2 ^ 32
      → new os config ≡ TransportResult.ok pool
      → IsFresh config pool
  new-IsFresh pool aligns small h =
      let p = new-Parts pool h in
      let (some_slots, some_bytes, whole_lines) = validate_config-ok config p.valid in
      let (length, page) = new_aligned-aligned (os 0) p.n 4096 pool.slots aligns p.mapped in
      let (free, free_capacity) =
        new-Holds (os 1) config.slot_count p.free some_slots small p.freed in
      let (ready, ready_capacity) =
        new-Holds (os 2) config.slot_count pool.ready_ring some_slots small p.readied in
      let (all_free, capacity) =
        fill_sequential-Holds p.free config.slot_count free_capacity some_slots small in
      record {
        layout = record {
          some_bytes = omega (arith, p.size);
          whole_lines = omega (arith, p.size);
          length = rw (p.size, p.count) (length ∙ fits-length p.n p.fits);
          page = page;
        };
        count = p.count;
        size = p.size;
        some_slots = some_slots;
        free_capacity = ap (λ r. r.capacity) p.filled ∙ capacity;
        ready_capacity = ready_capacity;
        all_free = subst (λ r. Holds r 0 (range 0 config.slot_count)) (sym p.filled) all_free;
        none_ready = ready;
      }

slot_fits : (i n size : ℕ) → i < n → i * size + size ≤ size * n
slot_fits i n size h = grind arith

slots_apart : (i j size : ℕ) → i < j → i * size + size ≤ j * size
slots_apart i j size h = grind arith

slot_aligned : (i size base : ℕ) → size % 64 ≡ 0 → base % 4096 ≡ 0 → (base + i * size) % 64 ≡ 0
slot_aligned zero size base h k = omega arith
slot_aligned (suc i) size base h k = omega (arith, slot_aligned i size base h k, suc-mul i size)

pub slot_mut_in :
    (pool : SlotPool) (i : ℕ)
    → HasLayout pool
    → i < pool.slot_count
    → slot_mut pool i ≡ some (i * pool.slot_size, i * pool.slot_size + pool.slot_size)
unfolding slot_mut
slot_mut_in pool i l h =
    let fits = slot_fits i pool.slot_count pool.slot_size h in ground (arith, fits, l.length)

slot_mut_out : (pool : SlotPool) (k : ℕ) → pool.slot_count ≤ k → slot_mut pool k ≡ none
unfolding slot_mut
slot_mut_out pool k h = ground arith

-- Of two indices below the count, each names `slot_size` bytes that start at a multiple of 64; the
-- bytes of the smaller end before those of the larger begin, and these end within the region. An
-- index from the count on panics.
pub slot_mut_lem :
    (pool : SlotPool) (i j k : ℕ)
    → HasLayout pool
    → i < j
    → j < pool.slot_count
    → pool.slot_count ≤ k
    → (slot_mut pool i ≡ some (i * pool.slot_size, i * pool.slot_size + pool.slot_size))
      × (slot_mut pool j ≡ some (j * pool.slot_size, j * pool.slot_size + pool.slot_size))
      × ((pool.slots.base + i * pool.slot_size) % 64 ≡ 0)
      × ((pool.slots.base + j * pool.slot_size) % 64 ≡ 0)
      × (i * pool.slot_size + pool.slot_size ≤ j * pool.slot_size)
      × (j * pool.slot_size + pool.slot_size ≤ pool.slots.len)
      × (slot_mut pool k ≡ none)
slot_mut_lem pool i j k l p q r = (
  slot_mut_in pool i l (omega arith),
  slot_mut_in pool j l q,
  slot_aligned i pool.slot_size pool.slots.base l.whole_lines l.page,
  slot_aligned j pool.slot_size pool.slots.base l.whole_lines l.page,
  slots_apart i j pool.slot_size p,
  omega (arith, slot_fits j pool.slot_count pool.slot_size q, l.length),
  slot_mut_out pool k r,
)
