-- ===== src/Transport/IndexRing.antt =====
-- The ring of slot indices, `IndexRing` of crates/01-transport/transport/src/slot_pool.rs. A push
-- that finds the ring full is `none`. The wake-ups, and the waits of the callers, change no state.
pub mod Window
use gbx.Prelude.{ℕ, zero, suc, ◌+◌, ◌*◌, ◌%◌, u32, sub_u32, update}
use gbx.Transport.Region.{TransportResult, ok, ◌>>=◌, Platform, SharedRegion, new_aligned}
use gbx.Prelude.{leb, ◌==◌, if◌then◌else◌, Option, none, some}

pub record IndexRing : Type 0 where
  pub region : SharedRegion
  pub capacity : ℕ
  pub head : ℕ
  pub tail : ℕ
  pub entries : ℕ → ℕ

-- The header of 32 bytes is followed by the entries of 4 bytes, all zeroed.
unfoldable pub new : Platform → ℕ → TransportResult IndexRing
new os capacity = new_aligned os (32 + 4 * capacity) 8 >>= λ region.
    ok (record { region = region; capacity = capacity; head = 0; tail = 0; entries = λ _. 0 })

unfoldable pub len : IndexRing → ℕ
len r = sub_u32 r.head r.tail

unfoldable pub push : IndexRing → ℕ → Option IndexRing
push r value =
    if leb r.capacity (sub_u32 r.head r.tail)
    then none
    else some (record r {
      entries = update r.entries (r.head % r.capacity) value;
      head = u32 (r.head + 1);
    })

unfoldable pub pop : IndexRing → Option (ℕ × IndexRing)
pop r =
    if r.tail == r.head
    then none
    else some (r.entries (r.tail % r.capacity), record r { tail = u32 (r.tail + 1) })

-- `for (i, entry) in entries.iter_mut().enumerate()`, from `i` on with `left` rounds to go.
unfoldable pub fill_loop : ℕ → ℕ → (ℕ → ℕ) → ℕ → ℕ
fill_loop zero i entries = entries
fill_loop (suc left) i entries = fill_loop left (i + 1) (update entries i i)

unfoldable pub fill_sequential : IndexRing → IndexRing
fill_sequential r = record r {
  entries = fill_loop r.capacity 0 r.entries;
  tail = 0;
  head = r.capacity;
}
