-- ===== src/Transport/SlotPool/Lifecycle.antt =====
-- The life of a slot under slot_pool.rs: free, held by the writer, ready, held by the reader, free
-- again. The two sides take their steps in any order, each returning only indices that it holds.
pub mod Ownership
pub mod Moves
pub mod Operations
pub mod Counts
use gbx.Prelude.{ℕ, ◌≡◌, List, [], ◌∷◌, ◌++◌, some}
use gbx.Transport.SlotPool.{
  SlotPool, SlotPush, SlotPop, try_acquire_free, push_ready, pop_ready, release_free,
}

-- A pool with the indices that its two users hold.
pub record System : Type 0 where
  pub pool : SlotPool
  pub writing : List ℕ
  pub reading : List ℕ

pub data Step : System → System → Type 0 where
  acquire :
      (s : System) (i : ℕ) (p : SlotPool)
      → try_acquire_free s.pool ≡ (some i, p)
      → Step s (record { pool = p; writing = i ∷ s.writing; reading = s.reading })
  publish :
      (s : System) (xs : List ℕ) (i : ℕ) (ys : List ℕ) (p : SlotPool)
      → s.writing ≡ xs ++ i ∷ ys
      → push_ready s.pool i ≡ some (SlotPush.ok, p)
      → Step s (record { pool = p; writing = xs ++ ys; reading = s.reading })
  abandon :
      (s : System) (xs : List ℕ) (i : ℕ) (ys : List ℕ) (p : SlotPool)
      → s.writing ≡ xs ++ i ∷ ys
      → release_free s.pool i ≡ some p
      → Step s (record { pool = p; writing = xs ++ ys; reading = s.reading })
  receive :
      (s : System) (i : ℕ) (p : SlotPool)
      → pop_ready s.pool ≡ (SlotPop.ok i, p)
      → Step s (record { pool = p; writing = s.writing; reading = i ∷ s.reading })
  release :
      (s : System) (xs : List ℕ) (i : ℕ) (ys : List ℕ) (p : SlotPool)
      → s.reading ≡ xs ++ i ∷ ys
      → release_free s.pool i ≡ some p
      → Step s (record { pool = p; writing = s.writing; reading = xs ++ ys })

pub data Reach (s : System) : System → Type 0 where
  here : Reach s s
  next : {t u : System} → Reach s t → Step t u → Reach s u
