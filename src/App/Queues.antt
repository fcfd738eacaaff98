-- ===== src/App/Queues.antt =====
-- The priority queues of crates/05-app-loop/app/src/priority.rs; a deque is a list, front first.
pub mod Order
use gbx.Prelude.{
  ℕ, ◌&&◌, Bool, true, false, if◌then◌else◌, Option, none, some, List, [], ◌∷◌, ◌++◌, length,
}
use gbx.App.World.{IntentPriority, p0, p1, p2}

pub record PQueues {ℓ} (T : Type ℓ) : Type ℓ where
  pub p0 : List T
  pub p1 : List T
  pub p2 : List T

module _ {ℓ} {T : Type ℓ} where
  abbrev pub is_nil : List T → Bool
  is_nil [] = true
  is_nil (x ∷ xs) = false

  unfoldable pub new : PQueues T
  new = record { p0 = []; p1 = []; p2 = [] }

  unfoldable pub is_empty : PQueues T → Bool
  is_empty q = is_nil q.p0 && is_nil q.p1 && is_nil q.p2

  unfoldable pub len_per_priority : PQueues T → ℕ × ℕ × ℕ
  len_per_priority q = (length q.p0, length q.p1, length q.p2)

  unfoldable pub enqueue : PQueues T → IntentPriority → T → PQueues T
  enqueue q IntentPriority.p0 item = record q { p0 = q.p0 ++ item ∷ [] }
  enqueue q IntentPriority.p1 item = record q { p1 = q.p1 ++ item ∷ [] }
  enqueue q IntentPriority.p2 item = record q { p2 = q.p2 ++ item ∷ [] }

  unfoldable pub enqueue_front_p0 : PQueues T → T → PQueues T
  enqueue_front_p0 q item = record q { p0 = item ∷ q.p0 }

  -- `VecDeque::pop_front`
  abbrev pub pop_front : List T → Option (T × List T)
  pop_front [] = none
  pop_front (x ∷ xs) = some (x, xs)

  unfoldable pub pop_next : PQueues T → Option (T × PQueues T)
  pop_next q = elim (pop_front q.p0) [
    | some (x, rest) ↦ some (x, record q { p0 = rest })
    | none ↦ elim (pop_front q.p1) [
      | some (x, rest) ↦ some (x, record q { p1 = rest })
      | none ↦ elim (pop_front q.p2) [
        | some (x, rest) ↦ some (x, record q { p2 = rest })
        | none ↦ none
      ]
    ]
  ]

  unfoldable pub current_priority : PQueues T → Option IntentPriority
  current_priority q =
      if is_nil q.p0
      then (if is_nil q.p1
          then (if is_nil q.p2 then none else some IntentPriority.p2)
          else some IntentPriority.p1)
      else some IntentPriority.p0
