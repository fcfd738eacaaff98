-- ===== src/App/Queues/Order.antt =====
-- The order in which priority.rs serves its items.
use mathlib.Core.List.{append_assoc}
use gbx.Prelude.{◌≡◌, refl, arith, none, some, List, [], ◌∷◌, ◌++◌}
use gbx.App.World.{IntentPriority}
use gbx.App.Queues.{PQueues, pop_next, enqueue, enqueue_front_p0}

module _ {ℓ} {T : Type ℓ} where
  -- The items in the order of service.
  abbrev pub in_order : PQueues T → List T
  in_order q = q.p0 ++ q.p1 ++ q.p2

  -- Only the parts before and after an item of each priority.
  abbrev pub served_before : PQueues T → IntentPriority → List T
  served_before q IntentPriority.p0 = q.p0
  served_before q IntentPriority.p1 = q.p0 ++ q.p1
  served_before q IntentPriority.p2 = q.p0 ++ q.p1 ++ q.p2

  abbrev pub served_after : PQueues T → IntentPriority → List T
  served_after q IntentPriority.p0 = q.p1 ++ q.p2
  served_after q IntentPriority.p1 = q.p2
  served_after q IntentPriority.p2 = []

  abbrev queues : List T → List T → List T → PQueues T
  queues a b c = record { p0 = a; p1 = b; p2 = c }

  parts_none : (a b c : List T) → pop_next (queues a b c) ≡ none → a ++ b ++ c ≡ []
  unfolding pop_next
  parts_none [] [] [] h = refl
  parts_none [] [] (x ∷ c) h = cc
  parts_none [] (x ∷ b) c h = cc
  parts_none (x ∷ a) b c h = cc

  parts_some :
      (a b c : List T) (rest : PQueues T) (x : T)
      → pop_next (queues a b c) ≡ some (x, rest)
      → a ++ b ++ c ≡ x ∷ in_order rest
  unfolding pop_next
  parts_some [] [] [] rest x h = cc
  parts_some [] [] (y ∷ c) rest x h = ground arith
  parts_some [] (y ∷ b) c rest x h = ground arith
  parts_some (y ∷ a) b c rest x h = ground arith

  -- `pop_next` takes the items in the order of service, and finds none only if there is none.
  pub pop_next_lem :
      (q : PQueues T)
      → (pop_next q ≡ none → in_order q ≡ [])
        × ((rest : PQueues T) (x : T)
            → pop_next q ≡ some (x, rest)
            → in_order q ≡ x ∷ in_order rest)
  pop_next_lem q = (parts_none q.p0 q.p1 q.p2, parts_some q.p0 q.p1 q.p2)

  -- An item is served after those of its own and the higher priorities, and before the others.
  pub in_order-enqueue :
      (q : PQueues T) (p : IntentPriority) (item : T)
      → in_order (enqueue q p item) ≡ served_before q p ++ item ∷ served_after q p
  unfolding enqueue
  in_order-enqueue q IntentPriority.p0 item = simp append_assoc
  in_order-enqueue q IntentPriority.p1 item = simp append_assoc
  in_order-enqueue q IntentPriority.p2 item = simp append_assoc

  -- An item put at the front of P0 is served next.
  pub in_order-enqueue_front_p0 :
      (q : PQueues T) (item : T) → in_order (enqueue_front_p0 q item) ≡ item ∷ in_order q
  unfolding enqueue_front_p0
  in_order-enqueue_front_p0 q item = refl
