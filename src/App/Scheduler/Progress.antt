-- ===== src/App/Scheduler/Progress.antt =====
-- How many intents `process_intents` (app/src/lib.rs) serves when no service holds it up.
use gbx.Prelude.{ℕ, zero, suc, ◌≡◌, refl, sym, ap, ◌∙◌, inl, inr}
use gbx.Prelude.{false, Bool-cases, Option-cases, List, [], ◌∷◌}
use gbx.App.World.{Speeds, Intent, WorkCmd, work_policy, World, reduce_intent}
use gbx.App.Queues.{PQueues, pop_next}
use gbx.App.Queues.Order.{in_order, pop_next_lem}
use gbx.App.Hub.{ServicesHub, try_submit_work}
use gbx.App.Scheduler.{
  Scheduler, wants_retry, submit_all, process_intent, intents_loop, process_intents,
}
use gbx.App.Scheduler.Intents.{Answers, wants_retry-true, loop_none, loop_some}

-- No command is ever refused.
abbrev pub Accepts : {S : Type 0} → ServicesHub S → Type 0
Accepts {S} hub = (cmd : WorkCmd) (s : S) → Answers (work_policy cmd) (try_submit_work hub cmd s).0

-- The services after each of the commands was submitted to them in order.
abbrev pub submit_each : {S : Type 0} → ServicesHub S → List WorkCmd → S → S
submit_each hub [] s = s
submit_each hub (cmd ∷ cmds) s = submit_each hub cmds (try_submit_work hub cmd s).1

module _ {speeds : Speeds} {S : Type 0} where
  -- The first `n` intents served: the intents that are left, the world and the services.
  abbrev pub serve :
      ServicesHub S
      → ℕ
      → List (Intent speeds)
      → World speeds
      → S
      → List (Intent speeds) × World speeds × S
  serve hub zero q w s = (q, w, s)
  serve hub (suc n) [] w s = ([], w, s)
  serve hub (suc n) (intent ∷ q) w s =
      let (cmds, w) = reduce_intent speeds w intent in serve hub n q w (submit_each hub cmds s)

answered :
    {S : Type 0} (hub : ServicesHub S) (cmd : WorkCmd) (s : S)
    → Accepts hub
    → wants_retry (work_policy cmd) (try_submit_work hub cmd s).0 ≡ false
answered hub cmd s a =
    let outcome = (try_submit_work hub cmd s).0 in
    elim (Bool-cases (wants_retry (work_policy cmd) outcome)) [
      | inl h ↦ elim (wants_retry-true (work_policy cmd) outcome h) [
        | inl closed ↦ absurd ((a cmd s).0 closed)
        | inr (reliable, blocks) ↦ absurd ((a cmd s).1 reliable blocks)
      ]
      | inr h ↦ h
    ]

submit_all-Accepts :
    {S : Type 0} (hub : ServicesHub S) (cmds : List WorkCmd) (s : S)
    → Accepts hub
    → submit_all hub cmds s ≡ (false, submit_each hub cmds s)
unfolding submit_all
submit_all-Accepts hub [] s a = refl
submit_all-Accepts hub (cmd ∷ cmds) s a =
    rw (answered hub cmd s a, submit_all)
      (submit_all-Accepts hub cmds (try_submit_work hub cmd s).1 a)

module _ {speeds : Speeds} {S : Type 0} where
  -- What the loop changes, with the pending intents in the order of service.
  abbrev pub view : Scheduler speeds S → List (Intent speeds) × World speeds × S
  view sch = (in_order sch.intent_queues, sch.world, sch.services)

  served :
      (sch : Scheduler speeds S) (intent : Intent speeds) (popped : PQueues (Intent speeds))
      → Accepts sch.hub
      → let (cmds, world) = reduce_intent speeds sch.world intent in
        process_intent sch intent popped ≡ record sch {
          world = world;
          services = submit_each sch.hub cmds sch.services;
          intent_queues = popped;
        }
  unfolding process_intent
  served sch intent popped a =
      rw (submit_all-Accepts sch.hub (reduce_intent speeds sch.world intent).0 sch.services a) refl

  loop_served :
      (n : ℕ) (sch : Scheduler speeds S)
      → Accepts sch.hub
      → view (intents_loop n sch)
        ≡ serve sch.hub n (in_order sch.intent_queues) sch.world sch.services
  unfolding intents_loop
  loop_served zero sch a = refl
  loop_served (suc n) sch a = elim (Option-cases (pop_next sch.intent_queues)) [
    | inl empty ↦ rw (loop_none (suc n) sch empty, (pop_next_lem sch.intent_queues).0 empty) refl
    | inr (p, found) ↦
        let (cmds, world) = reduce_intent speeds sch.world p.0 in
        let next : Scheduler speeds S = record sch {
          world = world;
          services = submit_each sch.hub cmds sch.services;
          intent_queues = p.1;
        } in
        ap view (loop_some n sch p.0 p.1 found)
        ∙ ap (λ k. view (intents_loop n k)) (served sch p.0 p.1 a)
        ∙ loop_served n next a
        ∙ ap (λ q. serve sch.hub (suc n) q sch.world sch.services)
            (sym ((pop_next_lem sch.intent_queues).1 p.1 p.0 found))
  ]

  -- When no service refuses a command, `process_intents` serves as many intents as its budget, or
  -- all of them if there are fewer: in the order of priority, each reduced by the world as the one
  -- before left it, and all its commands submitted in order. Just the other intents stay pending,
  -- in their order, and world and services are those after the last command.
  pub process_intents_served :
      (sch : Scheduler speeds S)
      → Accepts sch.hub
      → let after = process_intents sch in
        (in_order after.intent_queues, after.world, after.services)
        ≡ serve sch.hub sch.intent_budget (in_order sch.intent_queues) sch.world sch.services
  unfolding process_intents
  process_intents_served sch a = loop_served sch.intent_budget sch a
