-- ===== src/App/Scheduler.antt =====
-- The scheduler, crates/05-app-loop/app/src/lib.rs, with the state of the services that it calls.
pub mod Intents
pub mod Progress
pub mod Reports
use gbx.Prelude.{ℕ, zero, suc, Bool, true, false, Option, none, some, List, [], ◌∷◌}
use gbx.App.Abi.{SubmitPolicy, must, lossless}
use gbx.App.World
use gbx.App.World.{
  Speeds, IntentPriority, Intent, WorkCmd, work_policy, AvCmd, Report, FollowUps, World,
  reduce_intent, reduce_report,
}
use gbx.App.Queues
use gbx.App.Queues.{PQueues, enqueue_front_p0, pop_next}
use gbx.App.Hub.{ServicesHub, try_submit_work, try_submit_av, drain_reports}
use gbx.Transport.Port.{SubmitOutcome}

-- `matches!(policy, SubmitPolicy::Must | SubmitPolicy::Lossless)`
abbrev pub is_reliable : SubmitPolicy → Bool
is_reliable must = true
is_reliable lossless = true
is_reliable other = false

-- Whether an outcome makes the intent of a command be retried.
abbrev pub wants_retry : SubmitPolicy → SubmitOutcome → Bool
wants_retry policy SubmitOutcome.would_block = is_reliable policy
wants_retry policy SubmitOutcome.closed = true
wants_retry policy other = false

module _ (speeds : Speeds) (S : Type 0) where
  pub record Scheduler : Type 0 where
    pub world : World speeds
    pub hub : ServicesHub S
    pub intent_queues : PQueues (Intent speeds)
    pub intent_budget : ℕ
    pub report_budget : ℕ
    pub services : S

module _ {S : Type 0} where
  -- The loop over the commands of an intent: `needs_retry_front`, and the services after it.
  unfoldable pub submit_all : ServicesHub S → List WorkCmd → S → Bool × S
  submit_all hub [] s = (false, s)
  submit_all hub (cmd ∷ cmds) s =
      let (outcome, after) = try_submit_work hub cmd s in
      let rest = submit_all hub cmds after in
      elim (wants_retry (work_policy cmd) outcome) [ true ↦ (true, after) | false ↦ rest ]

  -- The outcomes of audio and video commands are not used.
  unfoldable pub submit_av : ServicesHub S → List AvCmd → S → S
  submit_av hub [] s = s
  submit_av hub (cmd ∷ cmds) s = submit_av hub cmds (try_submit_av hub cmd s).1

module _ {speeds : Speeds} where
  unfoldable pub enqueue_all :
      List (IntentPriority × Intent speeds) → PQueues (Intent speeds) → PQueues (Intent speeds)
  enqueue_all [] q = q
  enqueue_all ((priority, intent) ∷ rest) q = enqueue_all rest (Queues.enqueue q priority intent)

module _ {speeds : Speeds} {S : Type 0} where
  unfoldable pub with_budgets :
      World speeds → ServicesHub S → (intent_budget report_budget : ℕ) → S → Scheduler speeds S
  with_budgets world hub intent_budget report_budget services = record {
    world = world;
    hub = hub;
    intent_queues = Queues.new;
    intent_budget = intent_budget;
    report_budget = report_budget;
    services = services;
  }

  unfoldable pub new : World speeds → ServicesHub S → S → Scheduler speeds S
  unfolding with_budgets
  new world hub services = with_budgets world hub 3 32 services

  unfoldable pub enqueue_intent :
      Scheduler speeds S → IntentPriority → Intent speeds → Scheduler speeds S
  enqueue_intent sch priority intent = record sch {
    intent_queues = Queues.enqueue sch.intent_queues priority intent;
  }

  -- One round of `process_intents` for the intent popped.
  unfoldable pub process_intent :
      Scheduler speeds S → Intent speeds → PQueues (Intent speeds) → Scheduler speeds S
  process_intent sch intent popped =
      let (commands, world) = reduce_intent speeds sch.world intent in
      let (needs_retry_front, services) = submit_all sch.hub commands sch.services in
      record sch {
        world = world;
        services = services;
        intent_queues = elim needs_retry_front [
          | true ↦ enqueue_front_p0 popped intent
          | false ↦ popped
        ];
      }

  unfoldable pub intents_loop : ℕ → Scheduler speeds S → Scheduler speeds S
  intents_loop zero sch = sch
  intents_loop (suc budget) sch = elim (pop_next sch.intent_queues) [
    | none ↦ sch
    | some (intent, popped) ↦ intents_loop budget (process_intent sch intent popped)
  ]

  unfoldable pub process_intents : Scheduler speeds S → Scheduler speeds S
  process_intents sch = intents_loop sch.intent_budget sch

  unfoldable pub process_report : Scheduler speeds S → Report → Scheduler speeds S
  process_report sch report =
      let (follow_ups, world) = reduce_report speeds sch.world report in
      record sch {
        world = world;
        services = submit_av sch.hub follow_ups.immediate_av sch.services;
        intent_queues = enqueue_all follow_ups.deferred_intents sch.intent_queues;
      }

  unfoldable pub reports_loop : List Report → Scheduler speeds S → Scheduler speeds S
  reports_loop [] sch = sch
  reports_loop (report ∷ reports) sch = reports_loop reports (process_report sch report)

  -- `none` means that the loop of `drain_reports` does not end.
  unfoldable pub process_reports : Scheduler speeds S → Option (List Report × Scheduler speeds S)
  process_reports sch = elim (drain_reports sch.hub sch.report_budget sch.services) [
    | none ↦ none
    | some (reports, services) ↦
        some (reports, reports_loop reports (record sch { services = services }))
  ]

  -- `run_once_collect`; `run_once` does not return the reports.
  unfoldable pub run_once_collect : Scheduler speeds S → Option (List Report × Scheduler speeds S)
  run_once_collect sch = process_reports (process_intents sch)
