-- ===== src/App/Scheduler/Intents.antt =====
-- What `process_intents` (app/src/lib.rs) does to the intents, the world and the services: an
-- independent account of its rounds, over the pending intents in the order of service.
use mathlib.Core.Path.{subst}
use gbx.Prelude.{
  ℕ, zero, suc, ◌≡◌, ◌≢◌, ◌⊎◌, inl, inr, refl, sym, ap, ◌∙◌, arith, true, false, Bool-cases, none,
  some, Option-cases, List, [], ◌∷◌,
}
use gbx.App.Abi.{SubmitPolicy}
use gbx.Transport.Port.{SubmitOutcome}
use gbx.App.World.{Speeds, Intent, WorkCmd, work_policy, World, reduce_intent}
use gbx.App.Queues.{PQueues, pop_next, enqueue_front_p0}
use gbx.App.Queues.Order.{in_order, pop_next_lem, in_order-enqueue_front_p0}
use gbx.App.Hub.{ServicesHub, try_submit_work}
use gbx.App.Scheduler.{
  Scheduler, is_reliable, wants_retry, submit_all, process_intent, intents_loop, process_intents,
}

-- The policies that promise delivery.
abbrev pub IsReliable : SubmitPolicy → Type 0
IsReliable policy = (policy ≡ SubmitPolicy.must) ⊎ (policy ≡ SubmitPolicy.lossless)

-- The outcome holds the intent of a command with this policy up.
abbrev pub Refuses : SubmitPolicy → SubmitOutcome → Type 0
Refuses policy outcome =
    (outcome ≡ SubmitOutcome.closed) ⊎ (IsReliable policy × (outcome ≡ SubmitOutcome.would_block))

-- The outcome lets it go on.
abbrev pub Answers : SubmitPolicy → SubmitOutcome → Type 0
Answers policy outcome =
    (outcome ≢ SubmitOutcome.closed) × (IsReliable policy → outcome ≢ SubmitOutcome.would_block)

pub wants_retry-true :
    (policy : SubmitPolicy) (outcome : SubmitOutcome)
    → wants_retry policy outcome ≡ true
    → Refuses policy outcome
wants_retry-true policy SubmitOutcome.closed h = inl refl
wants_retry-true SubmitPolicy.must SubmitOutcome.would_block h = inr (inl refl, refl)
wants_retry-true SubmitPolicy.lossless SubmitOutcome.would_block h = inr (inr refl, refl)
wants_retry-true SubmitPolicy.coalesce SubmitOutcome.would_block h = cc h
wants_retry-true SubmitPolicy.best_effort SubmitOutcome.would_block h = cc h
wants_retry-true policy other h = cc h

wants_retry-false :
    (policy : SubmitPolicy) (outcome : SubmitOutcome)
    → wants_retry policy outcome ≡ false
    → Answers policy outcome
wants_retry-false policy outcome h = (
  λ e. cc (sym (ap (wants_retry policy) e) ∙ h),
  λ (r : IsReliable policy). λ e. elim r [
    | inl p ↦ cc (sym (ap is_reliable p) ∙ sym (ap (wants_retry policy) e) ∙ h)
    | inr p ↦ cc (sym (ap is_reliable p) ∙ sym (ap (wants_retry policy) e) ∙ h)
  ],
)

module _ {S : Type 0} (hub : ServicesHub S) where
  -- The commands were submitted in order, from one state of the services to the other, and each was
  -- answered.
  abbrev pub Delivers : List WorkCmd → S → S → Type 0
  Delivers [] s last = last ≡ s
  Delivers (cmd ∷ cmds) s last =
      Answers (work_policy cmd) (try_submit_work hub cmd s).0
      × Delivers cmds (try_submit_work hub cmd s).1 last

  -- They were submitted in order up to the first that was refused.
  abbrev pub Stalls : List WorkCmd → S → S → Type 0
  Stalls [] s last = ⊥
  Stalls (cmd ∷ cmds) s last =
      (Refuses (work_policy cmd) (try_submit_work hub cmd s).0
        × (last ≡ (try_submit_work hub cmd s).1))
      ⊎ (Answers (work_policy cmd) (try_submit_work hub cmd s).0
          × Stalls cmds (try_submit_work hub cmd s).1 last)

  pub submit_all-Delivers :
      (cmds : List WorkCmd) (s : S)
      → (submit_all hub cmds s).0 ≡ false
      → Delivers cmds s (submit_all hub cmds s).1
  unfolding submit_all
  submit_all-Delivers [] s h = refl
  submit_all-Delivers (cmd ∷ cmds) s h =
      let (outcome, after) = try_submit_work hub cmd s in
      elim (Bool-cases (wants_retry (work_policy cmd) outcome)) [
        | inl retried ↦ ground (arith, retried)
        | inr answered ↦
            rw (answered, submit_all)
              (
                wants_retry-false (work_policy cmd) outcome answered,
                submit_all-Delivers cmds after (ground (arith, answered)),
              )
      ]

  pub submit_all-Stalls :
      (cmds : List WorkCmd) (s : S)
      → (submit_all hub cmds s).0 ≡ true
      → Stalls cmds s (submit_all hub cmds s).1
  unfolding submit_all
  submit_all-Stalls [] s h = ground arith
  submit_all-Stalls (cmd ∷ cmds) s h =
      let (outcome, after) = try_submit_work hub cmd s in
      elim (Bool-cases (wants_retry (work_policy cmd) outcome)) [
        | inl retried ↦
            rw (retried, submit_all)
              (inl (wants_retry-true (work_policy cmd) outcome retried, refl))
        | inr answered ↦
            rw (answered, submit_all)
              (inr (
                wants_retry-false (work_policy cmd) outcome answered,
                submit_all-Stalls cmds after (ground (arith, answered)),
              ))
      ]

module _ {speeds : Speeds} {S : Type 0} (hub : ServicesHub S) where
  -- At most `n` rounds from the pending intents, the world and the services to those after them. A
  -- round takes the first intent: the world reduces it, and its commands go to the services as they
  -- then are. If each is answered the intent is done with; if not it stays in front, and the next
  -- round begins with the world and the services as this one left them.
  pub data Rounds
      : ℕ
        → List (Intent speeds)
        → World speeds
        → S
        → List (Intent speeds)
        → World speeds
        → S
        → Type 0 where
    spent : (q : List (Intent speeds)) (w : World speeds) (s : S) → Rounds 0 q w s q w s
    idle : (n : ℕ) (w : World speeds) (s : S) → Rounds n [] w s [] w s
    done :
        (n : ℕ) (intent : Intent speeds) (q q₂ : List (Intent speeds)) (w w₂ : World speeds)
        (s s₁ s₂ : S)
        → Delivers hub (reduce_intent speeds w intent).0 s s₁
        → Rounds n q (reduce_intent speeds w intent).1 s₁ q₂ w₂ s₂
        → Rounds (suc n) (intent ∷ q) w s q₂ w₂ s₂
    held :
        (n : ℕ) (intent : Intent speeds) (q q₂ : List (Intent speeds)) (w w₂ : World speeds)
        (s s₁ s₂ : S)
        → Stalls hub (reduce_intent speeds w intent).0 s s₁
        → Rounds n (intent ∷ q) (reduce_intent speeds w intent).1 s₁ q₂ w₂ s₂
        → Rounds (suc n) (intent ∷ q) w s q₂ w₂ s₂

module _ {speeds : Speeds} {S : Type 0} where
  pub loop_none :
      (n : ℕ) (sch : Scheduler speeds S)
      → pop_next sch.intent_queues ≡ none
      → intents_loop n sch ≡ sch
  unfolding intents_loop
  loop_none zero sch h = refl
  loop_none (suc n) sch h = ground (arith, h)

  pub loop_some :
      (n : ℕ) (sch : Scheduler speeds S) (intent : Intent speeds) (popped : PQueues (Intent speeds))
      → pop_next sch.intent_queues ≡ some (intent, popped)
      → intents_loop (suc n) sch ≡ intents_loop n (process_intent sch intent popped)
  unfolding intents_loop
  loop_some n sch intent popped h = ground (arith, h)

  -- The scheduler's own rounds are of that kind.
  abbrev pub Processes : ℕ → Scheduler speeds S → Scheduler speeds S → Type 0
  Processes n before after =
      Rounds before.hub n (in_order before.intent_queues) before.world before.services
        (in_order after.intent_queues) after.world after.services

  round-Processes :
      (n : ℕ) (sch after : Scheduler speeds S) (intent : Intent speeds)
      (popped : PQueues (Intent speeds))
      → pop_next sch.intent_queues ≡ some (intent, popped)
      → Processes n (process_intent sch intent popped) after
      → Processes (suc n) sch after
  unfolding process_intent
  round-Processes n sch after intent popped found rest =
      let front = (pop_next_lem sch.intent_queues).1 popped intent found in
      let cmds = (reduce_intent speeds sch.world intent).0 in
      let next = process_intent sch intent popped in
      let Rest : List (Intent speeds) → Type 0 = λ q.
        Rounds sch.hub n q next.world next.services (in_order after.intent_queues) after.world
          after.services in
      subst
        (λ q.
          Rounds sch.hub (suc n) q sch.world sch.services (in_order after.intent_queues) after.world
            after.services)
        (sym front)
        (elim (Bool-cases (submit_all sch.hub cmds sch.services).0) [
          | inl refused ↦
              let queues : next.intent_queues ≡ enqueue_front_p0 popped intent =
                ground (arith, refused) in
              Rounds.held n intent (in_order popped) (in_order after.intent_queues) sch.world
                after.world sch.services next.services after.services
                (submit_all-Stalls sch.hub cmds sch.services refused)
                (subst Rest (ap in_order queues ∙ in_order-enqueue_front_p0 popped intent) rest)
          | inr answered ↦
              let queues : next.intent_queues ≡ popped = ground (arith, answered) in
              Rounds.done n intent (in_order popped) (in_order after.intent_queues) sch.world
                after.world sch.services next.services after.services
                (submit_all-Delivers sch.hub cmds sch.services answered)
                (subst Rest (ap in_order queues) rest)
        ])

  intents_loop-Processes : (n : ℕ) (sch : Scheduler speeds S) → Processes n sch (intents_loop n sch)
  unfolding intents_loop
  intents_loop-Processes zero sch = Rounds.spent (in_order sch.intent_queues) sch.world sch.services
  intents_loop-Processes (suc n) sch = elim (Option-cases (pop_next sch.intent_queues)) [
    | inl empty ↦
        rw (loop_none (suc n) sch empty, (pop_next_lem sch.intent_queues).0 empty)
          (Rounds.idle (suc n) sch.world sch.services)
    | inr (p, found) ↦ subst (Processes (suc n) sch) (sym (loop_some n sch p.0 p.1 found)) (
        round-Processes n sch (intents_loop n (process_intent sch p.0 p.1)) p.0 p.1 found
          (intents_loop-Processes n (process_intent sch p.0 p.1)))
  ]

  -- With its budget as the number of rounds, `process_intents` serves the pending intents as the
  -- account does: in the order of priority, each reduced by the world as it then is, and its
  -- commands submitted in order to the services as they then are. It is done with an intent if no
  -- command was refused by a closed service, nor one with the policy `must` or `lossless` by
  -- `would_block`; else the rest of its commands waits, and it is pending in front of the others
  -- again. World, services and pending intents after it are those after the last round.
  pub process_intents_lem :
      (sch : Scheduler speeds S)
      → let after = process_intents sch in
        Rounds sch.hub sch.intent_budget
          (in_order sch.intent_queues)
          sch.world
          sch.services
          (in_order after.intent_queues)
          after.world
          after.services
  unfolding process_intents
  process_intents_lem sch = intents_loop-Processes sch.intent_budget sch
