-- ===== src/Services/Admission.antt =====
-- What a submission does to a queue of reports (services-common).
use gbx.Prelude.{
  ℕ, zero, suc, ◌+◌, ◌≤◌, ◌<◌, ◌≡◌, min, refl, ap, ◌∙◌, arith, ltb, true, false, List, [], ◌∷◌,
  ◌++◌, length, Bool-cases, ◌⊎◌, inl, inr,
}
use gbx.Prelude.Runs.{Run, finished}
use gbx.App.Abi.{SubmitPolicy, must, coalesce, best_effort, lossless}
use gbx.Transport.Port.{SubmitOutcome, accepted, coalesced, dropped, would_block}
use gbx.Services.{evict, admit, try_submit_queue, drain_loop, drain_queue}

-- How a submission of a command with the reports `made` changes the queue and the service.
pub data Effect {S Rep : Type 0} (capacity needed : ℕ) (queue made : List Rep) (s t : S)
    : SubmitPolicy → SubmitOutcome → List Rep → S → Type 0 where
  -- There was room.
  takes :
      (policy : SubmitPolicy)
      → length queue + needed ≤ capacity
      → Effect capacity needed queue made s t policy accepted (queue ++ made) t
  -- The oldest reports gave way, no more than needed.
  replaces :
      (old : Rep) (olds kept : List Rep)
      → queue ≡ (old ∷ olds) ++ kept
      → (length kept + needed ≡ capacity)
      → Effect capacity needed queue made s t coalesce coalesced (kept ++ made) t
  drops :
      capacity < length queue + needed
      → Effect capacity needed queue made s t best_effort dropped queue s
  -- No queue has room for so many reports, and the waiting ones are lost.
  clears : capacity < needed → Effect capacity needed queue made s t coalesce would_block [] s
  blocks_must :
      capacity < length queue + needed
      → Effect capacity needed queue made s t must would_block queue s
  blocks_lossless :
      capacity < length queue + needed
      → Effect capacity needed queue made s t lossless would_block queue s

-- The queue is full for `needed` more reports, or the eviction takes a front part of it.
evict_full :
    {Rep : Type 0} (capacity needed : ℕ) (r : Rep) (rs : List Rep)
    → capacity < length (r ∷ rs) + needed
    → (olds kept : List Rep) × (evict capacity needed (r ∷ rs) ≡ (kept, true))
      × (r ∷ rs ≡ (r ∷ olds) ++ kept)
      × ((length kept + needed ≡ capacity) ⊎ ((kept ≡ []) × (capacity < needed)))
unfolding evict
evict_full capacity needed r [] h = ([], [], ground arith, refl, ground arith)
evict_full capacity needed r (q ∷ qs) h =
    elim (Bool-cases (ltb capacity (length (q ∷ qs) + needed))) [
      | inl full ↦
          let (olds, kept, evicted, split, left) = evict_full capacity needed q qs (ground arith) in
          (q ∷ olds, kept, ground (arith, evicted), ap (λ l. r ∷ l) split, left)
      | inr room ↦ ([], q ∷ qs, ground arith, refl, inl (ground arith))
    ]

evict_nil :
    {Rep : Type 0} (capacity needed : ℕ) → evict {Rep = Rep} capacity needed [] ≡ ([], false)
unfolding evict
evict_nil capacity needed = refl

evict_room :
    {Rep : Type 0} (capacity needed : ℕ) (queue : List Rep)
    → length queue + needed ≤ capacity
    → evict capacity needed queue ≡ (queue, false)
unfolding evict
evict_room capacity needed [] h = refl
evict_room capacity needed (r ∷ rs) h = ground arith

module _ {S Rep : Type 0} (materialise : S → Run (List Rep × S)) (capacity needed : ℕ) (s t : S)
    (made : List Rep) (makes : materialise s ≡ finished (made, t)) where
  abbrev Submits : SubmitPolicy → List Rep → Type 0
  Submits policy queue =
      (outcome : SubmitOutcome) × (left : List Rep) × (u : S) × (try_submit_queue materialise
          capacity policy needed queue s
        ≡ finished (outcome, left, u))
      × Effect capacity needed queue made s t policy outcome left u

  admits :
      (outcome : SubmitOutcome) (queue : List Rep)
      → admit materialise outcome queue s ≡ finished (outcome, queue ++ made, t)
  unfolding admit
  admits outcome queue = rw makes refl

  Submits-coalesce : (queue : List Rep) → Submits coalesce queue
  unfolding try_submit_queue
  Submits-coalesce [] = elim (Bool-cases (ltb capacity (0 + needed))) [
    | inl full ↦
        (would_block, [], s, rw (evict_nil capacity needed, full) refl, clears (ground arith))
    | inr room ↦ (
      accepted,
      made,
      t,
      rw (evict_nil capacity needed, room) (admits accepted []),
      takes coalesce (ground arith),
    )
  ]
  Submits-coalesce (r ∷ rs) = elim (Bool-cases (ltb capacity (length (r ∷ rs) + needed))) [
    | inr room ↦ (
      accepted,
      (r ∷ rs) ++ made,
      t,
      rw (evict_room capacity needed (r ∷ rs) (ground arith), room) (admits accepted (r ∷ rs)),
      takes coalesce (ground arith),
    )
    | inl full ↦
        let (olds, kept, evicted, split, left) = evict_full capacity needed r rs (ground arith) in
        elim left [
          | inl exact ↦
              let fits : ltb capacity (length kept + needed) ≡ false = ground arith in
              (
                coalesced,
                kept ++ made,
                t,
                rw (evicted, fits) (admits coalesced kept),
                replaces r olds kept split exact,
              )
          | inr (nothing, small) ↦
              let over : ltb capacity (0 + needed) ≡ true = ground arith in
              let gone : evict capacity needed (r ∷ rs) ≡ ([], true) =
                evicted ∙ ap (λ k. (k, true)) nothing in
              (would_block, [], s, rw (gone, over) refl, clears small)
        ]
  ]

  -- A submission whose reports can be made ends, and its outcome tells what became of the queue:
  -- with room it appends the reports; else a lossless one is refused, a best-effort one dropped,
  -- and a coalescing one evicts exactly as many of the oldest reports as it needs, or all of them
  -- in vain if no queue has room for its own.
  pub try_submit_queue_lem : (policy : SubmitPolicy) (queue : List Rep) → Submits policy queue
  unfolding try_submit_queue
  try_submit_queue_lem coalesce queue = Submits-coalesce queue
  try_submit_queue_lem best_effort queue =
      elim (Bool-cases (ltb capacity (length queue + needed))) [
        | inl full ↦ (dropped, queue, s, rw full refl, drops (ground arith))
        | inr room ↦ (
          accepted,
          queue ++ made,
          t,
          rw room (admits accepted queue),
          takes best_effort (ground arith),
        )
      ]
  try_submit_queue_lem must queue = elim (Bool-cases (ltb capacity (length queue + needed))) [
    | inl full ↦ (would_block, queue, s, rw full refl, blocks_must (ground arith))
    | inr room ↦
        (accepted, queue ++ made, t, rw room (admits accepted queue), takes must (ground arith))
  ]
  try_submit_queue_lem lossless queue = elim (Bool-cases (ltb capacity (length queue + needed))) [
    | inl full ↦ (would_block, queue, s, rw full refl, blocks_lossless (ground arith))
    | inr room ↦
        (accepted, queue ++ made, t, rw room (admits accepted queue), takes lossless (ground arith))
  ]

drain_loop_lem :
    {Rep : Type 0} (limit : ℕ) (queue : List Rep)
    → ((drain_loop limit queue).0 ++ (drain_loop limit queue).1 ≡ queue)
      × (length (drain_loop limit queue).0 ≡ min limit (length queue))
unfolding drain_loop
drain_loop_lem zero queue = (refl, omega arith)
drain_loop_lem (suc limit) [] = (refl, omega arith)
drain_loop_lem (suc limit) (r ∷ rs) =
    let (order, count) = drain_loop_lem limit rs in (ap (λ l. r ∷ l) order, omega (arith, count))

-- A drain hands over the oldest reports in order, as many as there are up to `max`.
pub drain_queue_lem :
    {Rep : Type 0} (max : ℕ) (queue : List Rep)
    → ((drain_queue max queue).0 ++ (drain_queue max queue).1 ≡ queue)
      × (length (drain_queue max queue).0 ≡ min max (length queue))
unfolding drain_queue
drain_queue_lem max queue = ground (arith, drain_loop_lem (min max (length queue)) queue)
