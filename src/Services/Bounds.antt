-- ===== src/Services/Bounds.antt =====
-- How long a queue of reports gets (services-common).
use gbx.Prelude.{
  ℕ, ◌+◌, ◌≤◌, arith, ltb, List, [], ◌∷◌, length, length-append, Bool-cases, inl, inr,
}
use gbx.Prelude.Runs.{Run, Ends, returns, >>=-Ends}
use gbx.App.Abi.{SubmitPolicy, must, coalesce, best_effort, lossless}
use gbx.Transport.Port.{SubmitOutcome, accepted}
use gbx.Services.{evict, admit, try_submit_queue}

length-evict :
    {Rep : Type 0} (capacity needed : ℕ) (queue : List Rep)
    → length (evict capacity needed queue).0 ≤ length queue
unfolding evict
length-evict capacity needed [] = omega arith
length-evict capacity needed (r ∷ rs) = ground (arith, length-evict capacity needed rs)

module _ {S Rep : Type 0} (materialise : S → Run (List Rep × S)) (P : S → Type 0) (Why : Type 0)
    (capacity needed over : ℕ) (s : S) (p : P s)
    (made : Ends (λ r. (length r.0 ≤ needed + over) × P r.1) Why (materialise s)) where
  abbrev pub Fits : SubmitOutcome × List Rep × S → Type 0
  Fits r = (length r.1 ≤ capacity + over) × P r.2

  admit-Ends :
      (outcome : SubmitOutcome) (queue : List Rep)
      → length queue + needed ≤ capacity
      → Ends Fits Why (admit materialise outcome queue s)
  unfolding admit
  admit-Ends outcome queue room =
      >>=-Ends _ made (λ w. w) λ r (few, q). returns _ (omega (arith, length-append queue r.0), q)

  -- A submission keeps a queue within `over` reports of its capacity, if the command makes at most
  -- so many more reports than it was admitted for.
  pub try_submit_queue-Ends :
      (policy : SubmitPolicy) (queue : List Rep)
      → length queue ≤ capacity + over
      → Ends Fits Why (try_submit_queue materialise capacity policy needed queue s)
  unfolding try_submit_queue
  try_submit_queue-Ends coalesce queue h =
      let kept = (evict capacity needed queue).0 in
      elim (Bool-cases (ltb capacity (length kept + needed))) [
        | inl full ↦ rw full (returns _ (omega (arith, length-evict capacity needed queue), p))
        | inr room ↦ rw room (admit-Ends _ kept (ground arith))
      ]
  try_submit_queue-Ends best_effort queue h =
      elim (Bool-cases (ltb capacity (length queue + needed))) [
        | inl full ↦ rw full (returns _ (h, p))
        | inr room ↦ rw room (admit-Ends accepted queue (ground arith))
      ]
  try_submit_queue-Ends must queue h = elim (Bool-cases (ltb capacity (length queue + needed))) [
    | inl full ↦ rw full (returns _ (h, p))
    | inr room ↦ rw room (admit-Ends accepted queue (ground arith))
  ]
  try_submit_queue-Ends lossless queue h =
      elim (Bool-cases (ltb capacity (length queue + needed))) [
        | inl full ↦ rw full (returns _ (h, p))
        | inr room ↦ rw room (admit-Ends accepted queue (ground arith))
      ]
