-- ===== src/Services.antt =====
-- The report queues of the services, crates/03-driver/services-common/src/lib.rs. A queue is the
-- list of its reports, the oldest first; `LocalQueue` only lends it. The closure that makes the
-- reports may change a state `S`, the rest of the service, and may panic.
pub mod Admission
pub mod Bounds
pub mod Stubs
use gbx.Prelude.{
  ℕ, zero, suc, ◌+◌, min, ltb, ◌==◌, if◌then◌else◌, Bool, true, false, List, [], ◌∷◌, ◌++◌, length,
}
use gbx.Prelude.Runs.{Run, finished, ◌>>=◌}
use gbx.App.Abi.{SubmitPolicy, must, coalesce, best_effort, lossless}
use gbx.Transport.Port.{SubmitOutcome, accepted, coalesced, dropped, would_block}

-- The loop `while inner.len() + needed > capacity && !inner.is_empty()`, and whether it popped.
unfoldable pub evict : {Rep : Type 0} → ℕ → ℕ → List Rep → List Rep × Bool
evict capacity needed [] = ([], false)
evict capacity needed (r ∷ rs) =
    if ltb capacity (length (r ∷ rs) + needed)
    then ((evict capacity needed rs).0, true)
    else (r ∷ rs, false)

module _ {S Rep : Type 0} (materialise : S → Run (List Rep × S)) where
  -- Run the closure and append its reports.
  unfoldable pub admit : SubmitOutcome → List Rep → S → Run (SubmitOutcome × List Rep × S)
  admit outcome queue s = do r ← materialise s; finished (outcome, queue ++ r.0, r.1)

  unfoldable pub try_submit_queue :
      ℕ → SubmitPolicy → ℕ → List Rep → S → Run (SubmitOutcome × List Rep × S)
  unfolding admit
  try_submit_queue capacity best_effort needed queue s =
      if ltb capacity (length queue + needed)
      then finished (dropped, queue, s)
      else admit accepted queue s
  try_submit_queue capacity coalesce needed queue s =
      let (kept, popped) = evict capacity needed queue in
      if ltb capacity (length kept + needed)
      then finished (would_block, kept, s)
      else admit (if popped then coalesced else accepted) kept s
  try_submit_queue capacity must needed queue s =
      if ltb capacity (length queue + needed)
      then finished (would_block, queue, s)
      else admit accepted queue s
  try_submit_queue capacity lossless needed queue s =
      if ltb capacity (length queue + needed)
      then finished (would_block, queue, s)
      else admit accepted queue s

-- The loop `for _ in 0..limit`: the reports drained, and those left.
unfoldable pub drain_loop : {Rep : Type 0} → ℕ → List Rep → List Rep × List Rep
drain_loop zero queue = ([], queue)
drain_loop (suc limit) [] = ([], [])
drain_loop (suc limit) (r ∷ rs) = let (out, left) = drain_loop limit rs in (r ∷ out, left)

unfoldable pub drain_queue : {Rep : Type 0} → ℕ → List Rep → List Rep × List Rep
unfolding drain_loop
drain_queue max queue = if max == 0 then ([], queue) else drain_loop (min max (length queue)) queue
