-- ===== src/Tests/App.antt =====
-- The application loop at a concrete state.
use gbx.Prelude.{ℕ, ◌+◌, ◌-◌, ◌*◌, ◌≤◌, ◌≡◌, arith, ◌==◌, ◌||◌, if◌then◌else◌, min, max}
use gbx.Prelude.{true, false, some, List, [], ◌∷◌, ◌++◌, length}
use gbx.App.Abi.{KernelCmd, KernelRep}
use gbx.App.World.{Speeds, pump_frame, toggle_pause, Report, World, WorkCmd, single}
use gbx.App.Queues.Order.{in_order}
use gbx.App.Hub.{Service, ServicesHub, try_submit_work, drain_reports}
use gbx.App.Hub.Drain.{IsBounded, AllBounded, drain_reports_lem}
use gbx.App.Scheduler.{Scheduler, process_intents, process_reports}
use gbx.App.Scheduler.Intents.{Rounds, process_intents_lem}
use gbx.App.Scheduler.Progress.{Accepts, serve, process_intents_served}
use gbx.App.Scheduler.Reports.{pumps, process_reports_lem}
use gbx.Transport.Port.{SubmitOutcome}

-- Speeds in tenths.
abbrev tenths : Speeds
tenths = record {
  F32 = ℕ;
  one = 10;
  clamp_speed = λ s. max 1 (min 100 s);
  display_cycle_budget = λ s. 70224 * s;
}

-- Services whose state is the number of ticks that the kernel has yet to report done.
abbrev quiet : {Cmd Rep : Type 0} → Service ℕ Cmd Rep
quiet = record { try_submit = λ _ s. (SubmitOutcome.accepted, s); drain = λ _ s. ([], s) }

abbrev kernel : Service ℕ KernelCmd KernelRep
kernel = record {
  try_submit = λ _ s. (SubmitOutcome.accepted, s + 1);
  drain = λ n s. if n == 0 || s == 0 then ([], s) else (KernelRep.tick_done 0 1 70224 ∷ [], s - 1);
}

abbrev hub : ServicesHub ℕ
hub = record { kernel = kernel; fs = quiet; gpu = quiet; audio = quiet }

kernel-IsBounded : IsBounded kernel
kernel-IsBounded n s = ground arith

hub-AllBounded : AllBounded hub
hub-AllBounded = record {
  kernel = kernel-IsBounded;
  fs = λ n s. omega arith;
  gpu = λ n s. omega arith;
  audio = λ n s. omega arith;
}

hub-Accepts : Accepts hub
unfolding try_submit_work
hub-Accepts (WorkCmd.kernel cmd) s = (λ e. cc e, λ _ e. cc e)
hub-Accepts (WorkCmd.fs cmd) s = (λ e. cc e, λ _ e. cc e)

abbrev world : World tenths
world = record {
  paused = false;
  speed = 10;
  display_lane = 0;
  view_mode = single;
  auto_pump = true;
  rom_loaded = false;
  rom_events = 0;
  perf = record { last_frame_id = 0; audio_underruns = 0 };
}

abbrev scheduler : Scheduler tenths ℕ
scheduler = record {
  world = world;
  hub = hub;
  intent_queues = record { p0 = toggle_pause ∷ []; p1 = pump_frame ∷ pump_frame ∷ []; p2 = [] };
  intent_budget = 2;
  report_budget = 4;
  services = 1;
}

process_intents_lem_example :
    Rounds hub 2
      (toggle_pause ∷ pump_frame ∷ pump_frame ∷ [])
      world
      1
      (in_order (process_intents scheduler).intent_queues)
      (process_intents scheduler).world
      (process_intents scheduler).services
process_intents_lem_example = process_intents_lem scheduler

process_intents_served_example :
    (
      in_order (process_intents scheduler).intent_queues,
      (process_intents scheduler).world,
      (process_intents scheduler).services,
    )
    ≡ serve hub 2 (toggle_pause ∷ pump_frame ∷ pump_frame ∷ []) world 1
process_intents_served_example = process_intents_served scheduler hub-Accepts

process_reports_lem_example :
    (reports : List Report) × (after : Scheduler tenths ℕ) × (process_reports scheduler
      ≡ some (reports, after))
    × (length reports ≤ 4)
    × (after.intent_queues.p0 ≡ toggle_pause ∷ [])
    × (after.intent_queues.p1
        ≡ (pump_frame ∷ pump_frame ∷ []) ++ (if true then pumps reports else []))
    × (after.intent_queues.p2 ≡ [])
process_reports_lem_example = process_reports_lem scheduler hub-AllBounded

drain_reports_lem_example :
    (reports : List Report) × (left : ℕ) × (drain_reports hub 4 1 ≡ some (reports, left))
    × (length reports ≤ 4)
drain_reports_lem_example = drain_reports_lem hub 4 1 hub-AllBounded
