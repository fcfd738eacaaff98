-- ===== src/App/Scheduler/Reports.antt =====
-- The intents that `process_reports` (app/src/lib.rs) defers: the frames that pump themselves.
use gbx.Prelude.{◌≤◌, ◌≡◌, refl, sym, ap, ◌∙◌, arith}
use gbx.Prelude.{Bool, true, false, if◌then◌else◌, some, List, [], ◌∷◌, ◌++◌, length}
use mathlib.Core.List.{append-nil, append_assoc}
use gbx.App.Abi.{KernelRep, AudioRep}
use gbx.App.World.{Speeds, Intent, pump_frame, Report, reduce_report}
use gbx.App.Queues.{enqueue}
use gbx.App.Hub.Drain.{AllBounded, drain_reports_lem}
use gbx.App.Scheduler.{Scheduler, process_report, reports_loop, process_reports, enqueue_all}

module _ {speeds : Speeds} where
  -- One `PumpFrame` for each tick that the kernel reports done.
  abbrev pub pumps : List Report → List (Intent speeds)
  pumps [] = []
  pumps (Report.kernel (KernelRep.tick_done group lanes_mask cycles_done) ∷ reports) =
      pump_frame ∷ pumps reports
  pumps (report ∷ reports) = pumps reports

  pumps-append : (xs ys : List Report) → pumps (xs ++ ys) ≡ pumps xs ++ pumps ys
  pumps-append [] ys = refl
  pumps-append (Report.kernel (KernelRep.tick_done g l c) ∷ xs) ys =
      ap (λ l. pump_frame ∷ l) (pumps-append xs ys)
  pumps-append (Report.kernel (KernelRep.lane_frame g l s f) ∷ xs) ys = pumps-append xs ys
  pumps-append (Report.kernel (KernelRep.rom_loaded g b) ∷ xs) ys = pumps-append xs ys
  pumps-append (Report.kernel (KernelRep.audio_ready g s) ∷ xs) ys = pumps-append xs ys
  pumps-append (Report.kernel (KernelRep.dropped_thumb g c) ∷ xs) ys = pumps-append xs ys
  pumps-append (Report.kernel (KernelRep.debug d) ∷ xs) ys = pumps-append xs ys
  pumps-append (Report.gpu r ∷ xs) ys = pumps-append xs ys
  pumps-append (Report.audio r ∷ xs) ys = pumps-append xs ys
  pumps-append (Report.fs r ∷ xs) ys = pumps-append xs ys

  pumps-cons :
      (auto : Bool) (report : Report) (reports : List Report)
      → (if auto then pumps (report ∷ []) else []) ++ (if auto then pumps reports else [])
        ≡ (if auto then pumps (report ∷ reports) else [])
  pumps-cons true report reports = sym (pumps-append (report ∷ []) reports)
  pumps-cons false report reports = refl

module _ {speeds : Speeds} {S : Type 0} where
  -- `after` has the queues of `before` with the pumps of the reports at the end of P1.
  record Pumped (reports : List Report) (before after : Scheduler speeds S) : Type 0 where
    p0 : after.intent_queues.p0 ≡ before.intent_queues.p0
    p1 :
        after.intent_queues.p1
        ≡ before.intent_queues.p1 ++ (if before.world.auto_pump then pumps reports else [])
    p2 : after.intent_queues.p2 ≡ before.intent_queues.p2
    auto_pump : after.world.auto_pump ≡ before.world.auto_pump

  process_report-Pumped :
      (sch : Scheduler speeds S) (report : Report)
      → Pumped (report ∷ []) sch (process_report sch report)
  unfolding process_report reduce_report enqueue_all enqueue
  process_report-Pumped sch (Report.kernel (KernelRep.tick_done g l c)) =
      ground (arith, append-nil sch.intent_queues.p1)
  process_report-Pumped sch (Report.kernel (KernelRep.lane_frame g l s f)) =
      ground (arith, append-nil sch.intent_queues.p1)
  process_report-Pumped sch (Report.kernel (KernelRep.rom_loaded g b)) =
      ground (arith, append-nil sch.intent_queues.p1)
  process_report-Pumped sch (Report.kernel (KernelRep.audio_ready g s)) =
      ground (arith, append-nil sch.intent_queues.p1)
  process_report-Pumped sch (Report.kernel (KernelRep.dropped_thumb g c)) =
      ground (arith, append-nil sch.intent_queues.p1)
  process_report-Pumped sch (Report.kernel (KernelRep.debug d)) =
      ground (arith, append-nil sch.intent_queues.p1)
  process_report-Pumped sch (Report.audio (AudioRep.underrun)) =
      ground (arith, append-nil sch.intent_queues.p1)
  process_report-Pumped sch (Report.audio (AudioRep.played n)) =
      ground (arith, append-nil sch.intent_queues.p1)
  process_report-Pumped sch (Report.gpu r) = ground (arith, append-nil sch.intent_queues.p1)
  process_report-Pumped sch (Report.fs r) = ground (arith, append-nil sch.intent_queues.p1)

  reports_loop-Pumped :
      (reports : List Report) (sch : Scheduler speeds S)
      → Pumped reports sch (reports_loop reports sch)
  unfolding reports_loop
  reports_loop-Pumped [] sch = ground (arith, append-nil sch.intent_queues.p1)
  reports_loop-Pumped (report ∷ reports) sch =
      let one = process_report-Pumped sch report in
      let rest = reports_loop-Pumped reports (process_report sch report) in
      let auto = sch.world.auto_pump in
      let later =
        ap (λ b. (process_report sch report).intent_queues.p1 ++ (if b then pumps reports else []))
          one.auto_pump in
      record {
        p0 = rest.p0 ∙ one.p0;
        p1 =
            rest.p1
            ∙ later
            ∙ ap (λ l. l ++ (if auto then pumps reports else [])) one.p1
            ∙ append_assoc sch.intent_queues.p1 (if auto then pumps (report ∷ []) else [])
                (if auto then pumps reports else [])
            ∙ ap (λ l. sch.intent_queues.p1 ++ l) (pumps-cons auto report reports);
        p2 = rest.p2 ∙ one.p2;
        auto_pump = rest.auto_pump ∙ one.auto_pump;
      }

  -- When no service returns more reports than it is asked for, `process_reports` ends with at most
  -- the budget of reports. It defers one `PumpFrame` to the end of P1 for each tick reported done
  -- if the world pumps by itself, and no other intent; P0 and P2 stay as they were.
  pub process_reports_lem :
      (sch : Scheduler speeds S)
      → AllBounded sch.hub
      → (reports : List Report) × (after : Scheduler speeds S) × (process_reports sch
          ≡ some (reports, after))
        × (length reports ≤ sch.report_budget)
        × (after.intent_queues.p0 ≡ sch.intent_queues.p0)
        × (after.intent_queues.p1
            ≡ sch.intent_queues.p1 ++ (if sch.world.auto_pump then pumps reports else []))
        × (after.intent_queues.p2 ≡ sch.intent_queues.p2)
  unfolding process_reports
  process_reports_lem sch bounded =
      let (reports, services, drained, few) =
        drain_reports_lem sch.hub sch.report_budget sch.services bounded in
      let start = record sch { services = services } in
      let pumped = reports_loop-Pumped reports start in
      (
        reports,
        reports_loop reports start,
        ground (arith, drained),
        few,
        pumped.p0,
        pumped.p1,
        pumped.p2,
      )
