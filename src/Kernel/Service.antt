-- ===== src/Kernel/Service.antt =====
-- `KernelService`, crates/04-services/kernel/src/lib.rs: commands are admitted to a bounded queue
-- of reports, and run by the farm when they are. The cell around the farm only lends it.
pub mod Room
use gbx.Prelude.{ℕ, List, [], ◌∷◌, none}
use gbx.Prelude.Runs.{Run, finished, ◌>>=◌}
use gbx.App.Abi.{
  SubmitPolicy, coalesce, best_effort, lossless, TickPurpose, DebugCmd, snapshot, mem_window,
  step_instruction, step_frame, submit_policy, KernelCmd, KernelRep,
}
use gbx.Core.{CoreConfig}
use gbx.Services.{try_submit_queue, drain_queue}
use gbx.Transport.Port.{SubmitOutcome}
use gbx.Kernel.Sink.{FramePool}
use gbx.Kernel.Farm
use gbx.Kernel.Farm.{KernelFarm, tick, handle_debug}

abbrev pub default_capacity : ℕ
default_capacity = 64

pub record KernelService : Type 0 where
  pub reports : List KernelRep
  pub capacity : ℕ
  pub farm : KernelFarm

-- `KernelService::build`
unfoldable pub build : ℕ → FramePool → CoreConfig → KernelService
build capacity frame_pool core_config = record {
  reports = [];
  capacity = capacity;
  farm = Farm.new frame_pool core_config;
}

-- `DebugCmd::expected_reports` of service-abi
unfoldable pub expected_reports : DebugCmd → ℕ
expected_reports (step_frame group) = 3
expected_reports (snapshot group) = 1
expected_reports (mem_window group space base len) = 1
expected_reports (step_instruction group count) = 1

unfoldable pub reports_for : KernelCmd → ℕ
unfolding expected_reports
reports_for (KernelCmd.tick group purpose budget) = 2
reports_for (KernelCmd.load_rom group bytes) = 1
reports_for (KernelCmd.set_inputs group lanes_mask joypad) = 0
reports_for (KernelCmd.terminate group) = 0
reports_for (KernelCmd.debug cmd) = expected_reports cmd

-- `KernelService::submit_policy`
unfoldable pub kernel_policy : KernelCmd → SubmitPolicy
unfolding submit_policy
kernel_policy (KernelCmd.tick group TickPurpose.display budget) = coalesce
kernel_policy (KernelCmd.tick group TickPurpose.exploration budget) = best_effort
kernel_policy (KernelCmd.load_rom group bytes) = lossless
kernel_policy (KernelCmd.set_inputs group lanes_mask joypad) = lossless
kernel_policy (KernelCmd.terminate group) = lossless
kernel_policy (KernelCmd.debug cmd) = submit_policy cmd

unfoldable pub materialise_reports : ℕ → KernelCmd → KernelFarm → Run (List KernelRep × KernelFarm)
materialise_reports sync_low (KernelCmd.tick group purpose budget) farm = do
  r ← tick sync_low group budget [] farm
  finished (r.1, r.2)
materialise_reports sync_low (KernelCmd.load_rom group bytes) farm =
    let (len, loaded) = Farm.load_rom sync_low group bytes farm in
    finished (KernelRep.rom_loaded group len ∷ [], loaded)
materialise_reports sync_low (KernelCmd.set_inputs group lanes_mask joypad) farm =
    finished ([], Farm.set_inputs group joypad farm)
materialise_reports sync_low (KernelCmd.terminate group) farm =
    finished ([], Farm.terminate group farm)
materialise_reports sync_low (KernelCmd.debug cmd) farm = handle_debug sync_low cmd farm

unfoldable pub try_submit : ℕ → KernelCmd → KernelService → Run (SubmitOutcome × KernelService)
try_submit sync_low cmd k = do
  r ←
      try_submit_queue (materialise_reports sync_low cmd) k.capacity (kernel_policy cmd)
        (reports_for cmd) k.reports k.farm
  finished (r.0, record k { reports = r.1; farm = r.2 })

unfoldable pub drain : ℕ → KernelService → List KernelRep × KernelService
drain max k = let (out, left) = drain_queue max k.reports in (out, record k { reports = left })
