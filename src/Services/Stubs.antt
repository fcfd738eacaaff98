-- ===== src/Services/Stubs.antt =====
-- The services of crates/04-services/audio, gpu and fs (src/lib.rs in each), which answer each
-- command with one report. Whether the file name of a path is "manual-save", which the standard
-- library tells, is a parameter.
use gbx.Prelude.{ℕ, ◌+◌, ◌/◌, ◌%◌, ◌^◌, ◌==◌, if◌then◌else◌, Bool, true, List, [], ◌∷◌, length}
use gbx.Prelude.Runs.{Run, finished, ◌>>=◌}
use gbx.App.Abi.{
  SubmitPolicy, must, lossless, coalesce, AudioSpan, AudioCmd, AudioRep, GpuCmd, upload_frame,
  GpuRep, FsCmd, persist, FsRep,
}
use gbx.Services.{try_submit_queue, drain_queue}
use gbx.Transport.Port.{SubmitOutcome}

pub record AudioService : Type 0 where
  pub reports : List AudioRep
  pub capacity : ℕ

pub record GpuService : Type 0 where
  pub reports : List GpuRep
  pub capacity : ℕ
  pub next_frame_id : ℕ

pub record FsService : Type 0 where
  pub reports : List FsRep
  pub capacity : ℕ

-- The frames of a span: the samples by the channels.
abbrev pub played_frames : AudioSpan → ℕ
played_frames span = if span.channels == 0 then 0 else length span.samples / span.channels

unfoldable pub audio_reports : AudioCmd → Unit {0} → Run (List AudioRep × Unit {0})
audio_reports (AudioCmd.submit span) s = finished (AudioRep.played (played_frames span) ∷ [], s)

-- `AudioService::try_submit` and `drain`
unfoldable pub audio_submit : AudioCmd → AudioService → Run (SubmitOutcome × AudioService)
audio_submit cmd a = do
  r ← try_submit_queue (audio_reports cmd) a.capacity must 1 a.reports tt
  finished (r.0, record a { reports = r.1 })

unfoldable pub audio_drain : ℕ → AudioService → List AudioRep × AudioService
audio_drain max a =
    let (out, left) = drain_queue max a.reports in (out, record a { reports = left })

-- `fetch_add` and `wrapping_add` of 64 bits
unfoldable pub gpu_reports : GpuCmd → ℕ → Run (List GpuRep × ℕ)
gpu_reports (upload_frame lane span) next_frame_id =
    let frame_id = (next_frame_id + 1) % 2 ^ 64 in
    finished (GpuRep.frame_shown lane frame_id ∷ [], frame_id)

-- `GpuService::try_submit` and `drain`
unfoldable pub gpu_submit : GpuCmd → GpuService → Run (SubmitOutcome × GpuService)
gpu_submit cmd g = do
  r ← try_submit_queue (gpu_reports cmd) g.capacity must 1 g.reports g.next_frame_id
  finished (r.0, record g { reports = r.1; next_frame_id = r.2 })

unfoldable pub gpu_drain : ℕ → GpuService → List GpuRep × GpuService
gpu_drain max g = let (out, left) = drain_queue max g.reports in (out, record g { reports = left })

unfoldable pub fs_reports : FsCmd → Unit {0} → Run (List FsRep × Unit {0})
fs_reports (persist path bytes) s = finished (FsRep.saved path true ∷ [], s)

-- `manual_save path` says whether the file name of the path is "manual-save".
module _ (manual_save : List ℕ → Bool) where
  unfoldable pub fs_policy : FsCmd → SubmitPolicy
  fs_policy (persist path bytes) = if manual_save path then lossless else coalesce

  -- `FsService::try_submit`
  unfoldable pub fs_submit : FsCmd → FsService → Run (SubmitOutcome × FsService)
  fs_submit cmd f = do
    r ← try_submit_queue (fs_reports cmd) f.capacity (fs_policy cmd) 1 f.reports tt
    finished (r.0, record f { reports = r.1 })

-- `FsService::drain`
unfoldable pub fs_drain : ℕ → FsService → List FsRep × FsService
fs_drain max f = let (out, left) = drain_queue max f.reports in (out, record f { reports = left })
