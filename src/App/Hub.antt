-- ===== src/App/Hub.antt =====
-- The services hub, crates/05-app-loop/hub/src/lib.rs. A service is any implementation of the trait
-- `Service` of transport-fabric, which is a parameter: what it answers, with the state of all
-- services after the call.
pub mod Drain
use gbx.Prelude.{
  ℕ, zero, suc, ◌+◌, ◌-◌, ◌≤◌, ◌⊎◌, inl, inr, ◌==◌, if◌then◌else◌, Bool, true, false, ◌||◌, Option,
  none, some, List, [], ◌∷◌, ◌++◌, length,
}
use gbx.App.Abi.{KernelCmd, KernelRep, GpuCmd, GpuRep, AudioCmd, AudioRep, FsCmd, FsRep}
use gbx.App.World.{WorkCmd, AvCmd, Report}
use gbx.Transport.Port.{SubmitOutcome}

-- A handle of type `Arc<dyn Service<Cmd, Rep>>`, in services whose states together are `S`.
pub record Service (S Cmd Rep : Type 0) : Type 0 where
  pub try_submit : Cmd → S → SubmitOutcome × S
  pub drain : ℕ → S → List Rep × S

pub record ServicesHub (S : Type 0) : Type 0 where
  pub kernel : Service S KernelCmd KernelRep
  pub fs : Service S FsCmd FsRep
  pub gpu : Service S GpuCmd GpuRep
  pub audio : Service S AudioCmd AudioRep

pub record ServicesHubBuilder (S : Type 0) : Type 0 where
  pub kernel : Option (Service S KernelCmd KernelRep)
  pub fs : Option (Service S FsCmd FsRep)
  pub gpu : Option (Service S GpuCmd GpuRep)
  pub audio : Option (Service S AudioCmd AudioRep)

-- The error of `build`.
pub data MissingService : Type 0 where
  kernel : MissingService
  fs : MissingService
  gpu : MissingService
  audio : MissingService

abbrev pub map : {A B : Type 0} → (A → B) → List A → List B
map f [] = []
map f (x ∷ xs) = f x ∷ map f xs

-- What the loop of `drain_reports` changes: `remaining`, `out`, `progressed`, and the services.
pub record Draining (S : Type 0) : Type 0 where
  pub remaining : ℕ
  pub out : List Report
  pub progressed : Bool
  pub services : S

abbrev pub is_nil : {A : Type 0} → List A → Bool
is_nil [] = true
is_nil (x ∷ xs) = false

module _ {S : Type 0} where
  unfoldable pub build : ServicesHubBuilder S → MissingService ⊎ ServicesHub S
  build b = elim b.kernel [
    | none ↦ inl MissingService.kernel
    | some k ↦ elim b.fs [
      | none ↦ inl MissingService.fs
      | some f ↦ elim b.gpu [
        | none ↦ inl MissingService.gpu
        | some g ↦ elim b.audio [
          | none ↦ inl MissingService.audio
          | some a ↦ inr (record { kernel = k; fs = f; gpu = g; audio = a })
        ]
      ]
    ]
  ]

  unfoldable pub try_submit_work : ServicesHub S → WorkCmd → S → SubmitOutcome × S
  try_submit_work hub (WorkCmd.kernel cmd) s = hub.kernel.try_submit cmd s
  try_submit_work hub (WorkCmd.fs cmd) s = hub.fs.try_submit cmd s

  unfoldable pub try_submit_av : ServicesHub S → AvCmd → S → SubmitOutcome × S
  try_submit_av hub (AvCmd.gpu cmd) s = hub.gpu.try_submit cmd s
  try_submit_av hub (AvCmd.audio cmd) s = hub.audio.try_submit cmd s

  -- One of the four blocks of a round.
  unfoldable pub drain_service :
      {Cmd Rep : Type 0} → Service S Cmd Rep → (Rep → Report) → Draining S → Draining S
  drain_service service wrap d =
      if d.remaining == 0
      then d
      else (let (drained, services) = service.drain d.remaining d.services in
          if is_nil drained then record d { services = services } else record {
            remaining = d.remaining - length drained;
            out = d.out ++ map wrap drained;
            progressed = true;
            services = services;
          })

  unfoldable pub drain_round : ServicesHub S → Draining S → Draining S
  drain_round hub d = drain_service hub.audio Report.audio (
      drain_service hub.gpu Report.gpu (
        drain_service hub.fs Report.fs
          (drain_service hub.kernel Report.kernel (record d { progressed = false }))))

  -- The loop on fuel; `none` means that the fuel ran out.
  unfoldable pub drain_loop : ℕ → ServicesHub S → Draining S → Option (Draining S)
  drain_loop zero hub d = none
  drain_loop (suc fuel) hub d =
      let rest = drain_loop fuel hub (drain_round hub d) in
      if d.remaining == 0 then some d else if d.progressed then rest else some d

  -- Each round but the last drains a report, so `budget` and two rounds are enough.
  unfoldable pub drain_reports : ServicesHub S → ℕ → S → Option (List Report × S)
  drain_reports hub budget s =
      if budget == 0
      then some ([], s)
      else elim (drain_loop (budget + 2) hub
          (record { remaining = budget; out = []; progressed = true; services = s })) [
            | none ↦ none
            | some d ↦ some (d.out, d.services)
          ]
