-- ===== src/App/Hub/Drain.antt =====
-- The loop of `drain_reports` (hub/src/lib.rs) ends within its budget.
use gbx.Prelude.{
  ℕ, zero, suc, ◌+◌, ◌-◌, ◌≤◌, ◌<◌, ◌≡◌, ◌≢◌, ◌⊎◌, ◌∙◌, refl, arith, ap, ◌==◌, if◌then◌else◌,
}
use gbx.Prelude.{
  Bool, true, false, Bool-cases, some, List, [], ◌∷◌, ◌++◌, length, length-append, inl, inr,
}
use gbx.App.World.{Report}
use gbx.App.Hub.{
  Service, ServicesHub, Draining, map, is_nil, drain_service, drain_round, drain_loop,
  drain_reports,
}

length-map : {A B : Type 0} (f : A → B) (xs : List A) → length (map f xs) ≡ length xs
length-map f [] = refl
length-map f (x ∷ xs) = ap suc (length-map f xs)

-- A service returns at most as many reports as it is asked for, as the trait says.
abbrev pub IsBounded : {S Cmd Rep : Type 0} → Service S Cmd Rep → Type 0
IsBounded {S} service = (n : ℕ) (s : S) → length (service.drain n s).0 ≤ n

pub record AllBounded {S : Type 0} (hub : ServicesHub S) : Type 0 where
  pub kernel : IsBounded hub.kernel
  pub fs : IsBounded hub.fs
  pub gpu : IsBounded hub.gpu
  pub audio : IsBounded hub.audio

abbrev flag : Bool → ℕ
flag true = 1
flag false = 0

-- Reports move from `remaining` to `out`, and progress costs one.
record Advances {S : Type 0} (d e : Draining S) : Type 0 where
  falls : e.remaining + flag e.progressed ≤ d.remaining + flag d.progressed
  moved : length e.out + e.remaining ≡ length d.out + d.remaining

module _ {S : Type 0} where
  Advances-trans : {a b c : Draining S} → Advances a b → Advances b c → Advances a c
  Advances-trans p q = record {
    falls = omega (arith, p.falls, q.falls);
    moved = omega (arith, p.moved, q.moved);
  }

  -- The block once the service has answered.
  answered :
      {Rep : Type 0} (wrap : Rep → Report) (d : Draining S) (drained : List Rep) (services : S)
      → d.remaining ≢ 0
      → length drained ≤ d.remaining
      → Advances d (
          if is_nil drained then record d { services = services } else record {
            remaining = d.remaining - length drained;
            out = d.out ++ map wrap drained;
            progressed = true;
            services = services;
          })
  answered wrap d [] services nonzero bound = record { falls = omega arith; moved = refl }
  answered wrap d (x ∷ drained) services nonzero bound = record {
    falls = omega arith;
    moved =
        omega (arith, length-append d.out (map wrap (x ∷ drained)), length-map wrap (x ∷ drained));
  }

  drain_service-Advances :
      {Cmd Rep : Type 0} (service : Service S Cmd Rep) (wrap : Rep → Report) (d : Draining S)
      → IsBounded service
      → Advances d (drain_service service wrap d)
  unfolding drain_service
  drain_service-Advances service wrap d bounded = elim (Bool-cases (d.remaining == 0)) [
    | inl done ↦ rw done (record { falls = omega arith; moved = refl })
    | inr more ↦
        let nonzero : d.remaining ≢ 0 = ground arith in
        rw more (
          answered wrap d (service.drain d.remaining d.services).0
            (service.drain d.remaining d.services).1 nonzero (bounded d.remaining d.services))
  ]

  drain_round-Advances :
      (hub : ServicesHub S) (d : Draining S)
      → AllBounded hub
      → Advances (record d { progressed = false }) (drain_round hub d)
  unfolding drain_round
  drain_round-Advances hub d b =
      Advances-trans
        (Advances-trans
          (drain_service-Advances hub.kernel Report.kernel (record d { progressed = false })
            b.kernel)
          (drain_service-Advances hub.fs Report.fs _ b.fs))
        (Advances-trans (drain_service-Advances hub.gpu Report.gpu _ b.gpu)
          (drain_service-Advances hub.audio Report.audio _ b.audio))

  loop_on :
      (fuel : ℕ) (hub : ServicesHub S) (d : Draining S)
      → (d.remaining == 0) ≡ false
      → d.progressed ≡ true
      → drain_loop (suc fuel) hub d ≡ drain_loop fuel hub (drain_round hub d)
  unfolding drain_loop
  loop_on fuel hub d more moving = ground arith

  loop_off :
      (fuel : ℕ) (hub : ServicesHub S) (d : Draining S)
      → ((d.remaining == 0) ≡ true) ⊎ (d.progressed ≡ false)
      → drain_loop (suc fuel) hub d ≡ some d
  unfolding drain_loop
  loop_off fuel hub d (inl done) = ground arith
  loop_off fuel hub d (inr stuck) = ground arith

  drain_loop-ends :
      (fuel : ℕ) (hub : ServicesHub S) (d : Draining S)
      → AllBounded hub
      → d.remaining + flag d.progressed < fuel
      → (e : Draining S) × (drain_loop fuel hub d ≡ some e)
        × (length e.out + e.remaining ≡ length d.out + d.remaining)
  drain_loop-ends zero hub d b h = absurd (omega arith)
  drain_loop-ends (suc fuel) hub d b h = elim (Bool-cases (d.remaining == 0)) [
    | inl done ↦ (d, loop_off fuel hub d (inl done), refl)
    | inr more ↦ elim (Bool-cases d.progressed) [
      | inr stuck ↦ (d, loop_off fuel hub d (inr stuck), refl)
      | inl moving ↦
          let a = drain_round-Advances hub d b in
          let (e, ran, total) =
            drain_loop-ends fuel hub (drain_round hub d) b
              (omega (arith, a.falls, ap flag moving)) in
          (e, loop_on fuel hub d more moving ∙ ran, omega (arith, total, a.moved))
    ]
  ]

  -- When no service returns more reports than it is asked for, `drain_reports` ends, whatever the
  -- services answer, and the reports number at most the budget.
  pub drain_reports_lem :
      (hub : ServicesHub S) (budget : ℕ) (s : S)
      → AllBounded hub
      → (reports : List Report) × (left : S) × (drain_reports hub budget s ≡ some (reports, left))
        × (length reports ≤ budget)
  unfolding drain_reports
  drain_reports_lem hub zero s b = ([], s, refl, omega arith)
  drain_reports_lem hub (suc n) s b =
      let d : Draining S = record {
        remaining = suc n;
        out = [];
        progressed = true;
        services = s;
      } in
      let (e, ran, total) = drain_loop-ends (suc n + 2) hub d b (omega arith) in
      (e.out, e.services, ground (arith, ran), omega (arith, total))
