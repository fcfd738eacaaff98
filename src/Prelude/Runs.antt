-- ===== src/Prelude/Runs.antt =====
-- What a computation that loops on fuel ends in: a result, a panic, or the end of its fuel.
use mathlib.Core.Path.{◌≡◌, refl}
use mathlib.Core.Logic.{◌⊎◌, inl, inr}

pub data Run {ℓ} (A : Type ℓ) : Type ℓ where
  finished : A → Run A
  panicked : Run A
  out_of_fuel : Run A

infixl 5 ◌>>=◌ ◌>>◌
abbrev pub ◌>>=◌ {ℓ κ} : {A : Type ℓ} {B : Type κ} → Run A → (A → Run B) → Run B
finished a >>= f = f a
panicked >>= f = panicked
out_of_fuel >>= f = out_of_fuel

abbrev pub ◌>>◌ {ℓ} : {B : Type ℓ} → Run (Unit {0}) → Run B → Run B
m >> k = m >>= λ _. k

-- The computation ends: with a panic for the reason `Why`, or with a result of which `P` holds.
pub data Ends {ℓ κ} {A : Type ℓ} (P : A → Type κ) (Why : Type 0) : Run A → Type (ℓ ⊔ κ) where
  returns : (a : A) → P a → Ends P Why (finished a)
  panics : Why → Ends P Why panicked

module _ {ℓ κ μ ν} {A : Type ℓ} {B : Type μ} {P : A → Type κ} {Q : B → Type ν}
    {Why Why' : Type 0} where
  pub >>=-Ends :
      {m : Run A} (f : A → Run B)
      → Ends P Why m
      → (Why → Why')
      → ((a : A) → P a → Ends Q Why' (f a))
      → Ends Q Why' (m >>= f)
  >>=-Ends f (returns a p) w h = h a p
  >>=-Ends f (panics why) w h = panics (w why)

pub Ends-map {ℓ κ ν} :
    {A : Type ℓ} {P : A → Type κ} {Q : A → Type ν} {Why : Type 0} {m : Run A}
    → Ends P Why m
    → ((a : A) → P a → Q a)
    → Ends Q Why m
Ends-map (returns a p) h = returns a (h a p)
Ends-map (panics why) h = panics why

pub Run-cases {ℓ} :
    {A : Type ℓ} (m : Run A) → ¬ (m ≡ out_of_fuel) → ((a : A) × (m ≡ finished a)) ⊎ (m ≡ panicked)
Run-cases (finished a) h = inl (a, refl)
Run-cases panicked h = inr refl
Run-cases out_of_fuel h = absurd (h refl)

pub Ends-finished {ℓ κ} :
    {A : Type ℓ} {P : A → Type κ} {Why : Type 0} {m : Run A}
    → Ends P Why m
    → ¬ Why
    → (a : A) × (m ≡ finished a) × P a
Ends-finished (returns a p) h = (a, refl, p)
Ends-finished (panics why) h = absurd (h why)
