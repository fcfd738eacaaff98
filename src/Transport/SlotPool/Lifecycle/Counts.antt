-- ===== src/Transport/SlotPool/Lifecycle/Counts.antt =====
-- How often an index stands in a list.
use gbx.Prelude.{ℕ, zero, suc, ◌+◌, ◌≡◌, refl, arith, leb, ltb, ◌==◌, ◌&&◌, if◌then◌else◌}
use gbx.Prelude.{List, [], ◌∷◌, ◌++◌, length}
use gbx.Transport.IndexRing.Window.{range}

abbrev pub occurs : ℕ → ℕ → ℕ
occurs i x = if x == i then 1 else 0

abbrev pub count : ℕ → List ℕ → ℕ
count i [] = 0
count i (x ∷ xs) = occurs i x + count i xs

pub occurs_self : (i : ℕ) → occurs i i ≡ 1
occurs_self i = ground arith

pub count-middle :
    (i : ℕ) (xs : List ℕ) (v : ℕ) (ys : List ℕ)
    → count i (xs ++ v ∷ ys) ≡ occurs i v + count i (xs ++ ys)
count-middle i [] v ys = refl
count-middle i (x ∷ xs) v ys = omega (arith, count-middle i xs v ys)

pub length-middle :
    (xs : List ℕ) (v : ℕ) (ys : List ℕ) → length (xs ++ v ∷ ys) ≡ suc (length (xs ++ ys))
length-middle [] v ys = refl
length-middle (x ∷ xs) v ys = omega (arith, length-middle xs v ys)

pub count-snoc : (i : ℕ) (xs : List ℕ) (v : ℕ) → count i (xs ++ v ∷ []) ≡ count i xs + occurs i v
count-snoc i [] v = omega arith
count-snoc i (x ∷ xs) v = omega (arith, count-snoc i xs v)

pub count-range : (i a n : ℕ) → count i (range a n) ≡ (if leb a i && ltb i (a + n) then 1 else 0)
count-range i a zero = ground arith
count-range i a (suc n) = ground (arith, count-range i (suc a) n)
