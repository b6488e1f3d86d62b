-- ===== src/Base/Lists.antt =====
-- Lists measured and cut by native numbers, predicates on lists, and arrays as functions.
use Prim.Native.Nat.{ℕ, zero, suc, ◌+◌, ◌≤◌, ◌<◌}
use mathlib.Core.Path.{◌≡◌, refl}
use mathlib.Core.Logic.{◌≢◌}
use mathlib.Core.List.{List, [], ◌∷◌, ◌++◌}
use native.Mathlib.Omega.{arith}
use account_services.Base.Tests.{◌==◌, if◌then◌else◌}

module _ {ℓ} {A : Type ℓ} where
  abbrev pub length : List A → ℕ
  length [] = 0
  length (x ∷ xs) = suc (length xs)

  abbrev pub take : ℕ → List A → List A
  take zero xs = []
  take (suc n) [] = []
  take (suc n) (x ∷ xs) = x ∷ take n xs

  abbrev pub drop : ℕ → List A → List A
  drop zero xs = xs
  drop (suc n) [] = []
  drop (suc n) (x ∷ xs) = drop n xs

  pub length-append : (xs ys : List A) → length (xs ++ ys) ≡ length xs + length ys
  length-append [] ys = omega arith
  length-append (x ∷ xs) ys = omega (arith, length-append xs ys)

  -- A cut that is long enough keeps everything.
  pub take_of_length-le : (most : ℕ) (all : List A) → length all ≤ most → take most all ≡ all
  take_of_length-le zero [] fits = refl
  take_of_length-le zero (y ∷ rest) fits = absurd (omega arith)
  take_of_length-le (suc most) [] fits = refl
  take_of_length-le (suc most) (y ∷ rest) fits = cc (take_of_length-le most rest (omega arith))

  abbrev pub All {κ} : (A → Type κ) → List A → Type κ
  All P [] = Unit
  All P (x ∷ xs) = P x × All P xs

  -- An array is a function from its indices; a write changes one cell.
  abbrev pub update : (ℕ → A) → ℕ → A → ℕ → A
  update a i x j = if i == j then x else a j

-- The numbers of a list differ from one another.
abbrev pub Distinct : List ℕ → Type 0
Distinct [] = Unit
Distinct (x ∷ xs) = All (λ y. x ≢ y) xs × Distinct xs

-- `n` numbers from `start` on.
abbrev pub range : ℕ → ℕ → List ℕ
range start zero = []
range start (suc n) = start ∷ range (suc start) n

pub length-range : (s n : ℕ) → length (range s n) ≡ n
length-range s zero = refl
length-range s (suc n) = omega (arith, length-range (suc s) n)

module _ (P : ℕ → Type 0) where
  pub All-range : (s n : ℕ) → ((y : ℕ) → s ≤ y → y < s + n → P y) → All P (range s n)
  All-range s zero h = tt
  All-range s (suc n) h = (
    h s (omega arith) (omega arith),
    All-range (suc s) n (λ y lo hi. h y (omega arith) (omega arith)),
  )

pub Distinct-range : (s n : ℕ) → Distinct (range s n)
Distinct-range s zero = tt
Distinct-range s (suc n) =
    (All-range (λ y. s ≢ y) (suc s) n (λ y lo hi. omega arith), Distinct-range (suc s) n)
