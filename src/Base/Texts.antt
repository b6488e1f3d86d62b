-- ===== src/Base/Texts.antt =====
-- Texts as byte lists, and the fixed-size strings of the shared memory.
use Prim.Native.Nat.{zero, suc, ℕ, ◌-◌, ◌≤◌}
use Prim.Native.Char.{code}
use Prim.Native.String.{String}
use mathlib.Core.Path.{◌≡◌, refl, ap}
use mathlib.Core.Logic.{◌≢◌, ◌↔◌, inl, inr}
use mathlib.Core.Bool.{Bool, true, false, ◌&&◌}
use mathlib.Core.List.{List, [], ◌∷◌}
use native.Mathlib.Omega.{arith}
use account_services.Base.Tests.{◌==◌, Bool-cases}
use account_services.Base.Lists.{take, length, All, take_of_length-le}
use account_services.Base.Maps.{Eq}

abbrev pub Text : Type 0
Text = List ℕ

-- The bytes of an ASCII literal.
abbrev pub codes : String → Text
codes String.[] = []
codes (String.◌∷◌ c s) = code c ∷ codes s

unfoldable pub text_eq : Text → Text → Bool
text_eq [] [] = true
text_eq [] (y ∷ ys) = false
text_eq (x ∷ xs) [] = false
text_eq (x ∷ xs) (y ∷ ys) = (x == y) && text_eq xs ys

text_eq_sound : (xs ys : Text) → text_eq xs ys ≡ true → xs ≡ ys
unfolding text_eq
text_eq_sound [] [] h = refl
text_eq_sound [] (y ∷ ys) h = cc
text_eq_sound (x ∷ xs) [] h = cc
text_eq_sound (x ∷ xs) (y ∷ ys) h = ground (arith, text_eq_sound xs ys)

pub text_eq_refl : (xs : Text) → text_eq xs xs ≡ true
unfolding text_eq
text_eq_refl [] = refl
text_eq_refl (x ∷ xs) = ground (arith, text_eq_refl xs)

pub text_eq_iff : (xs ys : Text) → (text_eq xs ys ≡ true) ↔ (xs ≡ ys)
text_eq_iff xs ys = (text_eq_sound xs ys, λ p. rw p (text_eq_refl ys))

instance abbrev pub eq_text : Eq Text
eq_text = record { beq = text_eq; beq_iff = text_eq_iff }

-- A FixedString<N> is the bytes that its view() shows: those before the first NUL.
unfoldable pub until_nul : Text → Text
until_nul [] = []
until_nul (c ∷ s) = elim (c == 0) [ true ↦ [] | false ↦ c ∷ until_nul s ]

-- FixedString<N>::assign copies at most N - 1 bytes.
unfoldable pub assign : ℕ → Text → Text
unfolding until_nul
assign n sv = until_nul (take (n - 1) sv)

abbrev pub empty : Text → Bool
empty [] = true
empty (_ ∷ _) = false

-- No byte of the text is NUL: what a view() of a FixedString shows.
abbrev pub HasNoNul : Text → Type 0
HasNoNul = All (λ c. c ≢ 0)

pub until_nul_id : (s : Text) → HasNoNul s → until_nul s ≡ s
unfolding until_nul
until_nul_id [] h = refl
until_nul_id (c ∷ s) h = elim (Bool-cases (c == 0)) [
  | inl e ↦ absurd (h.0 (ground arith))
  | inr e ↦ rw (e, until_nul) (ap (◌∷◌ c) (until_nul_id s h.1))
]

pub assign_id : (n : ℕ) (s : Text) → HasNoNul s → length s ≤ n - 1 → assign n s ≡ s
unfolding assign
assign_id n s h l = rw (take_of_length-le (n - 1) s l) (until_nul_id s h)

until_nul-HasNoNul : (s : Text) → HasNoNul (until_nul s)
unfolding until_nul
until_nul-HasNoNul [] = tt
until_nul-HasNoNul (c ∷ s) = ground (arith, until_nul-HasNoNul s)

length-until_nul-take : (n : ℕ) (s : Text) → length (until_nul (take n s)) ≤ n
unfolding until_nul
length-until_nul-take zero s = omega arith
length-until_nul-take (suc n) [] = omega arith
length-until_nul-take (suc n) (c ∷ s) = ground (arith, length-until_nul-take n s)

-- A copy of a copy is the copy.
pub assign_idem : (n : ℕ) (s : Text) → assign n (assign n s) ≡ assign n s
assign_idem n s =
    assign_id n (assign n s) (unfold assign in until_nul-HasNoNul (take (n - 1) s))
      (unfold assign in length-until_nul-take (n - 1) s)
