-- ===== src/Portfolio/TradeRecord/Groups.antt =====
-- The indices by order and by security, as lists of the rows with a key.
use account_services.Base.{
  ℕ, zero, suc, ◌<◌, ◌≡◌, refl, ap, sym, ◌∙◌, inl, inr, Option-cases, some, List, [], ◌∷◌, ◌++◌,
  append-nil, Map, Eq, All, length, length-append, lookup-insert, Bool-cases, arith, if◌then◌else◌,
}
use account_services.Portfolio.TradeRecord.{get_elem?, at_indices, indices_of, push_index}

more-All : (n : ℕ) (is : List ℕ) → All (λ i. i < n) is → All (λ i. i < suc n) is
more-All n [] h = tt
more-All n (i ∷ is) h = (omega (arith, h.0), more-All n is h.1)

last-All : (n : ℕ) (is : List ℕ) → All (λ i. i < n) is → All (λ i. i < suc n) (is ++ n ∷ [])
last-All n [] h = (omega arith, tt)
last-All n (i ∷ is) h = (omega (arith, h.0), last-All n is h.1)

module _ {A : Type 0} where
  pub get_elem?-append :
      (xs ys : List A) (i : ℕ) → i < length xs → get_elem? (xs ++ ys) i ≡ get_elem? xs i
  get_elem?-append [] ys i h = absurd (omega (arith, h))
  get_elem?-append (x ∷ xs) ys zero h = refl
  get_elem?-append (x ∷ xs) ys (suc i) h = get_elem?-append xs ys i (omega (arith, h))

  pub get_elem?-length : (xs : List A) (y : A) → get_elem? (xs ++ y ∷ []) (length xs) ≡ some y
  get_elem?-length [] y = refl
  get_elem?-length (x ∷ xs) y = get_elem?-length xs y

  -- The rows at indices that are in the list are those of a longer list.
  at_indices_more :
      (xs ys : List A) (is : List ℕ)
      → All (λ i. i < length xs) is
      → at_indices (xs ++ ys) is ≡ at_indices xs is
  unfolding at_indices
  at_indices_more xs ys [] h = refl
  at_indices_more xs ys (i ∷ is) h =
      ground (arith, get_elem?-append xs ys i h.0, at_indices_more xs ys is h.1)

  at_indices-append :
      (xs : List A) (is js : List ℕ)
      → at_indices xs (is ++ js) ≡ at_indices xs is ++ at_indices xs js
  unfolding at_indices
  at_indices-append xs [] js = refl
  at_indices-append xs (i ∷ is) js = elim (Option-cases (get_elem? xs i)) [
    | inl out ↦ rw (out, at_indices) (at_indices-append xs is js)
    | inr (x, here) ↦ rw (here, at_indices) (cc (at_indices-append xs is js))
  ]

  at_last :
      (x : A) (xs : List A) (is : List ℕ)
      → All (λ i. i < length xs) is
      → at_indices (xs ++ x ∷ []) (is ++ length xs ∷ []) ≡ at_indices xs is ++ x ∷ []
  unfolding at_indices
  at_last x xs is h =
      at_indices-append (xs ++ x ∷ []) is (length xs ∷ [])
      ∙ rw (at_indices_more xs (x ∷ []) is h, get_elem?-length xs x, at_indices) refl

module _ {A : Type 0} {K : Type 0} ⦃e : Eq K⦄ (key : A → K) where
  -- The rows with a key, in their order.
  abbrev pub with_key : K → List A → List A
  with_key k [] = []
  with_key k (x ∷ xs) = let rest = with_key k xs in if e.beq (key x) k then x ∷ rest else rest

  with_key-append :
      (k : K) (xs ys : List A) → with_key k (xs ++ ys) ≡ with_key k xs ++ with_key k ys
  with_key-append k [] ys = refl
  with_key-append k (x ∷ xs) ys = elim (Bool-cases (e.beq (key x) k)) [
    | inl same ↦ rw same (cc (with_key-append k xs ys))
    | inr other ↦ rw other (with_key-append k xs ys)
  ]

  abbrev pub Groups : List A → Map K (List ℕ) → Type 0
  Groups xs index =
      (k : K)
      → All (λ i. i < length xs) (indices_of k index)
        × (at_indices xs (indices_of k index) ≡ with_key k xs)

  indices_of-push_index :
      (j k : K) (i : ℕ) (index : Map K (List ℕ))
      → indices_of j (push_index k i index)
        ≡ (if e.beq k j then indices_of j index ++ i ∷ [] else indices_of j index)
  unfolding push_index indices_of
  indices_of-push_index j k i index =
      ground (arith, lookup-insert k j (indices_of k index ++ i ∷ []) index, e.beq_iff k j)

  length_snoc : (x : A) (xs : List A) → length (xs ++ x ∷ []) ≡ suc (length xs)
  length_snoc x xs = omega (arith, length-append xs (x ∷ []))

  -- Pushing the index of a new row under its key keeps an index right.
  pub push-Groups :
      (x : A) (xs : List A) (index : Map K (List ℕ))
      → Groups xs index
      → Groups (xs ++ x ∷ []) (push_index (key x) (length xs) index)
  push-Groups x xs index v k =
      let (within, rows) = v k in
      elim (Bool-cases (e.beq (key x) k)) [
        | inl same ↦
            rw (indices_of-push_index k (key x) (length xs) index, same, length_snoc x xs)
              (
                last-All (length xs) (indices_of k index) within,
                at_last x xs (indices_of k index) within
                    ∙ ap (λ l. l ++ x ∷ []) rows
                    ∙ sym (with_key-append k xs (x ∷ []) ∙ rw same refl),
              )
        | inr other ↦
            rw (indices_of-push_index k (key x) (length xs) index, other, length_snoc x xs)
              (
                more-All (length xs) (indices_of k index) within,
                at_indices_more xs (x ∷ []) (indices_of k index) within
                    ∙ rows
                    ∙ sym (
                        with_key-append k xs (x ∷ [])
                        ∙ rw (other, append-nil (with_key k xs)) refl),
              )
      ]
