-- ===== src/Portfolio/EntrustRecord/Found.antt =====
-- What is found of an order after its entrust was added or updated.
use account_services.Base.{
  ℕ, zero, suc, ◌<◌, ◌≡◌, ◌≢◌, refl, ap, subst, ◌∙◌, inl, inr, Option, Option-cases, Bool-cases,
  none, some, List, [], ◌∷◌, ◌++◌, ◌==◌, ==_iff, length, length-append, lookup, insert,
  lookup-insert, nat_eq, eq_text, arith, if◌then◌else◌,
}
use account_services.Portfolio.TradeRecord.{get_elem?, push_index}
use account_services.Portfolio.TradeRecord.Groups.{get_elem?-append, get_elem?-length}
use account_services.Portfolio.EntrustRecord.{
  EntrustRecord, EntrustRecordManager, no_entrusts, set_elem, add_or_update, find_entrust,
}

module _ {A : Type 0} where
  length-set_elem : (i : ℕ) (y : A) (xs : List A) → length (set_elem i y xs) ≡ length xs
  length-set_elem i y [] = refl
  length-set_elem zero y (x ∷ xs) = refl
  length-set_elem (suc i) y (x ∷ xs) = omega (arith, length-set_elem i y xs)

  get_elem?-set_elem :
      (i : ℕ) (y : A) (xs : List A) → i < length xs → get_elem? (set_elem i y xs) i ≡ some y
  get_elem?-set_elem i y [] h = absurd (omega (arith, h))
  get_elem?-set_elem zero y (x ∷ xs) h = refl
  get_elem?-set_elem (suc i) y (x ∷ xs) h = get_elem?-set_elem i y xs (omega (arith, h))

  get_elem?-set_elem_other :
      (i j : ℕ) (y : A) (xs : List A) → i ≢ j → get_elem? (set_elem i y xs) j ≡ get_elem? xs j
  get_elem?-set_elem_other i j y [] h = refl
  get_elem?-set_elem_other zero zero y (x ∷ xs) h = absurd (h refl)
  get_elem?-set_elem_other zero (suc j) y (x ∷ xs) h = refl
  get_elem?-set_elem_other (suc i) zero y (x ∷ xs) h = refl
  get_elem?-set_elem_other (suc i) (suc j) y (x ∷ xs) h =
      get_elem?-set_elem_other i j y xs (λ e. h (omega (arith, e)))

-- Every known order has a row of its own.
abbrev pub HasRows : EntrustRecordManager → Type 0
HasRows m =
    ((id i : ℕ) → lookup id m.id_index ≡ some i → i < length m.entrusts)
    × ((id j i : ℕ) → lookup id m.id_index ≡ some i → lookup j m.id_index ≡ some i → id ≡ j)

-- A record of an unknown order is added behind the others.
abbrev added : EntrustRecord → EntrustRecordManager → EntrustRecordManager
added r m = record {
  entrusts = m.entrusts ++ r ∷ [];
  id_index = insert r.order_id (length m.entrusts) m.id_index;
  security_index = push_index r.security_id (length m.entrusts) m.security_index;
}

add_or_update_new :
    (r : EntrustRecord) (m : EntrustRecordManager)
    → lookup r.order_id m.id_index ≡ none
    → add_or_update r m ≡ added r m
unfolding add_or_update
add_or_update_new r m h = rw (add_or_update, h) refl

add_or_update_known :
    (r : EntrustRecord) (m : EntrustRecordManager) {i : ℕ}
    → lookup r.order_id m.id_index ≡ some i
    → add_or_update r m ≡ record m { entrusts = set_elem i r m.entrusts }
unfolding add_or_update
add_or_update_known r m h = rw (add_or_update, h) refl

add_or_update-HasRows :
    (r : EntrustRecord) (m : EntrustRecordManager) → HasRows m → HasRows (add_or_update r m)
add_or_update-HasRows r m v = elim (Option-cases (lookup r.order_id m.id_index)) [
  | inl fresh ↦ rw (add_or_update_new r m fresh) (
    (λ id i h. ground (
      arith,
      lookup-insert r.order_id id (length m.entrusts) m.id_index,
      v.0 id i,
      length-append m.entrusts (r ∷ []),
    )),
    (λ id j i h h'. ground (
      arith,
      lookup-insert r.order_id id (length m.entrusts) m.id_index,
      lookup-insert r.order_id j (length m.entrusts) m.id_index,
      v.0 id i,
      v.0 j i,
      v.1 id j i,
    )),
  )
  | inr (i, known) ↦
      rw (add_or_update_known r m known)
        ((λ id k h. omega (arith, v.0 id k h, length-set_elem i r m.entrusts)), v.1)
]

found_new :
    (r : EntrustRecord) (m : EntrustRecordManager) (id : ℕ)
    → HasRows m
    → lookup r.order_id m.id_index ≡ none
    → find_entrust id (add_or_update r m) ≡ (if r.order_id == id then some r else find_entrust id m)
unfolding find_entrust
found_new r m id v fresh =
    let inserted = lookup-insert r.order_id id (length m.entrusts) m.id_index in
    rw (add_or_update_new r m fresh) (elim (Bool-cases (r.order_id == id)) [
      | inl same ↦ rw (find_entrust, inserted, same) (get_elem?-length m.entrusts r)
      | inr other ↦
          rw (find_entrust, inserted, other)
            (elim (Option-cases (lookup id m.id_index)) [
              | inl unknown ↦ rw (find_entrust, unknown) refl
              | inr (i, known) ↦
                  rw (find_entrust, known) (get_elem?-append m.entrusts (r ∷ []) i (v.0 id i known))
            ])
    ])

found_known :
    (r : EntrustRecord) (m : EntrustRecordManager) (id i : ℕ)
    → HasRows m
    → lookup r.order_id m.id_index ≡ some i
    → find_entrust id (add_or_update r m) ≡ (if r.order_id == id then some r else find_entrust id m)
unfolding find_entrust
found_known r m id i v here =
    rw (add_or_update_known r m here) (elim (Bool-cases (r.order_id == id)) [
      | inl same ↦
          rw
            (
              find_entrust,
              same,
              subst (λ j. lookup j m.id_index ≡ some i) ((==_iff r.order_id id).0 same) here,
            )
            (get_elem?-set_elem i r m.entrusts (v.0 r.order_id i here))
      | inr other ↦
          rw (find_entrust, other)
            (elim (Option-cases (lookup id m.id_index)) [
              | inl unknown ↦ rw (find_entrust, unknown) refl
              | inr (j, known) ↦
                  rw (find_entrust, known)
                    (get_elem?-set_elem_other i j r m.entrusts (λ e.
                      absurd
                        (ground (arith, e, v.1 r.order_id id i here, known, ==_iff r.order_id id))))
            ])
    ])

-- The records are applied in their order.
abbrev pub add_all : List EntrustRecord → EntrustRecordManager → EntrustRecordManager
add_all [] m = m
add_all (r ∷ rest) m = add_all rest (add_or_update r m)

-- The last of the records of an order, if there is one, or else the given one.
abbrev pub latest : ℕ → Option EntrustRecord → List EntrustRecord → Option EntrustRecord
latest id before [] = before
latest id before (r ∷ rest) = latest id (if r.order_id == id then some r else before) rest

found_after :
    (rs : List EntrustRecord) (m : EntrustRecordManager) (id : ℕ)
    → HasRows m
    → find_entrust id (add_all rs m) ≡ latest id (find_entrust id m) rs
found_after [] m id v = refl
found_after (r ∷ rest) m id v =
    found_after rest (add_or_update r m) id (add_or_update-HasRows r m v)
    ∙ ap (λ before. latest id before rest)
        (elim (Option-cases (lookup r.order_id m.id_index)) [
          | inl fresh ↦ found_new r m id v fresh
          | inr (i, known) ↦ found_known r m id i v known
        ])

no_entrusts-HasRows : HasRows no_entrusts
unfolding lookup
no_entrusts-HasRows = ((λ id i h. absurd (ground arith)), (λ id j i h h'. absurd (ground arith)))

-- After any records were added or updated in an empty manager, an order is found with the last of
-- its records, and is not found exactly when it had none.
pub find_entrust-add_all :
    (rs : List EntrustRecord) (id : ℕ)
    → find_entrust id (add_all rs no_entrusts) ≡ latest id none rs
unfolding find_entrust lookup
find_entrust-add_all rs id = found_after rs no_entrusts id no_entrusts-HasRows
