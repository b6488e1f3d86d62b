-- ===== src/Portfolio/Securities/Isolation.antt =====
-- An operation on one security leaves the rows of the others alone.
use account_services.Base.{
  ℕ, ◌≡◌, ◌≢◌, inl, inr, Bool, some, Text, lookup, eq_text, Option-cases, arith,
}
use account_services.Identity.{normalize_security_key}
use account_services.Portfolio.State.{Position, PositionsShm, PositionManager, get_position}
use account_services.Portfolio.Securities.{on_security_row}
use account_services.Portfolio.Securities.Rows.{IsIndexedIn, IsIndexed}
use account_services.Portfolio.Securities.Volumes.{
  SecurityCall, row_of, row_step, security_step, security_step-on_row,
}

get_position-mapped :
    (m : PositionManager) (key : Text) {k : Text} {row : ℕ}
    → normalize_security_key key ≡ some k
    → get_position m key ≡ some row
    → (s : PositionsShm) × (m.shm ≡ some s) × (lookup k m.security_to_row ≡ some row)
unfolding get_position
get_position-mapped m key n h = ground arith

get_position-id :
    (m : PositionManager) (key : Text) {k : Text} {row : ℕ}
    → IsIndexed m
    → normalize_security_key key ≡ some k
    → get_position m key ≡ some row
    → (s : PositionsShm) × (m.shm ≡ some s) × ((s.positions row).id ≡ k)
get_position-id m key {k} {row} v n h =
    let (s, mapped, known) = get_position-mapped m key n h in
    let index : IsIndexedIn s m.security_to_row = rw mapped at v in
    (s, mapped, (index.1 k row known).2)

module _ (now : ℕ) (body : Position → Bool × Position) (m : PositionManager) where
  get_position-on_security_row :
      (k j : Text) → get_position (on_security_row now k body m).1 j ≡ get_position m j
  unfolding get_position
  get_position-on_security_row k j = ground arith

  other_row :
      (k j : Text) {a b : ℕ}
      → get_position m k ≡ some a
      → get_position m j ≡ some b
      → a ≢ b
      → row_of (on_security_row now k body m).1 j ≡ row_of m j
  other_row k j {a} {b} at_a at_b differ = ground (arith, get_position-on_security_row k j)

-- Every indexed row bears its key, so keys with different normal forms have different rows.
rows_differ :
    (m : PositionManager) (k j : Text) {k' j' : Text} {a b : ℕ}
    → IsIndexed m
    → normalize_security_key k ≡ some k'
    → normalize_security_key j ≡ some j'
    → k' ≢ j'
    → get_position m k ≡ some a
    → get_position m j ≡ some b
    → a ≢ b
rows_differ m k j {k'} {j'} {a} {b} v nk nj differ at_a at_b same =
    let (s, ms, id_a) = get_position-id m k v nk at_a in
    let (t, mt, id_b) = get_position-id m j v nj at_b in differ (cc)

-- A call on one security leaves the row of another alone, where the index is right and the two
-- keys have different normal forms.
pub security_step-isolated :
    (now : ℕ) (k j : Text) {k' j' : Text} (c : SecurityCall) (m : PositionManager)
    → IsIndexed m
    → normalize_security_key k ≡ some k'
    → normalize_security_key j ≡ some j'
    → k' ≢ j'
    → row_of (security_step now k c m).1 j ≡ row_of m j
security_step-isolated now k j {k'} {j'} c m v nk nj differ =
    rw (security_step-on_row now k c m) (elim (Option-cases (get_position m k)) [
      | inl none_k ↦ ground arith
      | inr (a, at_a) ↦ elim (Option-cases (get_position m j)) [
        | inl none_j ↦ ground (arith, get_position-on_security_row now (row_step c) m k j)
        | inr (b, at_b) ↦
            other_row now (row_step c) m k j at_a at_b (rows_differ m k j v nk nj differ at_a at_b)
      ]
    ])
