-- ===== src/Portfolio/Securities/Rows.antt =====
-- The index of the security rows, and how `add_security` extends it.
use account_services.Base.{
  ℕ, ◌+◌, ◌≤◌, ◌<◌, ◌≡◌, ◌⊎◌, inl, inr, false, none, some, [], Map, Text, assign, HasNoNul, lookup,
  insert, lookup-insert, eq_text, text_eq, text_eq_iff, empty, leb, Option-cases, Bool-cases, arith,
}
use account_services.Types.{Market}
use account_services.Identity.{build_internal_security_id, normalize_security_key}
use account_services.Identity.Laws.{normalize_security_key-build, build-assign}
use account_services.Portfolio.State.{
  PositionsShm, PositionManager, get_position, clamp_security_count, max_security_positions,
  position_text_size,
}
use account_services.Portfolio.Securities.{add_security, append_row, add_row_for}

-- Every indexed key has a row within the count, and the row bears the key.
abbrev pub IsIndexedIn : PositionsShm → Map Text ℕ → Type 0
IsIndexedIn s index =
    (s.position_count ≤ max_security_positions)
    × ((key : Text) (row : ℕ)
        → lookup key index ≡ some row
        → (1 ≤ row) × (row ≤ s.position_count) × ((s.positions row).id ≡ key))

abbrev pub IsIndexed : PositionManager → Type 0
IsIndexed m = elim m.shm [ none ↦ Unit | some s ↦ IsIndexedIn s m.security_to_row ]

append_row-IsIndexedIn :
    (now : ℕ) (key name : Text) (s : PositionsShm) (index : Map Text ℕ)
    → IsIndexedIn s index
    → s.position_count < max_security_positions
    → assign position_text_size key ≡ key
    → IsIndexedIn (append_row now key name s) (insert key (s.position_count + 1) index)
unfolding append_row
append_row-IsIndexedIn now key name s index v room fits = (
  omega arith,
  λ j row h. elim (Bool-cases (text_eq key j)) [
    | inl same ↦ ground (arith, lookup-insert key j (s.position_count + 1) index, text_eq_iff key j)
    | inr other ↦ ground (arith, lookup-insert key j (s.position_count + 1) index, v.1 j row)
  ],
)

clamp_id : (n : ℕ) → n ≤ max_security_positions → clamp_security_count n ≡ n
unfolding clamp_security_count
clamp_id n h = ground arith

add_row_for-IsIndexed :
    (now : ℕ) (key name : Text) (s : PositionsShm) (m : PositionManager)
    → IsIndexedIn s m.security_to_row
    → assign position_text_size key ≡ key
    → m.shm ≡ some s
    → IsIndexed (add_row_for now key name s m).1
unfolding add_row_for
add_row_for-IsIndexed now key name s m v fits mapped =
    rw (clamp_id s.position_count v.0)
      (elim (Bool-cases (leb max_security_positions s.position_count)) [
        | inl full ↦ rw full v
        | inr room ↦
            rw room (append_row-IsIndexedIn now key name s m.security_to_row v (ground arith) fits)
      ])

-- The ends of a call: refused, a known key, or a new row.
module _ (now : ℕ) (code name : Text) (market : Market) (m : PositionManager) where
  abbrev Known : Text → PositionsShm → Type 0
  Known key s =
      (row : ℕ) × (lookup key m.security_to_row ≡ some row)
      × (add_security now code name market m ≡ (key, m))

  abbrev Fresh : Text → PositionsShm → Type 0
  Fresh key s =
      (lookup key m.security_to_row ≡ none)
      × (add_security now code name market m ≡ add_row_for now key name s m)

  add_security_cases :
      (add_security now code name market m ≡ ([], m))
      ⊎ ((key : Text) × (s : PositionsShm) × (build_internal_security_id market code ≡ some key)
          × (m.shm ≡ some s)
          × (Known key s ⊎ Fresh key s))
  unfolding add_security
  add_security_cases = elim (Option-cases m.shm) [
    | inl null ↦ inl (ground arith)
    | inr (s, mapped) ↦ elim (Bool-cases (empty code)) [
      | inl e ↦ inl (ground arith)
      | inr e ↦ elim (Option-cases (build_internal_security_id market code)) [
        | inl b ↦ inl (ground arith)
        | inr (key, b) ↦ elim (Option-cases (lookup key m.security_to_row)) [
          | inl fresh ↦ inr (key, s, b, mapped, inr (fresh, ground arith))
          | inr (row, known) ↦ inr (key, s, b, mapped, inl (row, known, ground arith))
        ]
      ]
    ]
  ]

-- Adding a security, whether a row is found, made or refused, keeps the index right.
pub add_security-IsIndexed :
    (now : ℕ) (code name : Text) (market : Market) (m : PositionManager)
    → IsIndexed m
    → IsIndexed (add_security now code name market m).1
add_security-IsIndexed now code name market m v = elim (add_security_cases now code name market m) [
  | inl e ↦ rw e v
  | inr (key, s, b, mapped, inl (row, known, e)) ↦ rw e v
  | inr (key, s, b, mapped, inr (fresh, e)) ↦
      rw e (
        add_row_for-IsIndexed now key name s m (rw mapped at v) (build-assign market code b) mapped)
]

added-found :
    (now : ℕ) (key name : Text) (s : PositionsShm) (m : PositionManager)
    → IsIndexedIn s m.security_to_row
    → m.shm ≡ some s
    → empty (add_row_for now key name s m).0 ≡ false
    → normalize_security_key key ≡ some key
    → get_position (add_row_for now key name s m).1 (add_row_for now key name s m).0
      ≡ some (s.position_count + 1)
unfolding add_row_for get_position append_row
added-found now key name s m v mapped done normal = ground (
  arith,
  clamp_id s.position_count v.0,
  clamp_id (s.position_count + 1),
  lookup-insert key key (s.position_count + 1) m.security_to_row,
  text_eq_iff key key,
)

known-found :
    (key : Text) (row : ℕ) (s : PositionsShm) (m : PositionManager)
    → IsIndexedIn s m.security_to_row
    → m.shm ≡ some s
    → lookup key m.security_to_row ≡ some row
    → normalize_security_key key ≡ some key
    → get_position m key ≡ some row
unfolding get_position
known-found key row s m v mapped known normal =
    ground (arith, clamp_id s.position_count v.0, v.1 key row known)

-- In a table whose index is right, a key that `add_security` returns for a NUL-free code, if it is
-- not empty, has a row afterwards.
pub get_position-add_security :
    (now : ℕ) (code name : Text) (market : Market) (m : PositionManager)
    → IsIndexed m
    → HasNoNul code
    → empty (add_security now code name market m).0 ≡ false
    → (row : ℕ) × (get_position
          (add_security now code name market m).1
          (add_security now code name market m).0
        ≡ some row)
get_position-add_security now code name market m v h done =
    elim (add_security_cases now code name market m) [
      | inl e ↦ ground arith
      | inr (key, s, b, mapped, inl (row, known, e)) ↦ (
        row,
        rw e (
            known-found key row s m (rw mapped at v) mapped known
              (normalize_security_key-build market code h b)),
      )
      | inr (key, s, b, mapped, inr (fresh, e)) ↦ (
        s.position_count + 1,
        rw e (
            added-found now key name s m (rw mapped at v) mapped (rw e at done)
              (normalize_security_key-build market code h b)),
      )
    ]
