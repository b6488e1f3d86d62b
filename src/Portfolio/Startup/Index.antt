-- ===== src/Portfolio/Startup/Index.antt =====
-- The index of the security rows after a start.
use account_services.Base.{
  ℕ, zero, suc, ◌-◌, ◌≤◌, ◌≡◌, refl, sym, subst, inl, inr, Bool, true, Bool-cases, Option-cases,
  none, some, if_keeps, [], Map, Text, text_eq, text_eq_iff, eq_text, empty, assign, lookup, insert,
  lookup-insert, update, min, arith, ◌==◌,
}
use account_services.Identity.{
  normalize_security_key, normalize_internal_security_id, parse_internal_security_id,
}
use account_services.Identity.Laws.{build-assign}
use account_services.Portfolio.State.{
  PositionsShm, PositionManager, clamp_security_count, position_text_size, max_positions,
  max_security_positions,
}
use account_services.Portfolio.Securities.Rows.{IsIndexedIn, IsIndexed}
use account_services.Portfolio.Startup.{
  LayoutSizes, fresh_table, finish_header, initialize_fresh, index_row, index_rows, clamped_table,
  initialize_again, initialize, header_compatible,
}

normalized-assign :
    (x : Text) {key : Text}
    → normalize_security_key x ≡ some key
    → assign position_text_size key ≡ key
unfolding normalize_security_key normalize_internal_security_id
normalized-assign x {key} h = elim (Option-cases (parse_internal_security_id x)) [
  | inl bad ↦ absurd (ground arith)
  | inr ((m, code), parsed) ↦ build-assign m code (ground arith)
]

-- The rows up to a given one are indexed.
abbrev IsIndexedTo : ℕ → PositionsShm → Map Text ℕ → Type 0
IsIndexedTo n s index =
    (key : Text) (row : ℕ)
    → lookup key index ≡ some row
    → (1 ≤ row) × (row ≤ n) × ((s.positions row).id ≡ key)

abbrev Indexes : ℕ → Bool × PositionsShm × Map Text ℕ → Type 0
Indexes n (done, s, index) = IsIndexedTo n s index

abbrev Counts : ℕ → Bool × PositionsShm × Map Text ℕ → Type 0
Counts n (done, s, index) = s.position_count ≡ n

more-IsIndexedTo :
    (n : ℕ) (s : PositionsShm) (index : Map Text ℕ)
    → IsIndexedTo n s index
    → IsIndexedTo (suc n) s index
more-IsIndexedTo n s index v key row h =
    let (first, last, same) = v key row h in (first, omega (arith, last), same)

named-IsIndexedTo :
    (n : ℕ) (key : Text) (s : PositionsShm) (index : Map Text ℕ)
    → IsIndexedTo n s index
    → assign position_text_size key ≡ key
    → IsIndexedTo
        (suc n)
        (record s {
          positions =
              update s.positions
                (suc n)
                (record (s.positions (suc n)) { id = assign position_text_size key });
        })
        (insert key (suc n) index)
named-IsIndexedTo n key s index v fits j row h = elim (Bool-cases (text_eq key j)) [
  | inl same ↦ ground (arith, lookup-insert key j (suc n) index, text_eq_iff key j)
  | inr other ↦ ground (arith, lookup-insert key j (suc n) index, v j row)
]

index_row-Indexes :
    (n : ℕ) (s : PositionsShm) (index : Map Text ℕ)
    → IsIndexedTo n s index
    → Indexes (suc n) (index_row (suc n) s index)
unfolding index_row
index_row-Indexes n s index v =
    let pos = s.positions (suc n) in
    if_keeps (Indexes (suc n)) (empty pos.id) (more-IsIndexedTo n s index v)
      (elim (Option-cases (normalize_security_key pos.id)) [
        | inl bad ↦ rw bad (more-IsIndexedTo n s index v)
        | inr (key, good) ↦
            rw good (named-IsIndexedTo n key s index v (normalized-assign pos.id good))
      ])

index_row-Counts :
    (n row : ℕ) (s : PositionsShm) (index : Map Text ℕ)
    → s.position_count ≡ n
    → Counts n (index_row row s index)
unfolding index_row
index_row-Counts n row s index c =
    let pos = s.positions row in
    if_keeps (Counts n) (empty pos.id) c (elim (Option-cases (normalize_security_key pos.id)) [
      | inl bad ↦ rw bad c
      | inr (key, good) ↦ rw good c
    ])

index_rows-Counts :
    (n k : ℕ) (s : PositionsShm) (index : Map Text ℕ)
    → s.position_count ≡ n
    → Counts n (index_rows k s index)
unfolding index_rows
index_rows-Counts n zero s index c = c
index_rows-Counts n (suc k) s index c =
    let ih = index_rows-Counts n k s index c in
    if_keeps (Counts n) (index_rows k s index).0
      (index_row-Counts n (suc k) (index_rows k s index).1 (index_rows k s index).2 ih) ih

-- The rows up to the given one are indexed, whether or not the walk stops early.
index_rows-Indexes : (n : ℕ) (s : PositionsShm) → Indexes n (index_rows n s [])
unfolding index_rows lookup
index_rows-Indexes zero s = λ key row h. absurd (ground arith)
index_rows-Indexes (suc n) s =
    let ih = index_rows-Indexes n s in
    if_keeps (Indexes (suc n)) (index_rows n s []).0
      (index_row-Indexes n (index_rows n s []).1 (index_rows n s []).2 ih)
      (more-IsIndexedTo n (index_rows n s []).1 (index_rows n s []).2 ih)

clamp_bound : (n : ℕ) → clamp_security_count n ≤ max_security_positions
unfolding clamp_security_count
clamp_bound n = ground arith

fresh_table-IsIndexedIn :
    (now : ℕ) (sizes : LayoutSizes) (shm : PositionsShm)
    → IsIndexedIn (fresh_table now sizes shm) []
unfolding fresh_table lookup
fresh_table-IsIndexedIn now sizes shm = (omega arith, λ key row h. absurd (ground arith))

all_rows-IsIndexedIn :
    (s : PositionsShm)
    → s.position_count ≤ max_security_positions
    → let (done, s', index) = index_rows (min s.position_count (max_positions - 1)) s [] in
      IsIndexedIn s' index
all_rows-IsIndexedIn s bound =
    let c =
      index_rows-Counts s.position_count (min s.position_count (max_positions - 1)) s [] refl in
    (
      omega (arith, c, bound),
      λ key row h.
          let (first, last, same) =
            index_rows-Indexes (min s.position_count (max_positions - 1)) s key row h in
          (first, omega (arith, c, last), same),
    )

abbrev IsLoaded : Bool × PositionManager → Type 0
IsLoaded p = IsIndexed p.1

-- A table that was in use: the index is right, whether or not a row has no key.
initialize_again-IsIndexed :
    (now : ℕ) (shm : PositionsShm) (m : PositionManager)
    → m.security_to_row ≡ []
    → IsIndexed (initialize_again now shm m).1
unfolding initialize_again finish_header clamped_table
initialize_again-IsIndexed now shm m e =
    let v = all_rows-IsIndexedIn (clamped_table shm) (clamp_bound shm.position_count) in
    rw e (
      if_keeps IsLoaded
        (index_rows (min (clamp_security_count shm.position_count) (max_positions - 1))
          (clamped_table shm) []).0
        v v)

finished-IsLoaded :
    (now : ℕ) (m : PositionManager)
    → IsIndexed m
    → IsLoaded (elim m.shm [
      | none ↦ (true, m)
      | some shm' ↦ (
        true,
        record m {
          shm = some (finish_header now 1 (clamp_security_count shm'.position_count) shm');
        },
      )
    ])
unfolding finish_header
finished-IsLoaded now m v = elim (Option-cases m.shm) [
  | inl gone ↦ rw gone v
  | inr (s, there) ↦ rw there (rw there at v)
]

initialize_fresh-IsIndexed :
    (now : ℕ) (sizes : LayoutSizes) (load : PositionManager → Bool × PositionManager)
    (shm : PositionsShm) (m : PositionManager)
    → ((x : PositionManager) → IsIndexed x → IsIndexed (load x).1)
    → m.security_to_row ≡ []
    → (initialize_fresh now sizes load shm m).0 ≡ true
    → IsIndexed (initialize_fresh now sizes load shm m).1
unfolding initialize_fresh finish_header
initialize_fresh-IsIndexed now sizes load shm m law e h =
    let fresh = record m { shm = some (fresh_table now sizes shm) } in
    let v = finished-IsLoaded now (load fresh).1 (
      law fresh (
        subst (IsIndexedIn (fresh_table now sizes shm)) (sym e)
          (fresh_table-IsIndexedIn now sizes shm))) in
    elim (Bool-cases (shm.position_count == 0)) [
      | inl none_yet ↦ elim (Bool-cases (load fresh).0) [
        | inl loaded ↦ rw (none_yet, loaded) v
        | inr failed ↦ absurd (ground arith)
      ]
      | inr used ↦ absurd (ground arith)
    ]

-- If the loader keeps every indexed key at a row that bears it, within the count and the capacity,
-- then so it is after an initialization that succeeds, whatever the table and the index were before.
pub initialize-IsIndexed :
    (now : ℕ) (sizes : LayoutSizes) (load : PositionManager → Bool × PositionManager)
    (m : PositionManager)
    → ((x : PositionManager) → IsIndexed x → IsIndexed (load x).1)
    → (initialize now sizes load m).0 ≡ true
    → IsIndexed (initialize now sizes load m).1
unfolding initialize
initialize-IsIndexed now sizes load m law h = elim (Option-cases m.shm) [
  | inl null ↦ absurd (ground arith)
  | inr (shm, mapped) ↦
      let cleared : PositionManager = record { shm = some shm; security_to_row = [] } in
      elim (Bool-cases (header_compatible sizes shm.header)) [
        | inl fits ↦ elim (Bool-cases (shm.header.init_state == 1)) [
          | inl used ↦ rw (mapped, fits, used) (initialize_again-IsIndexed now shm cleared refl)
          | inr fresh ↦
              rw (mapped, fits, fresh)
                (initialize_fresh-IsIndexed now sizes load shm cleared law refl
                  (rw (mapped, fits, fresh) at h))
        ]
        | inr other ↦ absurd (ground arith)
      ]
]
