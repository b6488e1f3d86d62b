-- ===== src/Portfolio/TradeRecord/Run.antt =====
-- The indices of the trades after any trades were added.
use account_services.Base.{
  ℕ, ◌+◌, ◌<◌, ◌≤◌, ◌≡◌, refl, inl, inr, Option-cases, Bool-cases, none, some, List, [], ◌∷◌, ◌==◌,
  length, length-append, Text, eq_text, nat_eq, u64_mod, lookup, lookup-insert, arith,
  if◌then◌else◌,
}
use account_services.Portfolio.TradeRecord.{
  TradeRecord, TradeRecordManager, no_trades, at_indices, indices_of, add_trade, stored_id,
  is_known, find_trade, get_trades_by_order, get_trades_by_security, get_all_trades,
}
use account_services.Portfolio.TradeRecord.Groups.{
  with_key, Groups, push-Groups, get_elem?-append, get_elem?-length,
}

abbrev order_of : TradeRecord → ℕ
order_of t = t.order_id

abbrev security_of : TradeRecord → Text
security_of t = t.security_id

abbrev pub add_trades : List TradeRecord → TradeRecordManager → TradeRecordManager
add_trades [] m = m
add_trades (t ∷ rest) m = add_trades rest (add_trade t m)

abbrev IsGrouped : TradeRecordManager → Type 0
IsGrouped m = Groups order_of m.trades m.order_index × Groups security_of m.trades m.security_index

no_trades-IsGrouped : IsGrouped no_trades
unfolding indices_of lookup at_indices
no_trades-IsGrouped = ((λ k. (tt, refl)), (λ k. (tt, refl)))

add_trade-IsGrouped :
    (t : TradeRecord) (m : TradeRecordManager) → IsGrouped m → IsGrouped (add_trade t m)
unfolding add_trade
add_trade-IsGrouped t m v =
    let stored = record t { trade_id = (stored_id t.trade_id m).0 } in
    (
      push-Groups order_of stored m.trades m.order_index v.0,
      push-Groups security_of stored m.trades m.security_index v.1,
    )

add_trades-IsGrouped :
    (ts : List TradeRecord) (m : TradeRecordManager) → IsGrouped m → IsGrouped (add_trades ts m)
add_trades-IsGrouped [] m v = v
add_trades-IsGrouped (t ∷ rest) m v =
    add_trades-IsGrouped rest (add_trade t m) (add_trade-IsGrouped t m v)

-- After any trades were added to a new manager, its trades by order and by security are those of
-- all its trades that bear the order and the security, in the order in which they were added.
pub get_trades_lem :
    (ts : List TradeRecord) (order_id : ℕ) (security_id : Text)
    → let m = add_trades ts no_trades in
      (get_trades_by_order order_id m ≡ with_key (λ t. t.order_id) order_id (get_all_trades m))
      × (get_trades_by_security security_id m
          ≡ with_key (λ t. t.security_id) security_id (get_all_trades m))
unfolding get_trades_by_order get_trades_by_security
get_trades_lem ts order_id security_id =
    let v = add_trades-IsGrouped ts no_trades no_trades-IsGrouped in
    ((v.0 order_id).1, (v.1 security_id).1)

-- The indices by id point into the list, and every id is below the one that is next.
abbrev pub HasFreshIds : TradeRecordManager → Type 0
HasFreshIds m =
    (1 ≤ m.next_trade_id)
    × ((id i : ℕ) → lookup id m.id_index ≡ some i → (id < m.next_trade_id) × (i < length m.trades))

next_unknown : (m : TradeRecordManager) → HasFreshIds m → lookup m.next_trade_id m.id_index ≡ none
next_unknown m v = elim (Option-cases (lookup m.next_trade_id m.id_index)) [
  | inl unknown ↦ unknown
  | inr (i, known) ↦ absurd (omega (arith, (v.1 m.next_trade_id i known).0))
]

-- The id that a trade is stored with is unknown, and below the one that is next afterwards.
stored_id_lem :
    (id : ℕ) (m : TradeRecordManager)
    → HasFreshIds m
    → id + 1 < u64_mod
    → m.next_trade_id + 1 < u64_mod
    → let (new, next) = stored_id id m in
      (lookup new m.id_index ≡ none) × (new < next) × (m.next_trade_id ≤ next)
unfolding stored_id is_known
stored_id_lem id m v small room = elim (Option-cases (lookup id m.id_index)) [
  | inl unknown ↦ ground (arith, next_unknown m v)
  | inr (i, known) ↦ ground (arith, next_unknown m v)
]

add_trade-HasFreshIds :
    (t : TradeRecord) (m : TradeRecordManager)
    → HasFreshIds m
    → t.trade_id + 1 < u64_mod
    → m.next_trade_id + 1 < u64_mod
    → HasFreshIds (add_trade t m)
unfolding add_trade
add_trade-HasFreshIds t m v small room =
    let (new, below, more) = stored_id_lem t.trade_id m v small room in
    (
      omega (arith, below),
      λ id i h. ground (
        arith,
        lookup-insert (stored_id t.trade_id m).0 id (length m.trades) m.id_index,
        v.1 id i,
        length-append m.trades ((record t { trade_id = (stored_id t.trade_id m).0 }) ∷ []),
        below,
        more,
      ),
    )

found_after :
    (t : TradeRecord) (m : TradeRecordManager) (id : ℕ)
    → HasFreshIds m
    → let new = (stored_id t.trade_id m).0 in
      find_trade id (add_trade t m)
      ≡ (if new == id then some (record t { trade_id = new }) else find_trade id m)
unfolding find_trade add_trade
found_after t m id v =
    let new = (stored_id t.trade_id m).0 in
    let stored = record t { trade_id = new } in
    elim (Bool-cases (new == id)) [
      | inl same ↦
          rw (find_trade, add_trade, lookup-insert new id (length m.trades) m.id_index, same)
            (get_elem?-length m.trades stored)
      | inr other ↦
          rw (find_trade, add_trade, lookup-insert new id (length m.trades) m.id_index, other)
            (elim (Option-cases (lookup id m.id_index)) [
              | inl unknown ↦ rw (find_trade, unknown) refl
              | inr (i, known) ↦
                  rw (find_trade, known)
                    (get_elem?-append m.trades (stored ∷ []) i (v.1 id i known).1)
            ])
    ]

-- In a manager whose ids are known and below the next one, a trade that is added, where neither its
-- id nor the next one is the last of its type, gets an id that was unknown: it is found by it, every
-- other id finds what it found before, and the manager stays such.
pub find_trade-add_trade :
    (t : TradeRecord) (m : TradeRecordManager) (id : ℕ)
    → HasFreshIds m
    → t.trade_id + 1 < u64_mod
    → m.next_trade_id + 1 < u64_mod
    → let new = (stored_id t.trade_id m).0 in
      (find_trade new m ≡ none)
      × (find_trade id (add_trade t m)
          ≡ (if new == id then some (record t { trade_id = new }) else find_trade id m))
      × HasFreshIds (add_trade t m)
unfolding find_trade
find_trade-add_trade t m id v small room = (
  rw ((stored_id_lem t.trade_id m v small room).0, find_trade) refl,
  found_after t m id v,
  add_trade-HasFreshIds t m v small room,
)
