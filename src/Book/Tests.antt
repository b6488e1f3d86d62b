-- ===== src/Book/Tests.antt =====
-- A book of four slots with a parent and its child, and the book's theorems at it.
use account_services.Base.{
  ◌==◌, if◌then◌else◌, none, ◌≢◌, ℕ, ◌-◌, ◌≡◌, refl, Bool, true, false, some, List, [], ◌∷◌, inl,
  saturating_add, lookup, insert, nat_eq, contains, arith,
}
use account_services.Types.{OrderType, OrderState, is_new, is_terminal_state, status_progress_rank}
use account_services.Request.{blank_request}
use account_services.Book.State.{
  OrderEntry, blank_entry, OrderBook, new_book, find_order, is_managed_parent,
  ensure_next_order_id_at_least, saturated_next_order_id,
}
use account_services.Book.Slots.{IsValid}
use account_services.Book.Refresh.{
  add_child, sum_children, refreshed_state, refreshed_parent, apply_totals,
  refresh_parent_from_children,
}
use account_services.Book.Refresh.Sums.{new_children}
use account_services.Book.Refresh.Parent.{ShowsSums, ShowsProgress, refresh_parent_lem}
use account_services.Book.Orders.{
  stored_entry, place, index_broker, index_security, index_child, add_to_slot, add_order,
  archive_order,
}
use account_services.Book.Orders.Found.{find_order-add_order}
use account_services.Book.Orders.Gone.{find_order-archive_order}
use account_services.Book.Updates.{update_state, update_trade}
use account_services.Book.Updates.Frame.{find_order-update_state_other}
use account_services.Book.Updates.Trade.{
  IsAccounted, EndsWhenFilled, update_trade_lem, find_order-update_trade_other,
}
use account_services.Book.Valid.{BookCall, book_step, book_run, book_run-IsValid}

abbrev entry : ℕ → ℕ → Bool → ℕ → OrderEntry
entry id volume child parent = record blank_entry {
  request = record blank_request {
    internal_order_id = id;
    order_type = OrderType.new;
    volume_entrust = volume;
    volume_remain = volume;
    order_state = OrderState.trader_submitted;
  };
  submit_time_ns = 5;
  last_update_ns = 5;
  is_split_child = child;
  parent_order_id = parent;
}

abbrev calls : List BookCall
calls =
    BookCall.adds 5 (entry 10 300 false 0)
    ∷ BookCall.adds 6 (entry 11 100 true 10)
    ∷ BookCall.adds 7 (entry 12 200 true 10)
    ∷ []

abbrev family : OrderBook
family = book_run 4 calls (new_book 4)

book_run-IsValid_example : IsValid 4 family
book_run-IsValid_example = book_run-IsValid 4 calls

family_run :
    (lookup 10 family.parent_to_children ≡ some (11 ∷ 12 ∷ []))
    × (lookup 11 family.child_to_parent ≡ some 10)
    × (lookup 10 family.child_to_parent ≡ none)
    × (is_managed_parent 10 family ≡ false)
    × (find_order 10 family ≡ some (entry 10 300 false 0))
    × (find_order 11 family ≡ some (entry 11 100 true 10))
    × (find_order 12 family ≡ some (entry 12 200 true 10))
    × (new_children family (11 ∷ 12 ∷ []) ≡ entry 11 100 true 10 ∷ entry 12 200 true 10 ∷ [])
    × (contains 10 family.split_parent_error_latched ≡ false)
unfolding book_run book_step add_order add_to_slot place index_broker index_security index_child
    stored_entry new_book lookup insert ensure_next_order_id_at_least saturated_next_order_id is_new
    refresh_parent_from_children apply_totals sum_children add_child refreshed_parent
    refreshed_state status_progress_rank is_terminal_state saturating_add find_order new_children
family_run = (refl, refl, refl, refl, refl, refl, refl, refl, refl)

valid : IsValid 4 family
valid = book_run-IsValid 4 calls

refresh_parent_lem_example :
    (e' : OrderEntry) × (find_order 10 (refresh_parent_from_children 10 family) ≡ some e')
    × ShowsSums (new_children family (11 ∷ 12 ∷ [])) (entry 10 300 false 0) e'
    × ShowsProgress
        (new_children family (11 ∷ 12 ∷ []))
        (contains 10 family.split_parent_error_latched)
        (entry 10 300 false 0).request.order_state
        e'.request.order_state
refresh_parent_lem_example =
    refresh_parent_lem 10 family family_run.3 family_run.4 family_run.0
      (rw family_run.7 (omega arith))
      (rw family_run.7 (
        (omega arith, omega arith, omega arith, omega arith),
        ((omega arith, omega arith, omega arith, omega arith), tt),
      ))

free_of_parent :
    (find_order 10 family ≡ some (entry 10 300 false 0))
    × (lookup 10 family.child_to_parent ≢ some 10)
free_of_parent = (family_run.4, λ h. ground (arith, h, family_run.2))

child_apart : lookup 11 family.child_to_parent ≢ some 11
child_apart h = ground (arith, h, family_run.1)

update_trade_lem_example :
    (e' : OrderEntry) × (find_order 11 (update_trade 9 11 100 7 700 3 family).1 ≡ some e')
    × IsAccounted e'.request
    × (e'.request.volume_remain ≡ 100 - 100)
    × EndsWhenFilled 100 (entry 11 100 true 10).request e'.request
update_trade_lem_example =
    update_trade_lem 4 9 11 100 7 700 3 family valid family_run.5 (inl child_apart) (omega arith)
      (record { entrusted = omega arith; fits = omega arith; adds_up = refl })

find_order-update_trade_other_example :
    find_order 12 (update_trade 9 11 100 7 700 3 family).1 ≡ find_order 12 family
find_order-update_trade_other_example =
    find_order-update_trade_other 4 9 11 100 7 700 3 family valid 12 (omega arith)
      (inl (λ h. ground (arith, h, family_run.1)))

find_order-update_state_other_example :
    find_order 12 (update_state 9 11 OrderState.market_accepted family).1 ≡ find_order 12 family
find_order-update_state_other_example =
    find_order-update_state_other 4 9 11 OrderState.market_accepted family valid 12 (omega arith)
      (inl (λ h. ground (arith, h, family_run.1)))

one_more : (add_order 8 (entry 13 50 false 0) family).0 ≡ true
unfolding book_run book_step add_order add_to_slot place index_broker index_security index_child
    stored_entry new_book lookup insert ensure_next_order_id_at_least saturated_next_order_id is_new
    refresh_parent_from_children apply_totals sum_children add_child refreshed_parent
    refreshed_state status_progress_rank is_terminal_state saturating_add find_order new_children
one_more = refl

find_order-add_order_example :
    find_order 13 (add_order 8 (entry 13 50 false 0) family).1
    ≡ (if 13 == 13 then some (stored_entry 8 (entry 13 50 false 0)) else find_order 13 family)
find_order-add_order_example =
    find_order-add_order 4 8 13 (entry 13 50 false 0) family valid one_more (inl refl)

find_order-archive_order_example :
    find_order 12 (archive_order 12 family).1 ≡ (if 12 == 12 then none else find_order 12 family)
find_order-archive_order_example = find_order-archive_order 4 12 12 family valid
