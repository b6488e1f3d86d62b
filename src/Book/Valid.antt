-- ===== src/Book/Valid.antt =====
-- The table of slots is valid after any history of calls.
use account_services.Base.{ℕ, Bool, List, [], ◌∷◌, nat_eq}
use account_services.Types.{OrderState}
use account_services.Book.State.{
  OrderEntry, OrderBook, new_book, next_order_id, ensure_next_order_id_at_least,
  set_change_callback,
}
use account_services.Book.Slots.{IsValid, empty-IsValidSlots}
use account_services.Book.Orders.{add_order, archive_order, clear}
use account_services.Book.Orders.Added.{add_order-IsValid, slots_of-ensure_next_order_id_at_least}
use account_services.Book.Orders.Removed.{archive_order-IsValid, clear-IsValid}
use account_services.Book.Updates.{
  update_state, update_trade, mark_managed_parent, sync_managed_parent_view, ManagedParentView,
}
use account_services.Book.Updates.Cases.{
  slots_of-update_state, slots_of-update_trade, slots_of-mark_managed_parent,
  slots_of-sync_managed_parent_view,
}

-- The calls that change the book, with the time at which they are made.
pub data BookCall : Type 0 where
  adds : ℕ → OrderEntry → BookCall
  sets_state : ℕ → ℕ → OrderState → BookCall
  trades : ℕ → ℕ → ℕ → ℕ → ℕ → ℕ → BookCall
  marks archives ensures : ℕ → BookCall
  syncs : ℕ → ℕ → ManagedParentView → OrderState → BookCall
  takes_id clears : BookCall
  sets_callback : Bool → BookCall

unfoldable pub book_step : ℕ → BookCall → OrderBook → OrderBook
book_step capacity (BookCall.adds now e) b = (add_order now e b).1
book_step capacity (BookCall.sets_state now k st) b = (update_state now k st b).1
book_step capacity (BookCall.trades now k vol px val fee) b =
    (update_trade now k vol px val fee b).1
book_step capacity (BookCall.marks k) b = (mark_managed_parent k b).1
book_step capacity (BookCall.archives k) b = (archive_order k b).1
book_step capacity (BookCall.ensures k) b = ensure_next_order_id_at_least k b
book_step capacity (BookCall.syncs now k v st) b = (sync_managed_parent_view now k v st b).1
book_step capacity BookCall.takes_id b = (next_order_id b).1
book_step capacity BookCall.clears b = clear capacity b
book_step capacity (BookCall.sets_callback c) b = set_change_callback c b

unfoldable pub book_run : ℕ → List BookCall → OrderBook → OrderBook
book_run capacity [] b = b
book_run capacity (c ∷ cs) b = book_run capacity cs (book_step capacity c b)

pub book_step-IsValid :
    (capacity : ℕ) (c : BookCall) (b : OrderBook)
    → IsValid capacity b
    → IsValid capacity (book_step capacity c b)
unfolding book_step next_order_id set_change_callback
book_step-IsValid capacity (BookCall.adds now e) b v = add_order-IsValid capacity now e b v
book_step-IsValid capacity (BookCall.sets_state now k st) b v =
    rw (slots_of-update_state now k st b) v
book_step-IsValid capacity (BookCall.trades now k vol px val fee) b v =
    rw (slots_of-update_trade now k vol px val fee b) v
book_step-IsValid capacity (BookCall.marks k) b v = rw (slots_of-mark_managed_parent k b) v
book_step-IsValid capacity (BookCall.archives k) b v = archive_order-IsValid capacity k b v
book_step-IsValid capacity (BookCall.ensures k) b v =
    rw (slots_of-ensure_next_order_id_at_least k b) v
book_step-IsValid capacity (BookCall.syncs now k w st) b v =
    rw (slots_of-sync_managed_parent_view now k w st b) v
book_step-IsValid capacity BookCall.takes_id b v = v
book_step-IsValid capacity BookCall.clears b v = clear-IsValid capacity b
book_step-IsValid capacity (BookCall.sets_callback c) b v = v

pub new_book-IsValid : (capacity : ℕ) → IsValid capacity (new_book capacity)
unfolding new_book
new_book-IsValid capacity = empty-IsValidSlots capacity (λ _. 0)

run-IsValid :
    (capacity : ℕ) (cs : List BookCall) (b : OrderBook)
    → IsValid capacity b
    → IsValid capacity (book_run capacity cs b)
unfolding book_run
run-IsValid capacity [] b v = v
run-IsValid capacity (c ∷ cs) b v =
    run-IsValid capacity cs (book_step capacity c b) (book_step-IsValid capacity c b v)

-- After any calls on a new book of any capacity, every id in work owns a slot in the table that
-- holds its order and is not free, the free slots are in the table and differ, and the count of
-- active orders and the free slots make up the capacity.
pub book_run-IsValid :
    (capacity : ℕ) (cs : List BookCall)
    → IsValid capacity (book_run capacity cs (new_book capacity))
book_run-IsValid capacity cs =
    run-IsValid capacity cs (new_book capacity) (new_book-IsValid capacity)
