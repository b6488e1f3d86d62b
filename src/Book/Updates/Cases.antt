-- ===== src/Book/Updates/Cases.antt =====
-- The ends of the updates, and that they move no slot.
use account_services.Base.{
  ℕ, ◌≡◌, refl, ap, ◌∙◌, ◌⊎◌, inl, inr, Bool, true, false, not, ◌&&◌, none, some, lookup, insert,
  nat_eq, Bool-cases, Option-cases, ◌==◌, arith,
}
use account_services.Types.{OrderState, state_code}
use account_services.Book.State.{
  OrderEntry, OrderBook, status_updated, trade_updated, parent_refreshed, find_slot, store, notify,
  is_managed_parent, has_children,
}
use account_services.Book.Slots.{slots_of, slots_of-store, slots_of-notify}
use account_services.Book.Refresh.{refresh_parent_from_children}
use account_services.Book.Refresh.Frame.{slots_of-refresh}
use account_services.Book.Updates.{
  refresh_parent_of, latch_error, with_state, update_state, trade_request, update_trade,
  mark_managed_parent, ManagedParentView, is_mirrored, mirror, sync_managed_parent_view,
}

pub refresh_parent_of_cases :
    (k : ℕ) (b : OrderBook)
    → (refresh_parent_of k b ≡ b)
      ⊎ ((p : ℕ) × (lookup k b.child_to_parent ≡ some p)
          × (is_managed_parent p b ≡ false)
          × (refresh_parent_of k b ≡ refresh_parent_from_children p b))
unfolding refresh_parent_of
refresh_parent_of_cases k b = elim (Option-cases (lookup k b.child_to_parent)) [
  | inl orphan ↦ inl (ground arith)
  | inr (p, child) ↦ elim (Bool-cases (is_managed_parent p b)) [
    | inl e ↦ inl (ground arith)
    | inr e ↦ inr (p, child, e, ground arith)
  ]
]

pub slots_of-refresh_parent_of :
    (k : ℕ) (b : OrderBook) → slots_of (refresh_parent_of k b) ≡ slots_of b
slots_of-refresh_parent_of k b = elim (refresh_parent_of_cases k b) [
  | inl e ↦ ap slots_of e
  | inr (p, _, _, e) ↦ ap slots_of e ∙ slots_of-refresh p b
]

module _ (now k : ℕ) (st : OrderState) (b : OrderBook) where
  pub update_state_absent : find_slot k b ≡ none → update_state now k st b ≡ (false, b)
  unfolding update_state
  update_state_absent h = ground arith

  pub update_state_at :
      (slot : ℕ)
      → find_slot k b ≡ some slot
      → update_state now k st b ≡ (
        true,
        notify slot status_updated (
            refresh_parent_of k
              (latch_error k st (store slot (with_state now st (b.orders slot)) b))),
      )
  unfolding update_state
  update_state_at slot h = rw (h, update_state)

pub slots_of-latch_error :
    (k : ℕ) (st : OrderState) (b : OrderBook) → slots_of (latch_error k st b) ≡ slots_of b
slots_of-latch_error k st b =
    elim (Bool-cases (
      (state_code st == state_code OrderState.trader_error)
      && (has_children k b && not (is_managed_parent k b)))) [ inl e ↦ rw e | inr e ↦ rw e ]

pub slots_of-update_state :
    (now k : ℕ) (st : OrderState) (b : OrderBook)
    → slots_of (update_state now k st b).1 ≡ slots_of b
slots_of-update_state now k st b = elim (Option-cases (find_slot k b)) [
  | inl absent ↦ ap (λ (r : Bool × OrderBook). slots_of r.1) (update_state_absent now k st b absent)
  | inr (slot, at) ↦
      let written = store slot (with_state now st (b.orders slot)) b in
      let latched = latch_error k st written in
      ap (λ (r : Bool × OrderBook). slots_of r.1) (update_state_at now k st b slot at)
      ∙ slots_of-notify slot status_updated (refresh_parent_of k latched)
      ∙ slots_of-refresh_parent_of k latched
      ∙ slots_of-latch_error k st written
      ∙ slots_of-store slot (with_state now st (b.orders slot)) b refl
]

module _ (now k vol px val fee : ℕ) (b : OrderBook) where
  pub update_trade_absent : find_slot k b ≡ none → update_trade now k vol px val fee b ≡ (false, b)
  unfolding update_trade
  update_trade_absent h = ground arith

  abbrev pub traded_entry : OrderEntry → OrderEntry
  traded_entry e = record e {
    request = trade_request vol px val fee e.request;
    last_update_ns = now;
  }

  pub update_trade_at :
      (slot : ℕ)
      → find_slot k b ≡ some slot
      → update_trade now k vol px val fee b ≡ (
        true,
        notify slot trade_updated
            (refresh_parent_of k (store slot (traded_entry (b.orders slot)) b)),
      )
  unfolding update_trade
  update_trade_at slot h = rw (h, update_trade)

  pub slots_of-update_trade : slots_of (update_trade now k vol px val fee b).1 ≡ slots_of b
  unfolding trade_request
  slots_of-update_trade = elim (Option-cases (find_slot k b)) [
    | inl absent ↦ ap (λ (r : Bool × OrderBook). slots_of r.1) (update_trade_absent absent)
    | inr (slot, at) ↦
        let written = store slot (traded_entry (b.orders slot)) b in
        ap (λ (r : Bool × OrderBook). slots_of r.1) (update_trade_at slot at)
        ∙ slots_of-notify slot trade_updated (refresh_parent_of k written)
        ∙ slots_of-refresh_parent_of k written
        ∙ slots_of-store slot (traded_entry (b.orders slot)) b refl
  ]

pub slots_of-mark_managed_parent :
    (k : ℕ) (b : OrderBook) → slots_of (mark_managed_parent k b).1 ≡ slots_of b
unfolding mark_managed_parent
slots_of-mark_managed_parent k b = elim (Option-cases (find_slot k b)) [
  | inl absent ↦ rw (absent, mark_managed_parent)
  | inr (slot, at) ↦ rw (at, mark_managed_parent)
]

pub slots_of-sync_managed_parent_view :
    (now k : ℕ) (v : ManagedParentView) (st : OrderState) (b : OrderBook)
    → slots_of (sync_managed_parent_view now k v st b).1 ≡ slots_of b
unfolding sync_managed_parent_view mirror
slots_of-sync_managed_parent_view now k v st b = elim (Option-cases (find_slot k b)) [
  | inl absent ↦ rw (absent, sync_managed_parent_view)
  | inr (slot, at) ↦ elim (Bool-cases (is_mirrored v st (b.orders slot).request)) [
    | inl same ↦ rw (at, sync_managed_parent_view, same)
    | inr changed ↦
        let marked = record b { managed_parent_ids = insert k tt b.managed_parent_ids } in
        let synced = record (b.orders slot) {
          request = mirror v st (b.orders slot).request;
          last_update_ns = now;
        } in
        rw (at, sync_managed_parent_view, changed)
          (slots_of-notify slot parent_refreshed (store slot synced marked)
            ∙ slots_of-store slot synced marked refl)
  ]
]
