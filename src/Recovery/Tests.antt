-- ===== src/Recovery/Tests.antt =====
-- Three slots of two orders, and the recovery's theorems at them.
use account_services.Base.{ℕ, ◌≤◌, ◌≡◌, Option, none, some, lookup, nat_eq, if◌then◌else◌, ◌==◌}
use account_services.Types.{OrderType, OrderState}
use account_services.Request.{blank_request}
use account_services.Layout.{UpstreamShm}
use account_services.Pool.{OrderSlotState, OrderSlotSource, Snapshot}
use account_services.Book.State.{new_book}
use account_services.Recovery.{scan_slots, recover_from}
use account_services.Recovery.Newest.{IsNewest, scan_slots-IsNewest}
use account_services.Recovery.Restored.{HasFreshIds, recover_from-HasFreshIds}

abbrev snapshot : ℕ → ℕ → OrderSlotState → Snapshot
snapshot id time stage = record {
  request = record blank_request {
    internal_order_id = id;
    order_type = OrderType.new;
    order_state = OrderState.trader_submitted;
  };
  stage = stage;
  source = OrderSlotSource.user;
  last_update_ns = time;
}

abbrev memory : ℕ → Option Snapshot
memory i =
    if i == 0
    then some (snapshot 7 20 OrderSlotState.downstream_queued)
    else if i == 1
    then none
    else if i == 2
    then some (snapshot 9 30 OrderSlotState.upstream_queued)
    else some (snapshot 7 20 OrderSlotState.downstream_dequeued)

scan_slots-IsNewest_example : IsNewest memory 4 7 (lookup 7 (scan_slots memory 4).0)
scan_slots-IsNewest_example = scan_slots-IsNewest memory 7 4

abbrev upstream : UpstreamShm
upstream = record {
  next_order_id = 12;
  upstream_order_queue = record { head = 0; tail = 0; buffer = λ i. 0 };
}

recover_from-HasFreshIds_example :
    let after = (recover_from 40 (λ m. m) memory 4 (some upstream) (new_book 4)).0 in
    HasFreshIds after
    × ((up : UpstreamShm) → some upstream ≡ some up → up.next_order_id ≤ after.next_order_id)
unfolding new_book lookup
recover_from-HasFreshIds_example =
    recover_from-HasFreshIds 40 (λ m. m) memory 4 (some upstream) (new_book 4)
      (λ k i at. absurd (cc))
