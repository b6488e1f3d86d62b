-- ===== src/Recovery.antt =====
-- src/order/order_recovery.hpp and order_recovery.cpp: after a restart, the orders that the trading
-- process still has are taken from the order slots into the book. `seen` gives what an attempt to
-- read a slot finds in memory that another process may write; `arrange` is the order in which
-- std::unordered_map lists its elements; `now` is the value of now_ns(). The counters that the
-- source only logs stand beside the book.
pub mod Newest
pub mod Restored
mod Tests
use account_services.Base.{
  ℕ, zero, suc, ◌+◌, Bool, true, false, not, ◌&&◌, ◌||◌, Option, none, some, List, [], ◌∷◌, Map,
  lookup, insert, nat_eq, add64, u32_max, ltb, ◌==◌, if◌then◌else◌,
}
use account_services.Types.{RiskResult, is_terminal_state}
use account_services.Layout.{UpstreamShm}
use account_services.Pool.{
  OrdersShm, OrderSlot, OrderSlotState, Snapshot, Loads, orders_shm_read_snapshot,
}
use account_services.Book.State.{
  OrderEntry, OrderBook, saturated_next_order_id, ensure_next_order_id_at_least,
}
use account_services.Book.Orders.{add_order}

pub record OrderRecoveryStats : Type 0 where
  pub scanned : ℕ
  pub eligible : ℕ
  pub restored : ℕ
  pub unreadable : ℕ
  pub dedup_dropped : ℕ
  pub add_failed : ℕ
  pub next_order_seed : ℕ

abbrev pub blank_recovery_stats : OrderRecoveryStats
blank_recovery_stats = record {
  scanned = 0;
  eligible = 0;
  restored = 0;
  unreadable = 0;
  dedup_dropped = 0;
  add_failed = 0;
  next_order_seed = 1;
}

pub record Candidate : Type 0 where
  pub index : ℕ
  pub snapshot : Snapshot

abbrev pub Candidates : Type 0
Candidates = Map ℕ Candidate

-- The memory during one call of orders_shm_read_snapshot.
pub record Reading : Type 0 where
  pub shm : OrdersShm
  pub loads : ℕ → Loads
  pub slot : ℕ → OrderSlot

unfoldable pub is_recoverable_stage : OrderSlotState → Bool
is_recoverable_stage OrderSlotState.downstream_queued = true
is_recoverable_stage OrderSlotState.downstream_dequeued = true
is_recoverable_stage _ = false

unfoldable pub read_snapshot_with_retry : ℕ → ℕ → (ℕ → Reading) → Option Snapshot
read_snapshot_with_retry zero index seen = none
read_snapshot_with_retry (suc attempts) index seen =
    let rest = read_snapshot_with_retry attempts index (λ i. seen (i + 1)) in
    elim (orders_shm_read_snapshot index (seen 0).shm (seen 0).loads (seen 0).slot) [
      | none ↦ rest
      | some snapshot ↦ some snapshot
    ]

-- kRecoverReadMaxAttempts
abbrev pub read_max_attempts : ℕ
read_max_attempts = 5

abbrev pub read_slot : (ℕ → ℕ → Reading) → ℕ → Option Snapshot
read_slot seen index = read_snapshot_with_retry read_max_attempts index (seen index)

-- The three tests on a snapshot that was read.
unfoldable pub is_eligible : Snapshot → Bool
is_eligible s =
    is_recoverable_stage s.stage
    && (not (s.request.internal_order_id == 0) && not (is_terminal_state s.request.order_state))

unfoldable pub should_replace : Candidate → Candidate → Bool
should_replace c existing =
    ltb existing.snapshot.last_update_ns c.snapshot.last_update_ns
    || ((c.snapshot.last_update_ns == existing.snapshot.last_update_ns)
        && ltb existing.index c.index)

-- try_emplace, and the replacement of an older candidate
unfoldable pub keep_candidate :
    Candidate → Candidates → OrderRecoveryStats → Candidates × OrderRecoveryStats
keep_candidate c candidates stats =
    let order_id = c.snapshot.request.internal_order_id in
    elim (lookup order_id candidates) [
      | none ↦ (insert order_id c candidates, stats)
      | some existing ↦ (
        if should_replace c existing then insert order_id c candidates else candidates,
        record stats { dedup_dropped = add64 stats.dedup_dropped 1 },
      )
    ]

unfoldable pub scan_slot :
    (ℕ → Option Snapshot) → ℕ → Candidates → OrderRecoveryStats → Candidates × OrderRecoveryStats
scan_slot read index candidates stats =
    let stats' = record stats { scanned = add64 stats.scanned 1 } in
    elim (read index) [
      | none ↦ (candidates, record stats' { unreadable = add64 stats'.unreadable 1 })
      | some s ↦
          if is_eligible s
          then keep_candidate (record { index = index; snapshot = s }) candidates
              (record stats' { eligible = add64 stats'.eligible 1 })
          else (candidates, stats')
    ]

-- The loop over the indexes below the bound, in their order.
unfoldable pub scan_slots : (ℕ → Option Snapshot) → ℕ → Candidates × OrderRecoveryStats
scan_slots read zero = ([], blank_recovery_stats)
scan_slots read (suc index) =
    let (candidates, stats) = scan_slots read index in scan_slot read index candidates stats

unfoldable pub recovered_entry : ℕ → Candidate → OrderEntry
recovered_entry now c =
    let recovered_time =
      if c.snapshot.last_update_ns == 0 then now else c.snapshot.last_update_ns in
    record {
      request = c.snapshot.request;
      submit_time_ns = recovered_time;
      last_update_ns = recovered_time;
      strategy_id = 0;
      risk_result = RiskResult.pass;
      retry_count = 0;
      is_split_child = false;
      parent_order_id = 0;
      shm_order_index = c.index;
      fund_frozen = 0;
    }

-- The book, the counters, and max_recovered_order_id
unfoldable pub restore_candidates :
    ℕ
    → List (ℕ × Candidate)
    → OrderBook
    → OrderRecoveryStats
    → ℕ
    → OrderBook × OrderRecoveryStats × ℕ
restore_candidates now [] book stats highest = (book, stats, highest)
restore_candidates now ((order_id, c) ∷ rest) book stats highest =
    let (added, book') = add_order now (recovered_entry now c) book in
    if added
    then restore_candidates now rest book' (record stats { restored = add64 stats.restored 1 })
        (if ltb highest order_id then order_id else highest)
    else restore_candidates now rest book' (record stats { add_failed = add64 stats.add_failed 1 })
        highest

abbrev pub larger : ℕ → ℕ → ℕ
larger a b = if ltb a b then b else a

unfoldable pub seed_next_order_id :
    Option UpstreamShm → ℕ → OrderBook → OrderRecoveryStats → OrderBook × OrderRecoveryStats
seed_next_order_id upstream_shm highest book stats =
    let first : ℕ = elim upstream_shm [ none ↦ 1 | some up ↦ up.next_order_id ] in
    let seed = larger first (saturated_next_order_id highest) in
    (
      if ltb 0 seed then ensure_next_order_id_at_least seed book else book,
      record stats { next_order_seed = seed },
    )

unfoldable pub recover_from :
    ℕ
    → (Candidates → List (ℕ × Candidate))
    → (ℕ → Option Snapshot)
    → ℕ
    → Option UpstreamShm
    → OrderBook
    → OrderBook × OrderRecoveryStats
recover_from now arrange read upper upstream_shm book =
    let (candidates, stats) = scan_slots read upper in
    let (book', stats', highest) = restore_candidates now (arrange candidates) book stats 0 in
    seed_next_order_id upstream_shm highest book' stats'

unfoldable pub recover_downstream_active_orders_from_shm :
    ℕ
    → (Candidates → List (ℕ × Candidate))
    → Option OrdersShm
    → (ℕ → ℕ → Reading)
    → Option UpstreamShm
    → OrderBook
    → Bool × OrderBook
recover_downstream_active_orders_from_shm now arrange orders_shm seen upstream_shm book =
    elim orders_shm [
      | none ↦ (false, book)
      | some shm ↦
          (true, (recover_from now arrange (read_slot seen) shm.next_index upstream_shm book).0)
    ]
