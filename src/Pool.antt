-- ===== src/Pool.antt =====
-- src/shm/orders_shm.hpp over the layout of src/shm/shm_layout.hpp: the slots of the day's orders in
-- shared memory, each under a sequence lock. The pointer to the layout is not null. `now` is the
-- value of now_ns(). The header's identity fields, which no operation here reads, are left out.
pub mod Slots
pub mod Writers
pub mod Torn
pub mod Overlap
mod Tests
use account_services.Base.{
  ℕ, zero, suc, ◌+◌, ◌%◌, Bool, true, false, not, ◌&&◌, ◌||◌, Option, none, some, update, u32_max,
  add32, add64, ltb, leb, ◌==◌, if◌then◌else◌,
}
use account_services.Request.{OrderRequest}

pub data OrderSlotState : Type 0 where
  empty reserved upstream_queued upstream_dequeued risk_rejected : OrderSlotState
  downstream_queued downstream_dequeued terminal queue_push_failed : OrderSlotState

pub data OrderSlotSource : Type 0 where
  unknown user account_internal : OrderSlotSource

-- What the sequence number guards; also order_slot_snapshot.
pub record Snapshot : Type 0 where
  pub request : OrderRequest
  pub stage : OrderSlotState
  pub source : OrderSlotSource
  pub last_update_ns : ℕ

pub record OrderSlot : Type 0 where
  pub seq : ℕ
  pub body : Snapshot

pub record OrdersShm : Type 0 where
  pub capacity : ℕ
  pub last_update : ℕ
  pub next_index : ℕ
  pub full_reject_count : ℕ
  pub slots : ℕ → OrderSlot

unfoldable pub orders_shm_index_exists : ℕ → OrdersShm → Bool
orders_shm_index_exists index shm =
    not (index == u32_max) && (ltb index shm.next_index && ltb index shm.capacity)

-- What the compare-and-exchange loop leaves: the index, unless the pool is full.
unfoldable pub orders_shm_try_allocate : OrdersShm → Option ℕ × OrdersShm
orders_shm_try_allocate shm =
    if leb shm.capacity shm.next_index
    then (none, record shm { full_reject_count = add64 shm.full_reject_count 1 })
    else (some shm.next_index, record shm { next_index = add32 shm.next_index 1 })

abbrev pub is_odd : ℕ → Bool
is_odd seq = seq % 2 == 1

-- The number that a writer goes by, its own copy: the slot's, or one more where a writer stopped
-- halfway.
unfoldable pub even_seq : ℕ → ℕ
even_seq seq = if is_odd seq then add64 seq 1 else seq

-- The first store of a writer, after which the number is odd.
unfoldable pub begin_write : ℕ → OrderSlot → OrderSlot
begin_write seq slot = record slot { seq = add64 seq 1 }

-- The last store of a writer.
unfoldable pub publish : ℕ → OrderSlot → OrderSlot
publish seq slot = record slot { seq = add64 seq 2 }

unfoldable pub mutate : (Snapshot → Snapshot) → OrderSlot → OrderSlot
mutate mutator slot =
    let seq = even_seq slot.seq in
    let writing = begin_write seq slot in
    publish seq (record writing { body = mutator writing.body })

unfoldable pub orders_shm_mutate_slot : ℕ → ℕ → (Snapshot → Snapshot) → OrdersShm → Bool × OrdersShm
orders_shm_mutate_slot now index mutator shm =
    if orders_shm_index_exists index shm
    then (
      true,
      record shm {
        slots = update shm.slots index (mutate mutator (shm.slots index));
        last_update = now;
      },
    )
    else (false, shm)

unfoldable pub orders_shm_write_order :
    ℕ → ℕ → OrderRequest → OrderSlotState → OrderSlotSource → ℕ → OrdersShm → Bool × OrdersShm
orders_shm_write_order now index request stage source update_ns =
    orders_shm_mutate_slot now index (λ _. record {
      request = request;
      stage = stage;
      source = source;
      last_update_ns = update_ns;
    })

unfoldable pub orders_shm_sync_order : ℕ → ℕ → OrderRequest → ℕ → OrdersShm → Bool × OrdersShm
orders_shm_sync_order now index request update_ns =
    orders_shm_mutate_slot now index
      (λ slot. record slot { request = request; last_update_ns = update_ns })

unfoldable pub orders_shm_update_stage : ℕ → ℕ → OrderSlotState → ℕ → OrdersShm → Bool × OrdersShm
orders_shm_update_stage now index stage update_ns =
    orders_shm_mutate_slot now index
      (λ slot. record slot { stage = stage; last_update_ns = update_ns })

-- The index, if the order was appended.
unfoldable pub orders_shm_append :
    ℕ → OrderRequest → OrderSlotState → OrderSlotSource → ℕ → OrdersShm → Option ℕ × OrdersShm
orders_shm_append now request stage source update_ns shm =
    let (allocated, shm') = orders_shm_try_allocate shm in
    elim allocated [
      | none ↦ (none, shm')
      | some index ↦
          let (written, shm'') =
            orders_shm_write_order now index request stage source update_ns shm' in
          (if written then some index else none, shm'')
    ]

-- The times of a reader's loads in one attempt.
pub record Loads : Type 0 where
  pub seq0 : ℕ
  pub request : ℕ
  pub stage : ℕ
  pub source : ℕ
  pub last_update_ns : ℕ
  pub seq1 : ℕ

-- One attempt on a slot that changes with the time.
unfoldable pub read_attempt : (ℕ → OrderSlot) → Loads → Option Snapshot
read_attempt slot t =
    let seq0 = (slot t.seq0).seq in
    let seq1 = (slot t.seq1).seq in
    if is_odd seq0
    then none
    else if (seq0 == seq1) && not (is_odd seq1)
    then some (record {
      request = (slot t.request).body.request;
      stage = (slot t.stage).body.stage;
      source = (slot t.source).body.source;
      last_update_ns = (slot t.last_update_ns).body.last_update_ns;
    })
    else none

-- `attempts` of them, the next one with the loads of `loads 0`.
unfoldable pub read_attempts : ℕ → (ℕ → Loads) → (ℕ → OrderSlot) → Option Snapshot
read_attempts zero loads slot = none
read_attempts (suc attempts) loads slot =
    let rest = read_attempts attempts (λ i. loads (i + 1)) slot in
    elim (read_attempt slot (loads 0)) [ none ↦ rest | some snapshot ↦ some snapshot ]

-- `shm` is the memory at the test of the index, and `slot` the slot's history.
unfoldable pub orders_shm_read_snapshot :
    ℕ → OrdersShm → (ℕ → Loads) → (ℕ → OrderSlot) → Option Snapshot
orders_shm_read_snapshot index shm loads slot =
    if orders_shm_index_exists index shm then read_attempts 32 loads slot else none
