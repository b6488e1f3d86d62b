-- ===== src/Pool/Slots.antt =====
-- What the operations on the slots do, with no one else at work.
use account_services.Base.{
  ℕ, ◌+◌, ◌<◌, ◌≤◌, ◌≡◌, ◌≢◌, refl, ap, Bool-cases, ◌⊎◌, inl, inr, true, false, Option, none, some,
  update, u32_max, u64_mod, add32, add64, leb, arith,
}
use account_services.Request.{OrderRequest}
use account_services.Pool.{
  Snapshot, OrderSlot, OrderSlotState, OrderSlotSource, OrdersShm, is_odd, even_seq, begin_write,
  publish, mutate, orders_shm_index_exists, orders_shm_try_allocate, orders_shm_mutate_slot,
  orders_shm_write_order, orders_shm_append,
}

module _ (now : ℕ) (request : OrderRequest) (stage : OrderSlotState) (source : OrderSlotSource)
    (update_ns : ℕ) (shm : OrdersShm) where
  written : Snapshot
  written = record { request = request; stage = stage; source = source; last_update_ns = update_ns }

  appended : OrdersShm
  appended = record shm {
    next_index = add32 shm.next_index 1;
    slots = update shm.slots shm.next_index (mutate (λ _. written) (shm.slots shm.next_index));
    last_update = now;
  }

  append_room :
      shm.capacity < u32_max
      → leb shm.capacity shm.next_index ≡ false
      → orders_shm_append now request stage source update_ns shm ≡ (some shm.next_index, appended)
  unfolding orders_shm_append orders_shm_try_allocate orders_shm_write_order orders_shm_mutate_slot
      orders_shm_index_exists appended written
  append_room small below = ground arith

  append_full :
      leb shm.capacity shm.next_index ≡ true
      → orders_shm_append now request stage source update_ns shm
        ≡ (none, record shm { full_reject_count = add64 shm.full_reject_count 1 })
  unfolding orders_shm_append orders_shm_try_allocate
  append_full full = ground arith

-- A write leaves an even number above the one before.
mutate_seq :
    (mutator : Snapshot → Snapshot) (slot : OrderSlot)
    → slot.seq + 4 < u64_mod
    → (is_odd (mutate mutator slot).seq ≡ false) × (slot.seq < (mutate mutator slot).seq)
unfolding mutate even_seq begin_write publish
mutate_seq mutator slot room = ground arith

-- In a pool whose capacity is a 32-bit value below the invalid index, an append takes the next index,
-- which no order had, and leaves a slot there that is not being written and that holds the order;
-- the other slots stay. A full pool refuses and counts it.
pub orders_shm_append_lem :
    (now : ℕ) (request : OrderRequest) (stage : OrderSlotState) (source : OrderSlotSource)
    (update_ns : ℕ) (shm : OrdersShm)
    → shm.capacity < u32_max
    → (shm.slots shm.next_index).seq + 4 < u64_mod
    → let r = orders_shm_append now request stage source update_ns shm in
      let slot = r.1.slots shm.next_index in
      ((r.0 ≡ some shm.next_index)
        × (orders_shm_index_exists shm.next_index shm ≡ false)
        × (orders_shm_index_exists shm.next_index r.1 ≡ true)
        × (is_odd slot.seq ≡ false)
        × ((shm.slots shm.next_index).seq < slot.seq)
        × (slot.body ≡ record {
          request = request;
          stage = stage;
          source = source;
          last_update_ns = update_ns;
        })
        × ((i : ℕ) → i ≢ shm.next_index → r.1.slots i ≡ shm.slots i))
      ⊎ ((shm.capacity ≤ shm.next_index)
          × (r.0 ≡ none)
          × (r.1 ≡ record shm { full_reject_count = add64 shm.full_reject_count 1 }))
unfolding appended orders_shm_index_exists mutate even_seq begin_write publish written
orders_shm_append_lem now request stage source update_ns shm small room =
    elim (Bool-cases (leb shm.capacity shm.next_index)) [
      | inl full ↦
          let e = append_full now request stage source update_ns shm full in
          inr (
            ground (arith, full),
            ap (λ (r : Option ℕ × OrdersShm). r.0) e,
            ap (λ (r : Option ℕ × OrdersShm). r.1) e,
          )
      | inr below ↦
          let (even, higher) =
            mutate_seq (λ _. written now request stage source update_ns shm)
              (shm.slots shm.next_index) room in
          inl (
            rw (append_room now request stage source update_ns shm small below) (
              refl,
              ground arith,
              ground (arith, small, below),
              ground (arith, even),
              ground (arith, higher),
              ground arith,
              λ i other. ground arith,
            ))
    ]
