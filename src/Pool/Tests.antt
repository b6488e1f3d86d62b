-- ===== src/Pool/Tests.antt =====
-- A pool of four slots, one write of a slot seen by a reader, and the pool's theorems at them.
use account_services.Base.{
  ℕ, ◌+◌, ◌<◌, ◌≤◌, ◌≡◌, ◌≢◌, refl, sym, subst, zero, suc, List, [], ◌∷◌, u64_mod, ◌⊎◌, true, false,
  none, some, add64, arith,
}
use account_services.Request.{blank_request}
use account_services.Pool.{
  Snapshot, OrderSlotState, OrderSlotSource, OrdersShm, Loads, is_odd, even_seq, begin_write,
  publish, orders_shm_index_exists, orders_shm_append, read_attempt, read_attempts,
  orders_shm_read_snapshot,
}
use account_services.Pool.Slots.{orders_shm_append_lem}
use account_services.Pool.Writers.{
  World, Move, idle, loads, begins, stores, publishes, move, world, in_order, IsAlone,
}
use account_services.Pool.Torn.{IsHistory, IsOrdered, IsWhole, orders_shm_read_snapshot-IsWhole}

abbrev held : Snapshot
held = record {
  request = blank_request;
  stage = OrderSlotState.reserved;
  source = OrderSlotSource.user;
  last_update_ns = 5;
}

abbrev pool : OrdersShm
pool = record {
  capacity = 4;
  last_update = 5;
  next_index = 1;
  full_reject_count = 0;
  slots = λ i. record { seq = 2; body = held };
}

orders_shm_append_lem_example :
    let r =
      orders_shm_append 9 blank_request OrderSlotState.upstream_queued OrderSlotSource.user 8
        pool in
    let slot = r.1.slots 1 in
    ((r.0 ≡ some 1)
      × (orders_shm_index_exists 1 pool ≡ false)
      × (orders_shm_index_exists 1 r.1 ≡ true)
      × (is_odd slot.seq ≡ false)
      × (2 < slot.seq)
      × (slot.body ≡ record {
        request = blank_request;
        stage = OrderSlotState.upstream_queued;
        source = OrderSlotSource.user;
        last_update_ns = 8;
      })
      × ((i : ℕ) → i ≢ 1 → r.1.slots i ≡ pool.slots i))
    ⊎ ((4 ≤ 1) × (r.0 ≡ none) × (r.1 ≡ record pool { full_reject_count = add64 0 1 }))
orders_shm_append_lem_example =
    orders_shm_append_lem 9 blank_request OrderSlotState.upstream_queued OrderSlotSource.user 8 pool
      (omega arith) (omega arith)

-- One writer sets the stage of the slot.
abbrev one_write : List Move
one_write =
    loads 0
    ∷ begins 0
    ∷ stores 0 (λ s. record s { stage = OrderSlotState.terminal })
    ∷ publishes 0
    ∷ []

abbrev at_first : World
at_first = record { slot = pool.slots 0; writers = λ i. idle }

abbrev written_at : ℕ → World
written_at = world at_first (in_order one_write)

written : (d : ℕ) → written_at (suc (suc (suc (suc d)))) ≡ written_at 4
unfolding world move
written zero = refl
written (suc d) = written d

written-IsAlone : (t : ℕ) → IsAlone (written_at t)
unfolding world move
written-IsAlone zero i j apart = ground arith
written-IsAlone (suc zero) i j apart = ground arith
written-IsAlone (suc (suc zero)) i j apart = ground arith
written-IsAlone (suc (suc (suc zero))) i j apart = ground arith
written-IsAlone (suc (suc (suc (suc d)))) i j apart =
    subst IsAlone (sym (written d)) (λ k l differ. ground arith) i j apart

written_room : (t : ℕ) → (written_at t).slot.seq + 4 < u64_mod
unfolding world move begin_write publish even_seq
written_room zero = omega arith
written_room (suc zero) = omega arith
written_room (suc (suc zero)) = omega arith
written_room (suc (suc (suc zero))) = omega arith
written_room (suc (suc (suc (suc d)))) =
    subst (λ (x : World). x.slot.seq + 4 < u64_mod) (sym (written d)) (omega arith)

history : IsHistory at_first (in_order one_write)
history = record { starts = λ i. refl; alone = written-IsAlone; no_wrap = written_room }

-- The first two attempts meet the write, and the third comes after it.
abbrev loads_at : ℕ → Loads
loads_at i = record {
  seq0 = i + i + i;
  request = i + i + i;
  stage = i + i + i + 1;
  source = i + i + i + 1;
  last_update_ns = i + i + i + 2;
  seq1 = i + i + i + 2;
}

ordered : (i : ℕ) → IsOrdered (loads_at i)
ordered i = record {
  request_in = (omega arith, omega arith);
  stage_in = (omega arith, omega arith);
  source_in = (omega arith, omega arith);
  update_in = (omega arith, omega arith);
}

orders_shm_read_snapshot-IsWhole_example :
    IsWhole at_first (in_order one_write) history (record held { stage = OrderSlotState.terminal })
unfolding orders_shm_read_snapshot orders_shm_index_exists read_attempts read_attempt world move
    begin_write publish even_seq
orders_shm_read_snapshot-IsWhole_example =
    orders_shm_read_snapshot-IsWhole at_first (in_order one_write) history 0 pool loads_at ordered
      refl
