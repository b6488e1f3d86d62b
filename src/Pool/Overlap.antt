-- ===== src/Pool/Overlap.antt =====
-- Two writers of a slot that overlap, as the trading process and its gateway may: order_router.cpp
-- sets the stage after its push, and gateway_loop.cpp after its pop.
use account_services.Base.{ℕ, List, [], ◌∷◌}
use account_services.Pool.{Snapshot, OrderSlot, OrderSlotState, Loads}
use account_services.Pool.Writers.{
  World, Move, idle, loads, begins, stores, publishes, world, in_order,
}

-- The stores of orders_shm_update_stage, one by one.
abbrev sets_stage : OrderSlotState → Snapshot → Snapshot
sets_stage stage s = record s { stage = stage }

abbrev sets_time : ℕ → Snapshot → Snapshot
sets_time update_ns s = record s { last_update_ns = update_ns }

module _ (start : OrderSlot) (a b : OrderSlotState) (time_a time_b : ℕ) where
  abbrev pub at_rest : World
  at_rest = record { slot = start; writers = λ i. idle }

  -- The second writer loads the number between the first two stores of the first.
  abbrev pub overlap : List Move
  overlap =
      loads 0
      ∷ begins 0
      ∷ loads 1
      ∷ begins 1
      ∷ stores 0 (sets_stage a)
      ∷ stores 0 (sets_time time_a)
      ∷ publishes 0
      ∷ stores 1 (sets_stage b)
      ∷ stores 1 (sets_time time_b)
      ∷ publishes 1
      ∷ []

  -- The first loads come after the last store of the first writer, and the last two after those of the
  -- second writer to the fields.
  abbrev pub loads_between : ℕ → Loads
  loads_between i = record {
    seq0 = 7;
    request = 7;
    stage = 7;
    source = 7;
    last_update_ns = 9;
    seq1 = 9;
  }

  abbrev pub torn : Snapshot
  torn = sets_time time_b (sets_stage a start.body)

  abbrev pub slot_at : ℕ → OrderSlot
  slot_at t = (world at_rest (in_order overlap) t).slot
