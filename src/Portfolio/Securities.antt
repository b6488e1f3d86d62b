-- ===== src/Portfolio/Securities.antt =====
-- The security rows of src/portfolio/position_manager.cpp: entrusted, traded and new positions.
pub mod Volumes
pub mod Rows
pub mod Isolation
mod Tests
use account_services.Base.{
  ℕ, ◌+◌, ◌-◌, Bool, true, false, ◌||◌, Option, none, some, List, [], ◌∷◌, Text, Map, add64, mul64,
  sub64, lookup, insert, eq_text, assign, empty, update, range, ltb, leb, ◌==◌, if◌then◌else◌,
}
use account_services.Types.{Market}
use account_services.Identity.{build_internal_security_id, normalize_security_key}
use account_services.Portfolio.State.{
  Position, PositionsHeader, PositionsShm, PositionManager, clear_position, clamp_security_count,
  get_position, store_row, max_positions, max_security_positions, first_security_position_index,
  position_text_size,
}

-- Where a body returns false it may have written the row before: both come back.
abbrev RowBody : Type 0
RowBody = Position → Bool × Position

-- Runs the body of an operation on the row of a security, under its lock. The time of the last
-- update is written only if the body succeeds.
abbrev on_security_row : ℕ → Text → RowBody → PositionManager → Bool × PositionManager
on_security_row now security_id body m = elim (get_position m security_id) [
  | none ↦ (false, m)
  | some row ↦ elim m.shm [
    | none ↦ (false, m)
    | some shm ↦
        let (done, pos) = body (shm.positions row) in
        (
          done,
          record m {
            shm = some (
                if done
                then store_row now row pos shm
                else record shm { positions = update shm.positions row pos });
          },
        )
  ]
]

pub get_sellable_volume : PositionManager → Text → ℕ
get_sellable_volume m security_id = elim (get_position m security_id) [
  | none ↦ 0
  | some row ↦ elim m.shm [ none ↦ 0 | some shm ↦ (shm.positions row).volume_available_t0 ]
]

freeze_row : ℕ → RowBody
freeze_row volume pos = if ltb pos.volume_available_t0 volume then (false, pos) else (
  true,
  record pos {
    volume_available_t0 = pos.volume_available_t0 - volume;
    volume_sell = add64 pos.volume_sell volume;
    count_order = add64 pos.count_order 1;
  },
)

pub freeze_position : ℕ → Text → ℕ → PositionManager → Bool × PositionManager
unfolding freeze_row
freeze_position now security_id volume = on_security_row now security_id (freeze_row volume)

unfreeze_row : ℕ → RowBody
unfreeze_row volume pos = if ltb pos.volume_sell volume then (false, pos) else (
  true,
  record pos {
    volume_sell = pos.volume_sell - volume;
    volume_available_t0 = add64 pos.volume_available_t0 volume;
  },
)

pub unfreeze_position : ℕ → Text → ℕ → PositionManager → Bool × PositionManager
unfolding unfreeze_row
unfreeze_position now security_id volume = on_security_row now security_id (unfreeze_row volume)

-- The last three writes of `deduct_position`.
abbrev traded_row : ℕ → ℕ → Position → Position
traded_row volume value pos = record pos {
  volume_sell_traded = add64 pos.volume_sell_traded volume;
  dvalue_sell_traded = add64 pos.dvalue_sell_traded value;
}

-- Without enough frozen volume the rest comes from the sellable volume. The frozen volume is
-- cleared before that is tested.
deduct_row : ℕ → ℕ → RowBody
deduct_row volume value pos =
    let frozen = record pos { volume_sell = pos.volume_sell - volume } in
    let remaining = if ltb 0 pos.volume_sell then volume - pos.volume_sell else volume in
    let cleared = if ltb 0 pos.volume_sell then record pos { volume_sell = 0 } else pos in
    let fallback = record cleared {
      volume_available_t0 = cleared.volume_available_t0 - remaining;
    } in
    if leb volume pos.volume_sell
    then (true, traded_row volume value frozen)
    else if ltb cleared.volume_available_t0 remaining
    then (false, cleared)
    else (true, traded_row volume value fallback)

pub deduct_position : ℕ → Text → ℕ → ℕ → PositionManager → Bool × PositionManager
unfolding deduct_row
deduct_position now security_id volume value =
    on_security_row now security_id (deduct_row volume value)

add_row : ℕ → ℕ → RowBody
add_row volume price pos =
    let value = if (volume == 0) || (price == 0) then 0 else mul64 volume price in
    (
      true,
      record pos {
        volume_buy = add64 pos.volume_buy volume;
        dvalue_buy = add64 pos.dvalue_buy value;
        volume_buy_traded = add64 pos.volume_buy_traded volume;
        dvalue_buy_traded = add64 pos.dvalue_buy_traded value;
        volume_available_t1 = add64 pos.volume_available_t1 volume;
      },
    )

pub add_position : ℕ → Text → ℕ → ℕ → PositionManager → Bool × PositionManager
unfolding add_row
add_position now security_id volume price = on_security_row now security_id (add_row volume price)

-- The rows with an identity, of those that the count takes in.
rows_with_id : (ℕ → Position) → List ℕ → List Position
rows_with_id positions [] = []
rows_with_id positions (row ∷ rows) =
    let rest = rows_with_id positions rows in
    if empty (positions row).id then rest else positions row ∷ rest

pub get_all_positions : PositionManager → List Position
unfolding rows_with_id clamp_security_count
get_all_positions m = elim m.shm [
  | none ↦ []
  | some shm ↦
      rows_with_id shm.positions
        (range first_security_position_index (clamp_security_count shm.position_count))
]

pub position_count : PositionManager → ℕ
unfolding clamp_security_count
position_count m = elim m.shm [ none ↦ 0 | some shm ↦ clamp_security_count shm.position_count ]

pub find_security_id : PositionManager → Text → Option Text
find_security_id m code = if empty code then none else elim (normalize_security_key code) [
  | none ↦ none
  | some key ↦ elim (lookup key m.security_to_row) [ none ↦ none | some _ ↦ some key ]
]

-- The write of a new row behind the last one.
append_row : ℕ → Text → Text → PositionsShm → PositionsShm
append_row now security_id name shm =
    let row_index = shm.position_count + first_security_position_index in
    record shm {
      header = record (shm.header) {
        id = shm.position_count + 1 + first_security_position_index;
        last_update = now;
      };
      position_count = shm.position_count + 1;
      positions = update shm.positions row_index (record clear_position {
        id = assign position_text_size security_id;
        name = assign position_text_size name;
      });
    }

-- `add_security` on a mapped table; an empty text is the empty InternalSecurityId.
add_row_for : ℕ → Text → Text → PositionsShm → PositionManager → Text × PositionManager
unfolding append_row clamp_security_count
add_row_for now security_id name shm m =
    let clamped = record shm { position_count = clamp_security_count shm.position_count } in
    if leb max_security_positions clamped.position_count
    then ([], record m { shm = some clamped })
    else (
      security_id,
      record m {
        shm = some (append_row now security_id name clamped);
        security_to_row =
            insert security_id (clamped.position_count + first_security_position_index)
              m.security_to_row;
      },
    )

pub add_security : ℕ → Text → Text → Market → PositionManager → Text × PositionManager
unfolding add_row_for
add_security now code name market m = elim m.shm [
  | none ↦ ([], m)
  | some shm ↦ if empty code then ([], m) else elim (build_internal_security_id market code) [
    | none ↦ ([], m)
    | some security_id ↦ elim (lookup security_id m.security_to_row) [
      | some _ ↦ (security_id, m)
      | none ↦ add_row_for now security_id name shm m
    ]
  ]
]
