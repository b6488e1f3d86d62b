-- ===== src/Portfolio/Fund.antt =====
-- The fund operations of src/portfolio/position_manager.cpp. Each reads the fund row and either
-- returns false or writes the row; `now` is the value that now_ns() returns in the call.
pub mod Balance
pub mod Exact
pub mod Worth
mod Tests
use account_services.Base.{
  ℕ, ◌+◌, ◌-◌, ◌≤◌, ◌<◌, Bool, true, false, Option, none, some, add64, update, ltb, leb,
  if◌then◌else◌, assign,
}
use account_services.Portfolio.State.{
  Position, FundInfo, load_fund_info, store_fund_info, PositionsShm, PositionManager,
  fund_position_index, fund_position_id, position_text_size, store_row,
}

pub get_available_fund : PositionManager → ℕ
get_available_fund m = elim m.shm [
  | none ↦ 0
  | some shm ↦ (shm.positions fund_position_index).available
]

pub get_fund_info : PositionManager → FundInfo
get_fund_info m = elim m.shm [
  | none ↦ record { total_asset = 0; available = 0; frozen = 0; market_value = 0 }
  | some shm ↦ load_fund_info (shm.positions fund_position_index)
]

-- Runs the body of an operation on the fund row, under its lock.
abbrev on_fund_row : ℕ → (FundInfo → Option FundInfo) → PositionManager → Bool × PositionManager
on_fund_row now body m = elim m.shm [
  | none ↦ (false, m)
  | some shm ↦ elim (body (load_fund_info (shm.positions fund_position_index))) [
    | none ↦ (false, m)
    | some fund ↦ (
      true,
      record m {
        shm = some (
            store_row now fund_position_index
              (store_fund_info (shm.positions fund_position_index) fund) shm);
      },
    )
  ]
]

freeze : ℕ → FundInfo → Option FundInfo
freeze amount f =
    let new_frozen = add64 f.frozen amount in
    if ltb f.available amount
    then none
    else if ltb new_frozen f.frozen
    then none
    else some (record f { available = f.available - amount; frozen = new_frozen })

pub freeze_fund : ℕ → ℕ → PositionManager → Bool × PositionManager
unfolding freeze
freeze_fund now amount = on_fund_row now (freeze amount)

unfreeze : ℕ → FundInfo → Option FundInfo
unfreeze amount f =
    let new_available = add64 f.available amount in
    if ltb f.frozen amount
    then none
    else if ltb new_available f.available
    then none
    else some (record f { available = new_available; frozen = f.frozen - amount })

pub unfreeze_fund : ℕ → ℕ → PositionManager → Bool × PositionManager
unfolding unfreeze
unfreeze_fund now amount = on_fund_row now (unfreeze amount)

abbrev less_fee : ℕ → ℕ → ℕ
less_fee total_asset fee = if ltb total_asset fee then 0 else total_asset - fee

deduct : ℕ → ℕ → FundInfo → Option FundInfo
deduct amount fee f =
    let total = add64 amount fee in
    let new_market_value = add64 f.market_value amount in
    if ltb total amount
    then none
    else if ltb f.frozen total
    then none
    else if ltb new_market_value f.market_value
    then none
    else some (record f {
      frozen = f.frozen - total;
      total_asset = less_fee f.total_asset fee;
      market_value = new_market_value;
    })

pub deduct_fund : ℕ → ℕ → ℕ → PositionManager → Bool × PositionManager
unfolding deduct
deduct_fund now amount fee = on_fund_row now (deduct amount fee)

add : ℕ → FundInfo → Option FundInfo
add amount f =
    let new_available = add64 f.available amount in
    let new_total_asset = add64 f.total_asset amount in
    if ltb new_available f.available
    then none
    else if ltb new_total_asset f.total_asset
    then none
    else some (record f { available = new_available; total_asset = new_total_asset })

pub add_fund : ℕ → ℕ → PositionManager → Bool × PositionManager
unfolding add
add_fund now amount = on_fund_row now (add amount)

apply_buy : ℕ → ℕ → FundInfo → Option FundInfo
apply_buy amount fee f =
    let total = add64 amount fee in
    let new_market_value = add64 f.market_value amount in
    if ltb total amount
    then none
    else if ltb f.available total
    then none
    else if ltb new_market_value f.market_value
    then none
    else some (record f {
      available = f.available - total;
      total_asset = less_fee f.total_asset fee;
      market_value = new_market_value;
    })

pub apply_buy_trade_fund : ℕ → ℕ → ℕ → PositionManager → Bool × PositionManager
unfolding apply_buy
apply_buy_trade_fund now amount fee = on_fund_row now (apply_buy amount fee)

-- The two ways that a sale moves the available fund, with the source's early returns.
sell_available : ℕ → ℕ → ℕ → Option ℕ
sell_available amount fee available =
    let new_available = add64 available (amount - fee) in
    let cash_decrease = fee - amount in
    if leb fee amount
    then (if ltb new_available available then none else some new_available)
    else (if ltb available cash_decrease then none else some (available - cash_decrease))

apply_sell : ℕ → ℕ → FundInfo → Option FundInfo
unfolding sell_available
apply_sell amount fee f = elim (sell_available amount fee f.available) [
  | none ↦ none
  | some new_available ↦ some (record f {
    available = new_available;
    total_asset = less_fee f.total_asset fee;
    market_value = if ltb f.market_value amount then 0 else f.market_value - amount;
  })
]

pub apply_sell_trade_fund : ℕ → ℕ → ℕ → PositionManager → Bool × PositionManager
unfolding apply_sell
apply_sell_trade_fund now amount fee = on_fund_row now (apply_sell amount fee)

-- Overwrites the fund row, whose identity is written again.
pub overwrite_fund_info : ℕ → FundInfo → PositionManager → Bool × PositionManager
overwrite_fund_info now fund m = elim m.shm [
  | none ↦ (false, m)
  | some shm ↦
      let row = record (shm.positions fund_position_index) {
        id = assign position_text_size fund_position_id;
        name = assign position_text_size fund_position_id;
      } in
      (
        true,
        record m { shm = some (store_row now fund_position_index (store_fund_info row fund) shm) },
      )
]
