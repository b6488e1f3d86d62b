-- ===== src/Portfolio/State.antt =====
-- src/portfolio/positions.h, and the state of src/portfolio/position_manager.cpp. A position's lock
-- byte is no field: each operation holds it from its first access to its last.
use account_services.Base.{
  ℕ, ◌-◌, Option, none, some, [], Text, Map, codes, lookup, eq_text, update, ltb, leb,
  if◌then◌else◌,
}
use account_services.Identity.{normalize_security_key}

pub record Position : Type 0 where
  pub available : ℕ
  pub volume_available_t0 : ℕ
  pub volume_available_t1 : ℕ
  pub volume_buy : ℕ
  pub dvalue_buy : ℕ
  pub volume_buy_traded : ℕ
  pub dvalue_buy_traded : ℕ
  pub volume_sell : ℕ
  pub dvalue_sell : ℕ
  pub volume_sell_traded : ℕ
  pub dvalue_sell_traded : ℕ
  pub count_order : ℕ
  pub id : Text
  pub name : Text

pub record FundInfo : Type 0 where
  pub total_asset : ℕ
  pub available : ℕ
  pub frozen : ℕ
  pub market_value : ℕ

-- The fund row keeps its four amounts in the fields of a position.
abbrev pub load_fund_info : Position → FundInfo
load_fund_info row = record {
  total_asset = row.volume_available_t0;
  available = row.available;
  frozen = row.volume_available_t1;
  market_value = row.volume_buy;
}

abbrev pub store_fund_info : Position → FundInfo → Position
store_fund_info row fund = record row {
  volume_available_t0 = fund.total_asset;
  available = fund.available;
  volume_available_t1 = fund.frozen;
  volume_buy = fund.market_value;
}

pub record PositionsHeader : Type 0 where
  pub magic : ℕ
  pub version : ℕ
  pub header_size : ℕ
  pub total_size : ℕ
  pub capacity : ℕ
  pub init_state : ℕ
  pub create_time : ℕ
  pub last_update : ℕ
  pub id : ℕ

pub record PositionsShm : Type 0 where
  pub header : PositionsHeader
  pub position_count : ℕ
  pub positions : ℕ → Position

-- The table, or none for a null pointer, and the index of its security rows.
pub record PositionManager : Type 0 where
  pub shm : Option PositionsShm
  pub security_to_row : Map Text ℕ

abbrev pub max_positions : ℕ
max_positions = 8192

-- kFundPositionIndex, kFirstSecurityPositionIndex
abbrev pub fund_position_index : ℕ
fund_position_index = 0

abbrev pub first_security_position_index : ℕ
first_security_position_index = 1

abbrev pub max_security_positions : ℕ
max_security_positions = max_positions - first_security_position_index

abbrev pub fund_position_id : Text
fund_position_id = codes "FUND"

-- Sizes of the fixed strings `id` and `name`.
abbrev pub position_text_size : ℕ
position_text_size = 16

abbrev pub clear_position : Position
clear_position = record {
  available = 0;
  volume_available_t0 = 0;
  volume_available_t1 = 0;
  volume_buy = 0;
  dvalue_buy = 0;
  volume_buy_traded = 0;
  dvalue_buy_traded = 0;
  volume_sell = 0;
  dvalue_sell = 0;
  volume_sell_traded = 0;
  dvalue_sell_traded = 0;
  count_order = 0;
  id = [];
  name = [];
}

unfoldable pub clamp_security_count : ℕ → ℕ
clamp_security_count count =
    if ltb max_security_positions count then max_security_positions else count

-- A position* is the index of its row.
unfoldable pub security_position_by_row : PositionsShm → ℕ → Option ℕ
unfolding clamp_security_count
security_position_by_row shm row_index =
    if ltb row_index first_security_position_index
    then none
    else if leb max_positions row_index
    then none
    else if ltb (clamp_security_count shm.position_count) row_index
    then none
    else some row_index

-- Writes a row back, and the time of the update.
abbrev pub store_row : ℕ → ℕ → Position → PositionsShm → PositionsShm
store_row now row pos shm = record shm {
  header = record (shm.header) { last_update = now };
  positions = update shm.positions row pos;
}

unfoldable pub get_position : PositionManager → Text → Option ℕ
unfolding security_position_by_row
get_position m security_id = elim (normalize_security_key security_id) [
  | none ↦ none
  | some key ↦ elim (lookup key m.security_to_row) [
    | none ↦ none
    | some row ↦ elim m.shm [ none ↦ none | some shm ↦ security_position_by_row shm row ]
  ]
]
