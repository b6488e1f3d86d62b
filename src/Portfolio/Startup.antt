-- ===== src/Portfolio/Startup.antt =====
-- PositionManager::initialize of src/portfolio/position_manager.cpp. The sizes of the two layouts,
-- which the compiler sets, are arguments, and so is the loader of src/portfolio/position_loader.cpp:
-- it works on the manager and returns a bool. The locks of the rows are left out.
pub mod Index
mod Tests
use account_services.Base.{
  ℕ, zero, suc, ◌+◌, ◌-◌, Bool, true, false, not, ◌&&◌, Option, none, some, [], Map, Text, empty,
  assign, insert, eq_text, update, min, ltb, leb, ◌==◌, if◌then◌else◌, add32,
}
use account_services.Identity.{normalize_security_key}
use account_services.Portfolio.State.{
  Position, PositionsHeader, PositionsShm, PositionManager, clear_position, clamp_security_count,
  store_fund_info, fund_position_index, fund_position_id, first_security_position_index,
  position_text_size, max_positions,
}

-- sizeof(PositionsHeader) and sizeof(positions_shm_layout)
pub record LayoutSizes : Type 0 where
  pub header_size : ℕ
  pub total_size : ℕ

-- kMagic, kVersion and kDefaultInitialFund
abbrev pub positions_magic : ℕ
positions_magic = 0x41435354

abbrev pub positions_version : ℕ
positions_version = 4

abbrev pub default_initial_fund : ℕ
default_initial_fund = 100000000

unfoldable pub header_compatible : LayoutSizes → PositionsHeader → Bool
header_compatible sizes h =
    ((h.magic == positions_magic) && (h.version == positions_version))
    && ((h.header_size == sizes.header_size)
        && ((h.total_size == sizes.total_size) && (h.capacity == max_positions)))

unfoldable pub next_security_id : ℕ → ℕ
next_security_id security_count = add32 security_count first_security_position_index

unfoldable pub ensure_fund_identity : Position → Position
ensure_fund_identity pos = record pos {
  id = assign position_text_size fund_position_id;
  name = assign position_text_size fund_position_id;
}

unfoldable pub set_default_fund : Position → Position
set_default_fund pos = store_fund_info pos (record {
  total_asset = default_initial_fund;
  available = default_initial_fund;
  frozen = 0;
  market_value = 0;
})

-- The table before the loader fills it.
unfoldable pub fresh_table : ℕ → LayoutSizes → PositionsShm → PositionsShm
fresh_table now sizes shm = record {
  header = record (shm.header) {
    magic = positions_magic;
    version = positions_version;
    header_size = sizes.header_size;
    total_size = sizes.total_size;
    capacity = max_positions;
    init_state = 0;
    create_time = now;
    last_update = now;
  };
  position_count = 0;
  positions =
      update (λ row. clear_position) fund_position_index
        (set_default_fund (ensure_fund_identity clear_position));
}

-- The rows that are known, in the table and in the header.
unfoldable pub finish_header : ℕ → ℕ → ℕ → PositionsShm → PositionsShm
finish_header now init_state count shm = record shm {
  header = record (shm.header) {
    id = next_security_id count;
    init_state = init_state;
    last_update = now;
  };
}

unfoldable pub initialize_fresh :
    ℕ
    → LayoutSizes
    → (PositionManager → Bool × PositionManager)
    → PositionsShm
    → PositionManager
    → Bool × PositionManager
initialize_fresh now sizes load shm m =
    let (loaded, m') = load (record m { shm = some (fresh_table now sizes shm) }) in
    if not (shm.position_count == 0)
    then (false, m)
    else if not loaded
    then (false, m')
    else elim m'.shm [
      | none ↦ (true, m')
      | some shm' ↦ (
        true,
        record m' {
          shm = some (finish_header now 1 (clamp_security_count shm'.position_count) shm');
        },
      )
    ]

-- One row of a table from before: its key becomes canonical and is indexed. False if it has none.
unfoldable pub index_row : ℕ → PositionsShm → Map Text ℕ → Bool × PositionsShm × Map Text ℕ
index_row row shm index =
    let pos = shm.positions row in
    if empty pos.id then (true, shm, index) else elim (normalize_security_key pos.id) [
      | none ↦ (false, shm, index)
      | some key ↦ (
        true,
        record shm {
          positions = update shm.positions row (record pos { id = assign position_text_size key });
        },
        insert key row index,
      )
    ]

-- The rows from the first to the given one, in their order, up to one that has no key.
unfoldable pub index_rows : ℕ → PositionsShm → Map Text ℕ → Bool × PositionsShm × Map Text ℕ
index_rows zero shm index = (true, shm, index)
index_rows (suc n) shm index =
    let (done, shm', index') = index_rows n shm index in
    if done then index_row (suc n) shm' index' else (false, shm', index')

unfoldable pub clamped_table : PositionsShm → PositionsShm
clamped_table shm = record shm {
  position_count = clamp_security_count shm.position_count;
  positions =
      update shm.positions fund_position_index
        (ensure_fund_identity (shm.positions fund_position_index));
}

unfoldable pub initialize_again : ℕ → PositionsShm → PositionManager → Bool × PositionManager
initialize_again now shm m =
    let table = clamped_table shm in
    let (done, shm', index) =
      index_rows (min table.position_count (max_positions - 1)) table m.security_to_row in
    if done
    then (
      true,
      record m {
        shm = some (finish_header now shm'.header.init_state table.position_count shm');
        security_to_row = index;
      },
    )
    else (false, record m { shm = some shm'; security_to_row = index })

unfoldable pub initialize :
    ℕ
    → LayoutSizes
    → (PositionManager → Bool × PositionManager)
    → PositionManager
    → Bool × PositionManager
initialize now sizes load m = elim m.shm [
  | none ↦ (false, m)
  | some shm ↦
      let cleared = record m { security_to_row = [] } in
      if not (header_compatible sizes shm.header)
      then (false, cleared)
      else if shm.header.init_state == 1
      then initialize_again now shm cleared
      else initialize_fresh now sizes load shm cleared
]
