-- ===== src/Portfolio/Startup/Tests.antt =====
-- A table with a key of the older format, and the start on it.
use account_services.Base.{
  ◌≡◌, refl, true, Bool, some, [], ◌∷◌, codes, if◌then◌else◌, ◌==◌, text_eq, assign,
}
use account_services.Identity.{
  normalize_security_key, normalize_internal_security_id, parse_internal_security_id,
  parse_mic_market_prefix, parse_legacy_market_prefix, split_internal_security_id,
  build_internal_security_id, market_to_mic,
}
use account_services.Portfolio.State.{
  PositionsShm, PositionManager, clear_position, clamp_security_count,
}
use account_services.Portfolio.Securities.Rows.{IsIndexed}
use account_services.Portfolio.Startup.{
  LayoutSizes, index_row, index_rows, clamped_table, initialize_again, initialize,
  header_compatible,
}
use account_services.Portfolio.Startup.Index.{initialize-IsIndexed}

abbrev sizes : LayoutSizes
sizes = record { header_size = 64; total_size = 1000 }

abbrev old_table : PositionsShm
old_table = record {
  header = record {
    magic = 0x41435354;
    version = 4;
    header_size = 64;
    total_size = 1000;
    capacity = 8192;
    init_state = 1;
    create_time = 5;
    last_update = 5;
    id = 0;
  };
  position_count = 2;
  positions =
      λ row. if row == 1 then record clear_position { id = codes "SZ.000001" } else clear_position;
}

-- The index names a row that is not there.
abbrev old_manager : PositionManager
old_manager = record { shm = some old_table; security_to_row = (codes "XSHG_600000", 7) ∷ [] }

abbrev keep : PositionManager → Bool × PositionManager
keep m = (true, m)

old_starts : (initialize 9 sizes keep old_manager).0 ≡ true
unfolding initialize header_compatible initialize_again index_rows index_row clamped_table
    normalize_security_key normalize_internal_security_id parse_internal_security_id
    split_internal_security_id parse_mic_market_prefix parse_legacy_market_prefix
    build_internal_security_id market_to_mic text_eq assign clamp_security_count
old_starts = refl

initialize-IsIndexed_example : IsIndexed (initialize 9 sizes keep old_manager).1
initialize-IsIndexed_example = initialize-IsIndexed 9 sizes keep old_manager (λ x v. v) old_starts
