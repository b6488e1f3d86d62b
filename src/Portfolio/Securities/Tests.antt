-- ===== src/Portfolio/Securities/Tests.antt =====
-- A table with two securities, and the position theorems at it.
use account_services.Base.{
  ℕ, ◌≡◌, ◌↔◌, refl, true, false, some, [], ◌∷◌, Text, codes, text_eq, text_eq_iff, lookup, assign,
  if◌then◌else◌, ◌==◌, arith,
}
use account_services.Types.{Market}
use account_services.Identity.{
  build_internal_security_id, normalize_security_key, market_to_mic, normalize_internal_security_id,
  parse_internal_security_id, split_internal_security_id, parse_mic_market_prefix,
}
use account_services.Portfolio.State.{
  Position, PositionsShm, PositionManager, clear_position, get_position,
}
use account_services.Portfolio.Securities.{add_security, deduct_position}
use account_services.Portfolio.Securities.Volumes.{
  freezes, deducts, adds, row_of, security_step, IsServable, row_outcome, security_step-outcome,
  security_step-iff-IsServable, deduct_position_refused,
}
use account_services.Portfolio.Securities.Rows.{
  IsIndexed, add_security-IsIndexed, get_position-add_security,
}
use account_services.Portfolio.Securities.Isolation.{security_step-isolated}

abbrev first : Text
first = codes "XSHE_000001"

abbrev second : Text
second = codes "XSHG_600000"

abbrev held : Position
held = record clear_position { volume_available_t0 = 40; volume_sell = 30; id = first }

abbrev table : PositionsShm
table = record {
  header = record {
    magic = 0x41435354;
    version = 4;
    header_size = 64;
    total_size = 1000;
    capacity = 8192;
    init_state = 1;
    create_time = 5;
    last_update = 5;
    id = 3;
  };
  position_count = 2;
  positions = λ row. if row == 1 then held else record clear_position { id = second };
}

abbrev manager : PositionManager
manager = record { shm = some table; security_to_row = (first, 1) ∷ (second, 2) ∷ [] }

first_normal : normalize_security_key first ≡ some first
unfolding normalize_security_key normalize_internal_security_id parse_internal_security_id
    split_internal_security_id parse_mic_market_prefix build_internal_security_id market_to_mic
    text_eq assign
first_normal = refl

second_normal : normalize_security_key second ≡ some second
unfolding normalize_security_key normalize_internal_security_id parse_internal_security_id
    split_internal_security_id parse_mic_market_prefix build_internal_security_id market_to_mic
    text_eq assign
second_normal = refl

held_row : row_of manager first ≡ some held
unfolding get_position lookup text_eq normalize_security_key normalize_internal_security_id
    parse_internal_security_id split_internal_security_id parse_mic_market_prefix
    build_internal_security_id market_to_mic assign
held_row = refl

manager-IsIndexed : IsIndexed manager
unfolding lookup
manager-IsIndexed =
    (omega arith, λ key row h. ground (arith, text_eq_iff first key, text_eq_iff second key))

-- The source's test of the same name sells more than was frozen.
served : (security_step 9 first (deducts 50 7) manager).0 ≡ true
unfolding security_step deduct_position get_position normalize_security_key
    normalize_internal_security_id parse_internal_security_id split_internal_security_id
    parse_mic_market_prefix build_internal_security_id market_to_mic text_eq assign lookup
served = refl

security_step-outcome_example :
    row_of (security_step 9 first (deducts 50 7) manager).1 first
    ≡ some (row_outcome (deducts 50 7) held)
security_step-outcome_example =
    security_step-outcome 9 first manager held_row (deducts 50 7) (omega arith) served

security_step-iff-IsServable_example :
    ((security_step 9 first (freezes 41) manager).0 ≡ true) ↔ IsServable (freezes 41) held
security_step-iff-IsServable_example =
    security_step-iff-IsServable 9 first manager held_row (freezes 41) (omega arith)

deduct_position_refused_example :
    ((deduct_position 9 first 71 7 manager).0 ≡ false)
    × (row_of (deduct_position 9 first 71 7 manager).1 first
        ≡ some (record held { volume_sell = 0 }))
deduct_position_refused_example =
    deduct_position_refused 9 first manager held_row 71 7 (omega arith)

add_security-IsIndexed_example :
    IsIndexed (add_security 9 (codes "430001") (codes "name") Market.bj manager).1
add_security-IsIndexed_example =
    add_security-IsIndexed 9 (codes "430001") (codes "name") Market.bj manager manager-IsIndexed

get_position-add_security_example :
    (row : ℕ) × (get_position
        (add_security 9 (codes "430001") (codes "name") Market.bj manager).1
        (add_security 9 (codes "430001") (codes "name") Market.bj manager).0
      ≡ some row)
unfolding add_security build_internal_security_id market_to_mic assign lookup text_eq
get_position-add_security_example =
    get_position-add_security 9 (codes "430001") (codes "name") Market.bj manager manager-IsIndexed
      (omega arith) refl

security_step-isolated_example :
    row_of (security_step 9 second (adds 10 3) manager).1 first ≡ row_of manager first
security_step-isolated_example =
    security_step-isolated 9 second first (adds 10 3) manager manager-IsIndexed second_normal
      first_normal (ground arith)
