-- ===== src/Identity/Tests.antt =====
-- Keys as the unit tests write them, and the laws at such keys.
use account_services.Base.{◌≡◌, refl, some, none, codes, arith, text_eq, assign}
use account_services.Types.{Market}
use account_services.Identity.{
  market_to_mic, parse_internal_security_id, split_internal_security_id, build_internal_security_id,
  normalize_internal_security_id, parse_legacy_market_prefix,
}
use account_services.Identity.Laws.{parse-build, normalize_legacy}

build_sz : build_internal_security_id Market.sz (codes "000001") ≡ some (codes "XSHE_000001")
unfolding build_internal_security_id market_to_mic assign
build_sz = refl

-- Eleven characters do not fit beside the prefix.
build_too_long : build_internal_security_id Market.sz (codes "00000100000") ≡ none
unfolding build_internal_security_id market_to_mic assign
build_too_long = refl

normalize_old : normalize_internal_security_id (codes "SH.600000") ≡ some (codes "XSHG_600000")
unfolding normalize_internal_security_id parse_internal_security_id split_internal_security_id
    build_internal_security_id market_to_mic assign text_eq parse_legacy_market_prefix
normalize_old = refl

parse-build_example :
    parse_internal_security_id (codes "XSHE_00_1") ≡ some (Market.sz, codes "00_1")
unfolding build_internal_security_id market_to_mic assign
parse-build_example = parse-build Market.sz (codes "00_1") (omega arith) refl

normalize_legacy_example :
    normalize_internal_security_id (codes "HK.00700") ≡ some (codes "XHKG_00700")
unfolding market_to_mic parse_legacy_market_prefix text_eq
normalize_legacy_example =
    normalize_legacy (codes "HK") (codes "00700") refl (omega arith) (omega arith) refl
      (omega arith)
