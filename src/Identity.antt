-- ===== src/Identity.antt =====
-- src/common/security_identity.hpp: internal security keys, "<MIC>_<code>", and the older
-- "<market>.<code>". A function that fills an output and returns a bool returns an Option.
pub mod Laws
mod Tests
use account_services.Base.{
  ℕ, suc, ◌+◌, ◌-◌, Bool, true, false, ◌||◌, Option, none, some, List, [], ◌∷◌, ◌++◌, Text, codes,
  text_eq, assign, empty, take, drop, length, ltb, leb, ◌==◌, if◌then◌else◌,
}
use account_services.Types.{Market}

-- kInternalSecurityIdSize
abbrev pub internal_security_id_size : ℕ
internal_security_id_size = 16

unfoldable pub market_to_mic : Market → Text
market_to_mic Market.sz = codes "XSHE"
market_to_mic Market.sh = codes "XSHG"
market_to_mic Market.bj = codes "BJSE"
market_to_mic Market.hk = codes "XHKG"
market_to_mic _ = []

unfoldable pub parse_legacy_market_prefix : Text → Option Market
parse_legacy_market_prefix prefix =
    if text_eq prefix (codes "SZ")
    then some Market.sz
    else if text_eq prefix (codes "SH")
    then some Market.sh
    else if text_eq prefix (codes "BJ")
    then some Market.bj
    else if text_eq prefix (codes "HK")
    then some Market.hk
    else none

unfoldable pub parse_mic_market_prefix : Text → Option Market
parse_mic_market_prefix prefix =
    if text_eq prefix (codes "XSHE")
    then some Market.sz
    else if text_eq prefix (codes "XSHG")
    then some Market.sh
    else if text_eq prefix (codes "BJSE")
    then some Market.bj
    else if text_eq prefix (codes "XHKG")
    then some Market.hk
    else none

-- std::string_view::find of one character
find : ℕ → Text → Option ℕ
find c [] = none
find c (x ∷ xs) =
    if x == c then some 0 else elim (find c xs) [ none ↦ none | some i ↦ some (suc i) ]

unfoldable pub split_internal_security_id : Text → ℕ → Option (Text × Text)
unfolding find
split_internal_security_id internal_id delimiter = elim (find delimiter internal_id) [
  | none ↦ none
  | some separator ↦
      if separator == 0 || leb (length internal_id) (separator + 1)
      then none
      else some (take separator internal_id, drop (suc separator) internal_id)
]

-- `!code.empty() && parse(prefix, market)`, with the code as the second output
with_code : Text → Option Market → Option (Market × Text)
with_code code market =
    if empty code then none else elim market [ none ↦ none | some m ↦ some (m, code) ]

unfoldable pub parse_internal_security_id : Text → Option (Market × Text)
unfolding with_code
parse_internal_security_id internal_id = elim (split_internal_security_id internal_id b'_') [
  | some (prefix, code) ↦ with_code code (parse_mic_market_prefix prefix)
  | none ↦ elim (split_internal_security_id internal_id b'.') [
    | some (prefix, code) ↦ with_code code (parse_legacy_market_prefix prefix)
    | none ↦ none
  ]
]

unfoldable pub build_internal_security_id : Market → Text → Option Text
build_internal_security_id market security_id =
    let prefix = market_to_mic market in
    if empty prefix
    then none
    else if empty security_id
        || ltb (internal_security_id_size - 1 - length prefix - 1) (length security_id)
    then none
    else some (assign internal_security_id_size (prefix ++ (b'_' ∷ security_id)))

unfoldable pub normalize_internal_security_id : Text → Option Text
normalize_internal_security_id internal_id = elim (parse_internal_security_id internal_id) [
  | none ↦ none
  | some (market, code) ↦ build_internal_security_id market code
]

-- The callers' guard, of order_book.cpp and position_manager.cpp: an empty key has no canonical
-- form.
unfoldable pub normalize_security_key : Text → Option Text
normalize_security_key security_key =
    if empty security_key then none else normalize_internal_security_id security_key
