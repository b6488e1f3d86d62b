-- ===== src/Identity/Laws.antt =====
-- Canonical keys: what `build_internal_security_id` writes reads back, and is its own normal form.
use account_services.Base.{
  ℕ, zero, suc, ◌+◌, ◌≤◌, ◌≡◌, ◌≢◌, refl, subst, ◌⊎◌, inl, inr, false, none, some, [], ◌∷◌, ◌++◌,
  Text, codes, text_eq, text_eq_iff, assign, assign_id, assign_idem, HasNoNul, empty, All, drop,
  length, arith, Option-cases,
}
use account_services.Types.{Market}
use account_services.Identity.{
  market_to_mic, find, split_internal_security_id, parse_internal_security_id,
  parse_mic_market_prefix, parse_legacy_market_prefix, build_internal_security_id,
  normalize_internal_security_id, normalize_security_key, internal_security_id_size,
}

HasNoNul-mic :
    (m : Market) (code : Text) → HasNoNul code → HasNoNul (market_to_mic m ++ (b'_' ∷ code))
unfolding market_to_mic
HasNoNul-mic Market.sz code h = search (h, arith)
HasNoNul-mic _ code h = search (h, arith)

length-mic_le :
    (m : Market) (code : Text) → length (market_to_mic m ++ (b'_' ∷ code)) ≤ 5 + length code
unfolding market_to_mic
length-mic_le Market.sz code = omega arith
length-mic_le _ code = omega arith

length-mic : (m : Market) → empty (market_to_mic m) ≡ false → length (market_to_mic m) ≡ 4
unfolding market_to_mic
length-mic Market.sz h = refl
length-mic _ h = ground arith

filled_key : (m : Market) (code : Text) → empty (market_to_mic m ++ (b'_' ∷ code)) ≡ false
unfolding market_to_mic
filled_key Market.sz code = refl
filled_key _ code = refl

-- The key of a code that fits.
build_key :
    (m : Market) (code : Text) {key : Text}
    → HasNoNul code
    → build_internal_security_id m code ≡ some key
    → (empty (market_to_mic m) ≡ false)
      × (empty code ≡ false)
      × (length code ≤ 10)
      × (key ≡ market_to_mic m ++ (b'_' ∷ code))
unfolding build_internal_security_id
build_key m code h e = ground (
  arith,
  length-mic m,
  length-mic_le m code,
  assign_id 16 (market_to_mic m ++ (b'_' ∷ code)) (HasNoNul-mic m code h),
)

parse-mic :
    (m : Market) (code : Text)
    → empty (market_to_mic m) ≡ false
    → empty code ≡ false
    → parse_internal_security_id (market_to_mic m ++ (b'_' ∷ code)) ≡ some (m, code)
unfolding market_to_mic parse_internal_security_id split_internal_security_id
    parse_mic_market_prefix text_eq
parse-mic Market.sz [] h k = cc
parse-mic Market.sz (c ∷ code) h k = ground arith
parse-mic _ [] h k = cc
parse-mic _ (c ∷ code) h k = ground arith

-- A key that was built from a market and a NUL-free code parses to that market and that code, also
-- where the code holds a delimiter itself.
pub parse-build :
    (m : Market) (code : Text) {key : Text}
    → HasNoNul code
    → build_internal_security_id m code ≡ some key
    → parse_internal_security_id key ≡ some (m, code)
parse-build m code {key} h e =
    let built = build_key m code h e in rw (built.3) (parse-mic m code built.0 built.1)

HasNoNul-drop : (n : ℕ) (s : Text) → HasNoNul s → HasNoNul (drop n s)
HasNoNul-drop zero s h = h
HasNoNul-drop (suc n) [] h = tt
HasNoNul-drop (suc n) (c ∷ s) h = HasNoNul-drop n s h.1

split_code :
    (x : Text) (d : ℕ) {prefix code : Text}
    → HasNoNul x
    → split_internal_security_id x d ≡ some (prefix, code)
    → HasNoNul code
unfolding split_internal_security_id
split_code x d h e = elim (Option-cases (find d x)) [
  | inl missing ↦ ground arith
  | inr (sep, found) ↦ ground (arith, HasNoNul-drop (suc sep) x h)
]

-- The code of a NUL-free key is NUL-free.
parse_code :
    (x : Text) {m : Market} {code : Text}
    → HasNoNul x
    → parse_internal_security_id x ≡ some (m, code)
    → HasNoNul code
unfolding parse_internal_security_id
parse_code x {code} h e = elim (Option-cases (split_internal_security_id x b'_')) [
  | inl whole ↦ elim (Option-cases (split_internal_security_id x b'.')) [
    | inl bad ↦ ground arith
    | inr ((p, c), s) ↦
        let same : c ≡ code = ground arith in subst HasNoNul same (split_code x b'.' h s)
  ]
  | inr ((p, c), s) ↦
      let same : c ≡ code = ground arith in subst HasNoNul same (split_code x b'_' h s)
]

-- The normal form of a NUL-free key is its own normal form.
normalize_idem :
    (x : Text) {key : Text}
    → HasNoNul x
    → normalize_internal_security_id x ≡ some key
    → normalize_internal_security_id key ≡ some key
unfolding normalize_internal_security_id
normalize_idem x {key} h e = elim (Option-cases (parse_internal_security_id x)) [
  | inl bad ↦ ground arith
  | inr ((m, code), parsed) ↦ ground (arith, parse-build m code {key = key} (parse_code x h parsed))
]

find-absent : (c : ℕ) (s : Text) → All (λ x. x ≢ c) s → find c s ≡ none
unfolding find
find-absent c [] h = refl
find-absent c (x ∷ s) h = ground (arith, find-absent c s h.1)

-- The market of an older prefix, by its two letters.
legacy_cases :
    (prefix : Text) {m : Market}
    → parse_legacy_market_prefix prefix ≡ some m
    → ((prefix ≡ codes "SZ") × (m ≡ Market.sz))
      ⊎ ((prefix ≡ codes "SH") × (m ≡ Market.sh))
      ⊎ ((prefix ≡ codes "BJ") × (m ≡ Market.bj))
      ⊎ ((prefix ≡ codes "HK") × (m ≡ Market.hk))
unfolding parse_legacy_market_prefix
legacy_cases prefix h = ground (
  arith,
  text_eq_iff prefix (codes "SZ"),
  text_eq_iff prefix (codes "SH"),
  text_eq_iff prefix (codes "BJ"),
  text_eq_iff prefix (codes "HK"),
)

build_fits :
    (m : Market) (code : Text)
    → empty (market_to_mic m) ≡ false
    → HasNoNul code
    → empty code ≡ false
    → length code ≤ 10
    → build_internal_security_id m code ≡ some (market_to_mic m ++ (b'_' ∷ code))
unfolding build_internal_security_id
build_fits m code known h filled fits = ground (
  arith,
  length-mic m,
  length-mic_le m code,
  assign_id 16 (market_to_mic m ++ (b'_' ∷ code)) (HasNoNul-mic m code h),
)

parse-legacy :
    (a b : ℕ) (code : Text) {m : Market}
    → (a ≢ b'_') × (b ≢ b'_') × (a ≢ b'.') × (b ≢ b'.')
    → parse_legacy_market_prefix (a ∷ b ∷ []) ≡ some m
    → All (λ c. c ≢ b'_') code
    → empty code ≡ false
    → parse_internal_security_id (a ∷ b ∷ b'.' ∷ code) ≡ some (m, code)
unfolding parse_internal_security_id split_internal_security_id
parse-legacy a b [] n h plain filled = cc
parse-legacy a b (c ∷ code) n h plain filled = ground (arith, find-absent b'_' (c ∷ code) plain)

mic_known :
    (prefix : Text) {m : Market}
    → parse_legacy_market_prefix prefix ≡ some m
    → empty (market_to_mic m) ≡ false
unfolding market_to_mic
mic_known prefix h = ground (arith, legacy_cases prefix h)

-- A key in the older format, whose code is not empty, fits and has no underscore or NUL, is
-- normalised to the key of its market and code.
pub normalize_legacy :
    (prefix code : Text) {m : Market}
    → parse_legacy_market_prefix prefix ≡ some m
    → HasNoNul code
    → All (λ c. c ≢ b'_') code
    → empty code ≡ false
    → length code ≤ 10
    → normalize_internal_security_id (prefix ++ (b'.' ∷ code))
      ≡ some (market_to_mic m ++ (b'_' ∷ code))
unfolding normalize_internal_security_id
normalize_legacy prefix code {m} h no_nul plain filled fits =
    let parsed : parse_internal_security_id (prefix ++ (b'.' ∷ code)) ≡ some (m, code) = ground (
      arith,
      legacy_cases prefix h,
      parse-legacy b'S' b'Z' code {m = m},
      parse-legacy b'S' b'H' code {m = m},
      parse-legacy b'B' b'J' code {m = m},
      parse-legacy b'H' b'K' code {m = m},
    ) in
    ground (arith, parsed, build_fits m code (mic_known prefix h) no_nul filled fits)

-- A key that was built is its own normal form for the order book and the positions.
pub normalize_security_key-build :
    (m : Market) (code : Text) {key : Text}
    → HasNoNul code
    → build_internal_security_id m code ≡ some key
    → normalize_security_key key ≡ some key
unfolding normalize_security_key normalize_internal_security_id
normalize_security_key-build m code {key} h e =
    let filled : empty key ≡ false = rw ((build_key m code h e).3) (filled_key m code) in
    ground (arith, parse-build m code h e, filled)

-- A key that was built fits its field.
pub build-assign :
    (m : Market) (code : Text) {key : Text}
    → build_internal_security_id m code ≡ some key
    → assign internal_security_id_size key ≡ key
unfolding build_internal_security_id
build-assign m code h =
    ground (arith, assign_idem internal_security_id_size (market_to_mic m ++ (b'_' ∷ code)))
