-- ===== src/Recovery/Newest.antt =====
-- What the first pass of the recovery finds for each order id.
use account_services.Base.{
  ℕ, zero, suc, ◌<◌, ◌≤◌, ◌≡◌, ◌≢◌, ap, sym, ◌∙◌, subst, ◌⊎◌, inl, inr, true, false, Option, none,
  some, Bool-cases, Option-cases, lookup, lookup-insert, nat_eq, ◌==◌, if◌then◌else◌, arith,
}
use account_services.Pool.{Snapshot}
use account_services.Recovery.{
  Candidate, Candidates, OrderRecoveryStats, is_eligible, should_replace, keep_candidate, scan_slot,
  scan_slots,
}

-- The order id that a snapshot is taken under.
abbrev pub order_id_of : Snapshot → ℕ
order_id_of s = s.request.internal_order_id

-- A readable, eligible slot of the order, below a bound
abbrev pub Qualifies : (ℕ → Option Snapshot) → ℕ → ℕ → ℕ → Snapshot → Type 0
Qualifies read upper k i s =
    (i < upper) × (read i ≡ some s) × (is_eligible s ≡ true) × (order_id_of s ≡ k)

abbrev pub IsNotNewer : ℕ → Snapshot → Candidate → Type 0
IsNotNewer i s c =
    (s.last_update_ns < c.snapshot.last_update_ns)
    ⊎ ((s.last_update_ns ≡ c.snapshot.last_update_ns) × (i ≤ c.index))

-- No slot of the order qualifies; or the candidate's does, and no other is newer.
abbrev pub IsNewest : (ℕ → Option Snapshot) → ℕ → ℕ → Option Candidate → Type 0
IsNewest read upper k none = (i : ℕ) (s : Snapshot) → Qualifies read upper k i s → ⊥
IsNewest read upper k (some c) =
    Qualifies read upper k c.index c.snapshot
    × ((i : ℕ) (s : Snapshot) → Qualifies read upper k i s → IsNotNewer i s c)

module _ (read : ℕ → Option Snapshot) (n k : ℕ) where
  -- A slot below the next bound is the last one, or below this one.
  last_or_below :
      (i : ℕ) (s : Snapshot) → Qualifies read (suc n) k i s → (i ≡ n) ⊎ Qualifies read n k i s
  last_or_below i s (below, at, eligible, id) = elim (Bool-cases (i == n)) [
    | inl last ↦ inl (ground arith)
    | inr other ↦ inr (ground arith, at, eligible, id)
  ]

  further : (i : ℕ) (s : Snapshot) → Qualifies read n k i s → Qualifies read (suc n) k i s
  further i s (below, at, eligible, id) = (omega arith, at, eligible, id)

  -- A slot that does not qualify changes nothing.
  skip-IsNewest :
      (o : Option Candidate)
      → ((s : Snapshot) → Qualifies read (suc n) k n s → ⊥)
      → IsNewest read n k o
      → IsNewest read (suc n) k o
  skip-IsNewest none other v = λ i s q. elim (last_or_below i s q) [
    | inl last ↦ other s (subst (λ j. Qualifies read (suc n) k j s) last q)
    | inr earlier ↦ v i s earlier
  ]
  skip-IsNewest (some c) other (there, newest) = (
    further c.index c.snapshot there,
    λ i s q. elim (last_or_below i s q) [
      | inl last ↦ absurd (other s (subst (λ j. Qualifies read (suc n) k j s) last q))
      | inr earlier ↦ newest i s earlier
    ],
  )

  -- The last slot, when it qualifies and nothing before it is newer.
  take-IsNewest :
      (s : Snapshot)
      → Qualifies read (suc n) k n s
      → ((i : ℕ) (t : Snapshot)
          → Qualifies read n k i t
          → IsNotNewer i t (record { index = n; snapshot = s }))
      → IsNewest read (suc n) k (some (record { index = n; snapshot = s }))
  take-IsNewest s q newest = (
    q,
    λ i t p. elim (last_or_below i t p) [
      | inl last ↦
          let (_, at, _, _) = q in
          let (_, at', _, _) = p in
          let same : t ≡ s = cc in inr (ap (λ (u : Snapshot). u.last_update_ns) same, omega arith)
      | inr earlier ↦ newest i t earlier
    ],
  )

abbrev found : ℕ → Snapshot → Candidate
found n s = record { index = n; snapshot = s }

module _ (n k : ℕ) (s : Snapshot) (candidates : Candidates) (stats : OrderRecoveryStats) where
  abbrev kept_for : Option Candidate
  kept_for = lookup k (keep_candidate (found n s) candidates stats).0

  keep_other : order_id_of s ≢ k → kept_for ≡ lookup k candidates
  unfolding keep_candidate
  keep_other other =
      let inserted = lookup-insert (order_id_of s) k (found n s) candidates in
      elim (Option-cases (lookup (order_id_of s) candidates)) [
        | inl fresh ↦ rw (keep_candidate, fresh) (ground (arith, inserted))
        | inr (existing, known) ↦ rw (keep_candidate, known) (ground (arith, inserted))
      ]

  keep_first : order_id_of s ≡ k → lookup k candidates ≡ none → kept_for ≡ some (found n s)
  unfolding keep_candidate
  keep_first same fresh =
      let inserted = lookup-insert (order_id_of s) k (found n s) candidates in
      let free : lookup (order_id_of s) candidates ≡ none = cc in
      rw (keep_candidate, free) (ground (arith, inserted))

  keep_again :
      (existing : Candidate)
      → order_id_of s ≡ k
      → lookup k candidates ≡ some existing
      → kept_for ≡ (if should_replace (found n s) existing then some (found n s) else some existing)
  unfolding keep_candidate
  keep_again existing same known =
      let inserted = lookup-insert (order_id_of s) k (found n s) candidates in
      let there : lookup (order_id_of s) candidates ≡ some existing = cc in
      rw (keep_candidate, there) (ground (arith, known, inserted))

-- An older candidate stands behind one that replaces it, and what does not replace it is not newer.
replaced_is_older :
    (n : ℕ) (s : Snapshot) (existing : Candidate)
    → should_replace (found n s) existing ≡ true
    → (i : ℕ) (t : Snapshot) → IsNotNewer i t existing
    → IsNotNewer i t (found n s)
unfolding should_replace
replaced_is_older n s existing replaces i t older = ground (arith, replaces, older)

staying_is_newer :
    (n : ℕ) (s : Snapshot) (existing : Candidate)
    → should_replace (found n s) existing ≡ false
    → IsNotNewer n s existing
unfolding should_replace
staying_is_newer n s existing stays = ground (arith, stays)

module _ (read : ℕ → Option Snapshot) (n k : ℕ) (s : Snapshot) where
  again-IsNewest :
      (existing : Candidate)
      → Qualifies read (suc n) k n s
      → IsNewest read n k (some existing)
      → IsNewest read
          (suc n)
          k
          (if should_replace (found n s) existing then some (found n s) else some existing)
  again-IsNewest existing q (there, newest) =
      elim (Bool-cases (should_replace (found n s) existing)) [
        | inl replaces ↦ rw replaces (
            take-IsNewest read n k s q
              (λ i t p. replaced_is_older n s existing replaces i t (newest i t p)))
        | inr stays ↦ rw stays (
          further read n k existing.index existing.snapshot there,
          λ i t p. elim (last_or_below read n k i t p) [
            | inl last ↦
                let (_, at, _, _) = q in
                let (_, at', _, _) = p in
                let same : s ≡ t = cc in
                subst (λ u. IsNotNewer i u existing) same
                  (subst (λ j. IsNotNewer j s existing) (sym last)
                    (staying_is_newer n s existing stays))
            | inr earlier ↦ newest i t earlier
          ],
        )
      ]

  keep-IsNewest :
      (candidates : Candidates) (stats : OrderRecoveryStats)
      → read n ≡ some s
      → is_eligible s ≡ true
      → IsNewest read n k (lookup k candidates)
      → IsNewest read (suc n) k (kept_for n k s candidates stats)
  keep-IsNewest candidates stats at eligible v = elim (Bool-cases (order_id_of s == k)) [
    | inr h ↦
        let other : order_id_of s ≢ k = ground arith in
        subst (IsNewest read (suc n) k) (sym (keep_other n k s candidates stats other)) (
          skip-IsNewest read n k (lookup k candidates)
            (λ t q.
              let (_, at', _, id) = q in let same : s ≡ t = cc in other (ap order_id_of same ∙ id))
            v)
    | inl h ↦
        let mine : order_id_of s ≡ k = ground arith in
        let q : Qualifies read (suc n) k n s = (omega arith, at, eligible, mine) in
        elim (Option-cases (lookup k candidates)) [
          | inl fresh ↦
              let nothing : IsNewest read n k none = subst (IsNewest read n k) fresh v in
              subst (IsNewest read (suc n) k) (sym (keep_first n k s candidates stats mine fresh))
                (take-IsNewest read n k s q (λ i t p. absurd (nothing i t p)))
          | inr (existing, known) ↦
              subst (IsNewest read (suc n) k)
                (sym (keep_again n k s candidates stats existing mine known))
                (again-IsNewest existing q (subst (IsNewest read n k) known v))
        ]
  ]

module _ (read : ℕ → Option Snapshot) (k : ℕ) where
  scan_slot-IsNewest :
      (n : ℕ) (candidates : Candidates) (stats : OrderRecoveryStats)
      → IsNewest read n k (lookup k candidates)
      → IsNewest read (suc n) k (lookup k (scan_slot read n candidates stats).0)
  unfolding scan_slot
  scan_slot-IsNewest n candidates stats v = elim (Option-cases (read n)) [
    | inl unreadable ↦
        rw (scan_slot, unreadable)
          (skip-IsNewest read n k (lookup k candidates)
            (λ t q. let (_, at, _, _) = q in absurd (cc)) v)
    | inr (s, at) ↦ elim (Bool-cases (is_eligible s)) [
      | inl eligible ↦
          rw (scan_slot, at, eligible) (keep-IsNewest read n k s candidates _ at eligible v)
      | inr ineligible ↦
          rw (scan_slot, at, ineligible)
            (skip-IsNewest read n k (lookup k candidates)
              (λ t q. let (_, at', eligible, _) = q in let same : s ≡ t = cc in absurd (cc)) v)
    ]
  ]

  -- However the slots are read, the scan of the indexes below a bound keeps for each order id the
  -- newest of the readable slots of that order that are in a downstream stage, have an id, and have
  -- not ended: the one with the latest time, and of those with that time the one with the largest
  -- index. It keeps none exactly when there is no such slot.
  pub scan_slots-IsNewest : (upper : ℕ) → IsNewest read upper k (lookup k (scan_slots read upper).0)
  unfolding scan_slots lookup
  scan_slots-IsNewest zero = λ i s q. let (below, _, _, _) = q in absurd (omega arith)
  scan_slots-IsNewest (suc n) = scan_slot-IsNewest n _ _ (scan_slots-IsNewest n)
