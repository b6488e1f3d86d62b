-- ===== src/Pool/Torn.antt =====
-- No reader of a slot gets a torn snapshot from writers that take turns.
use account_services.Base.{
  ℕ, zero, suc, ◌+◌, ◌-◌, ◌≤◌, ◌<◌, ◌≡◌, refl, ap, sym, subst, ◌∙◌, inl, inr, false, some, u64_mod,
  Option-cases, arith,
}
use account_services.Pool.{
  Snapshot, OrderSlot, OrdersShm, Loads, is_odd, read_attempt, read_attempts,
  orders_shm_read_snapshot,
}
use account_services.Pool.Writers.{
  World, Move, world, idle, Agrees, IsAlone, Rises, idle-AgreesAt, move-Agrees, move-Rises,
}

-- A run of writers, of whom all are outside at first and never two inside at once, and in which the
-- 64-bit number does not wrap.
pub record IsHistory (w : World) (schedule : ℕ → Move) : Type 0 where
  pub starts : (i : ℕ) → w.writers i ≡ idle
  pub alone : (t : ℕ) → IsAlone (world w schedule t)
  pub no_wrap : (t : ℕ) → (world w schedule t).slot.seq + 4 < u64_mod

-- The loads of an attempt are made between those of the number.
pub record IsOrdered (t : Loads) : Type 0 where
  pub request_in : (t.seq0 ≤ t.request) × (t.request ≤ t.seq1)
  pub stage_in : (t.seq0 ≤ t.stage) × (t.stage ≤ t.seq1)
  pub source_in : (t.seq0 ≤ t.source) × (t.source ≤ t.seq1)
  pub update_in : (t.seq0 ≤ t.last_update_ns) × (t.last_update_ns ≤ t.seq1)

module _ (w : World) (schedule : ℕ → Move) (history : IsHistory w schedule) where
  -- The slot at a time.
  abbrev pub slot : ℕ → OrderSlot
  slot t = (world w schedule t).slot

  world-Agrees : (t : ℕ) → Agrees (world w schedule t)
  unfolding world
  world-Agrees zero = λ i. idle-AgreesAt w.slot.seq (w.writers i) (history.starts i)
  world-Agrees (suc t) =
      move-Agrees (schedule t) (world w schedule t) (history.no_wrap t) (history.alone t)
        (history.alone (suc t)) (world-Agrees t)

  world-Rises : (t : ℕ) → Rises (slot t) (slot (suc t))
  unfolding world
  world-Rises t = move-Rises (schedule t) (world w schedule t) (history.no_wrap t) (world-Agrees t)

  step_at : (t d : ℕ) → Rises (slot (t + d)) (slot (t + suc d))
  step_at t d =
      let e : suc (t + d) ≡ t + suc d = omega arith in
      subst (λ u. Rises (slot (t + d)) (slot u)) e (world-Rises (t + d))

  at_start : (t : ℕ) → slot (t + 0) ≡ slot t
  at_start t = let e : t + 0 ≡ t = omega arith in ap slot e

  seq_mono : (t d : ℕ) → (slot t).seq ≤ (slot (t + d)).seq
  seq_mono t zero = omega (arith, ap (λ (x : OrderSlot). x.seq) (at_start t))
  seq_mono t (suc d) = elim (step_at t d) [
    | inl higher ↦ omega (arith, seq_mono t d, higher)
    | inr (equal, _) ↦ omega (arith, seq_mono t d, equal)
  ]

  -- While the number stays as it is and is even, so does the slot.
  still :
      (t d : ℕ)
      → is_odd (slot t).seq ≡ false
      → (slot (t + d)).seq ≡ (slot t).seq
      → slot (t + d) ≡ slot t
  still t zero even same = at_start t
  still t (suc d) even same = elim (step_at t d) [
    | inl higher ↦ absurd (omega (arith, seq_mono t d, higher, same))
    | inr (equal, inl unmoved) ↦ unmoved ∙ still t d even (sym equal ∙ same)
    | inr (equal, inr odd) ↦ absurd (ground (arith, odd, even, equal, same))
  ]

  -- Between two loads of the same even number the slot does not change.
  still_between :
      (t u w : ℕ)
      → is_odd (slot t).seq ≡ false
      → t ≤ u
      → u ≤ w
      → (slot w).seq ≡ (slot t).seq
      → slot u ≡ slot t
  still_between t u w even tu uw same =
      let to_u : t + (u - t) ≡ u = omega (arith, tu) in
      let to_w : u + (w - u) ≡ w = omega (arith, uw) in
      let low : (slot t).seq ≤ (slot u).seq =
        subst (λ x. (slot t).seq ≤ (slot x).seq) to_u (seq_mono t (u - t)) in
      let high : (slot u).seq ≤ (slot w).seq =
        subst (λ x. (slot u).seq ≤ (slot x).seq) to_w (seq_mono u (w - u)) in
      let equal : (slot u).seq ≡ (slot t).seq = omega (arith, low, high, same) in
      sym (ap slot to_u) ∙ still t (u - t) even (ap (λ (x : ℕ). (slot x).seq) to_u ∙ equal)

  -- The slot held the snapshot at a time at which no write was in progress.
  abbrev pub IsWhole : Snapshot → Type 0
  IsWhole snapshot = (t : ℕ) × (is_odd (slot t).seq ≡ false) × ((slot t).body ≡ snapshot)

  seen : Loads → Snapshot
  seen t = record {
    request = (slot t.request).body.request;
    stage = (slot t.stage).body.stage;
    source = (slot t.source).body.source;
    last_update_ns = (slot t.last_update_ns).body.last_update_ns;
  }

  read_attempt_inv :
      (t : Loads) {snapshot : Snapshot}
      → read_attempt slot t ≡ some snapshot
      → (is_odd (slot t.seq0).seq ≡ false)
        × ((slot t.seq1).seq ≡ (slot t.seq0).seq)
        × (seen t ≡ snapshot)
  unfolding read_attempt seen
  read_attempt_inv t got = ground arith

  seen_whole :
      (t : Loads)
      → IsOrdered t
      → is_odd (slot t.seq0).seq ≡ false
      → (slot t.seq1).seq ≡ (slot t.seq0).seq
      → (slot t.seq0).body ≡ seen t
  unfolding seen
  seen_whole t order even same =
      let r =
        still_between t.seq0 t.request t.seq1 even order.request_in.0 order.request_in.1 same in
      let g = still_between t.seq0 t.stage t.seq1 even order.stage_in.0 order.stage_in.1 same in
      let o = still_between t.seq0 t.source t.seq1 even order.source_in.0 order.source_in.1 same in
      let u =
        still_between t.seq0 t.last_update_ns t.seq1 even order.update_in.0 order.update_in.1
          same in
      rw (r, g, o, u) refl

  read_attempt-IsWhole :
      (t : Loads) {snapshot : Snapshot}
      → IsOrdered t
      → read_attempt slot t ≡ some snapshot
      → IsWhole snapshot
  read_attempt-IsWhole t order got =
      let (even, same, is_seen) = read_attempt_inv t got in
      (t.seq0, even, seen_whole t order even same ∙ is_seen)

  read_attempts-IsWhole :
      (attempts : ℕ) (loads : ℕ → Loads) {snapshot : Snapshot}
      → ((i : ℕ) → IsOrdered (loads i))
      → read_attempts attempts loads slot ≡ some snapshot
      → IsWhole snapshot
  unfolding read_attempts
  read_attempts-IsWhole zero loads order got = absurd (ground (arith, got))
  read_attempts-IsWhole (suc attempts) loads order got =
      elim (Option-cases (read_attempt slot (loads 0))) [
        | inl failed ↦
            read_attempts-IsWhole attempts (λ i. loads (i + 1)) (λ i. order (i + 1))
              (ground (arith, got, failed))
        | inr (first, read) ↦ read_attempt-IsWhole (loads 0) (order 0) (ground (arith, got, read))
      ]

  -- However the loads of a reader and the loads and stores of any number of writers interleave, where
  -- no two writers are inside at once and the 64-bit number does not wrap, and each attempt of the
  -- reader makes its loads of the fields between its two of the number: a snapshot that it returns is
  -- what the slot held at one moment, with no write in progress.
  pub orders_shm_read_snapshot-IsWhole :
      (index : ℕ) (shm : OrdersShm) (loads : ℕ → Loads) {snapshot : Snapshot}
      → ((i : ℕ) → IsOrdered (loads i))
      → orders_shm_read_snapshot index shm loads slot ≡ some snapshot
      → IsWhole snapshot
  unfolding orders_shm_read_snapshot
  orders_shm_read_snapshot-IsWhole index shm loads order got =
      read_attempts-IsWhole 32 loads order (ground (arith, got))
