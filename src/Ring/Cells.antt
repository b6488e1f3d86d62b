-- ===== src/Ring/Cells.antt =====
-- The cells of a ring between two positions.
use account_services.Base.{
  ℕ, zero, suc, ◌+◌, ◌-◌, ◌%◌, ◌≤◌, ◌<◌, ◌≡◌, refl, ap, sym, inl, inr, ◌∙◌, List, [], ◌∷◌, ◌++◌,
  length, update, leb, ◌==◌, if◌then◌else◌, Bool-cases, arith,
}
use native.Mathlib.Nat.{mod-eq_of_lt, mod_self, mod-eq-sub-mod}

module _ (capacity : ℕ) where
  -- The position after `i`, and how far `h` is ahead of `t`.
  abbrev pub following : ℕ → ℕ
  following i = if i + 1 == capacity then 0 else i + 1

  abbrev pub distance : ℕ → ℕ → ℕ
  distance t h = if leb t h then h - t else h + capacity - t

  pub masked_following : (i : ℕ) → i < capacity → (i + 1) % capacity ≡ following i
  masked_following i h = elim (Bool-cases (i + 1 == capacity)) [
    | inl last ↦ let e : i + 1 ≡ capacity = ground arith in rw last (rw (sym e) (mod_self (i + 1)))
    | inr inner ↦ rw inner (mod-eq_of_lt {n = i + 1} {m = capacity} (ground arith))
  ]

  pub masked_distance :
      (t h : ℕ) → t < capacity → h < capacity → (h + capacity - t) % capacity ≡ distance t h
  masked_distance t h ht hh = elim (Bool-cases (leb t h)) [
    | inl ahead ↦
        let over : capacity ≤ h + capacity - t = ground arith in
        let rest : h + capacity - t - capacity ≡ h - t = ground arith in
        rw ahead (
          mod-eq-sub-mod {n = h + capacity - t} {m = capacity} over
          ∙ ap (λ (d : ℕ). d % capacity) rest
          ∙ mod-eq_of_lt {n = h - t} {m = capacity} (omega (arith, hh)))
    | inr behind ↦ rw behind (mod-eq_of_lt {n = h + capacity - t} {m = capacity} (ground arith))
  ]

module _ {A : Type 0} (capacity : ℕ) where
  -- `n` cells from `start` on
  unfoldable pub cells : (ℕ → A) → ℕ → ℕ → List A
  cells buffer zero start = []
  cells buffer (suc n) start = buffer start ∷ cells buffer n (following capacity start)

  pub length-cells : (buffer : ℕ → A) (n start : ℕ) → length (cells buffer n start) ≡ n
  unfolding cells
  length-cells buffer zero start = refl
  length-cells buffer (suc n) start =
      omega (arith, length-cells buffer n (following capacity start))

  -- A write at a position that is not reached is not seen.
  pub cells-update :
      (buffer : ℕ → A) (x : A) (n start h : ℕ)
      → start < capacity
      → h < capacity
      → n ≤ distance capacity start h
      → cells (update buffer h x) n start ≡ cells buffer n start
  unfolding cells
  cells-update buffer x zero start h hs hh far = refl
  cells-update buffer x (suc n) start h hs hh far =
      let rest =
        cells-update buffer x n (following capacity start) h (ground arith) hh (ground arith) in
      ground (arith, rest)

  -- The cell at the far end is the last.
  pub cells-snoc :
      (buffer : ℕ → A) (n start h : ℕ)
      → start < capacity
      → h < capacity
      → n ≡ distance capacity start h
      → cells buffer (suc n) start ≡ cells buffer n start ++ (buffer h ∷ [])
  unfolding cells
  cells-snoc buffer zero start h hs hh e = ground arith
  cells-snoc buffer (suc n) start h hs hh e =
      let rest =
        cells-snoc buffer n (following capacity start) h (ground arith) hh (ground arith) in
      ground (arith, rest)
