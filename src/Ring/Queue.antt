-- ===== src/Ring/Queue.antt =====
-- What a push and a pop do to the items in the ring.
use account_services.Base.{
  ℕ, suc, ◌+◌, ◌-◌, ◌%◌, ◌≤◌, ◌<◌, ◌≡◌, ◌≢◌, refl, ap, sym, ◌∙◌, true, false, none, some, List, [],
  ◌∷◌, ◌++◌, length, update, u64_mod, add64, sub64, arith,
}
use account_services.Ring.{Ring, masked, try_push, try_pop, size}
use account_services.Ring.Cells.{
  following, distance, masked_following, masked_distance, cells, length-cells, cells-update,
  cells-snoc,
}

-- The positions are in the buffer, and the positions of two buffers are 64-bit values.
pub record IsRing {A : Type 0} (capacity : ℕ) (q : Ring A) : Type 0 where
  pub head_in : q.head < capacity
  pub tail_in : q.tail < capacity
  pub words : capacity + capacity ≤ u64_mod

-- The items in the ring, oldest first.
abbrev pub queue : {A : Type 0} → ℕ → Ring A → List A
queue capacity q = cells capacity q.buffer (distance capacity q.tail q.head) q.tail

module _ {A : Type 0} (capacity : ℕ) (q : Ring A) (v : IsRing capacity q) where
  pub length-queue : length (queue capacity q) ≡ distance capacity q.tail q.head
  length-queue = length-cells capacity q.buffer (distance capacity q.tail q.head) q.tail

  -- The size is the number of items.
  pub size_lem : size capacity q ≡ length (queue capacity q)
  unfolding size
  size_lem =
      let h = v.head_in in
      let t = v.tail_in in
      let w = v.words in
      let plain : add64 (sub64 q.head q.tail) capacity ≡ q.head + capacity - q.tail =
        omega (arith, h, t, w) in
      ap (λ (n : ℕ). n % capacity) plain
      ∙ masked_distance capacity q.tail q.head t h
      ∙ sym length-queue

  next_head : masked capacity (q.head + 1) ≡ following capacity q.head
  next_head = masked_following capacity q.head v.head_in

  next_tail : masked capacity (q.tail + 1) ≡ following capacity q.tail
  next_tail = masked_following capacity q.tail v.tail_in

  unfoldable pub pushed : A → Ring A
  pushed x = record q { buffer = update q.buffer q.head x; head = following capacity q.head }

  unfoldable pub popped : Ring A
  popped = record q { tail = following capacity q.tail }

  pub try_push_full :
      following capacity q.head ≡ q.tail → (x : A) → try_push capacity x q ≡ (false, q)
  unfolding try_push
  try_push_full full x = rw next_head (ground (arith, full))

  pub try_push_room :
      following capacity q.head ≢ q.tail → (x : A) → try_push capacity x q ≡ (true, pushed x)
  unfolding try_push pushed
  try_push_room room x = rw next_head (ground (arith, room))

  farther :
      following capacity q.head ≢ q.tail
      → distance capacity q.tail (following capacity q.head) ≡ suc (distance capacity q.tail q.head)
  farther room = let h = v.head_in in let t = v.tail_in in ground (arith, h, t)

  pub queue-pushed :
      (x : A)
      → following capacity q.head ≢ q.tail
      → queue capacity (pushed x) ≡ queue capacity q ++ (x ∷ [])
  unfolding pushed
  queue-pushed x room =
      let n = distance capacity q.tail q.head in
      let buffer = update q.buffer q.head x in
      let read : buffer q.head ≡ x = ground arith in
      ap (λ (m : ℕ). cells capacity buffer m q.tail) (farther room)
      ∙ cells-snoc capacity buffer n q.tail q.head v.tail_in v.head_in refl
      ∙ ap (λ (y : A). cells capacity buffer n q.tail ++ (y ∷ [])) read
      ∙ ap (λ (xs : List A). xs ++ (x ∷ []))
          (cells-update capacity q.buffer x n q.tail q.head v.tail_in v.head_in (omega arith))

  pub try_pop_held : q.tail ≢ q.head → try_pop capacity q ≡ (some (q.buffer q.tail), popped)
  unfolding try_pop popped
  try_pop_held some_item = rw next_tail (ground (arith, some_item))

  nearer :
      q.tail ≢ q.head
      → distance capacity q.tail q.head ≡ suc (distance capacity (following capacity q.tail) q.head)
  nearer some_item = let h = v.head_in in let t = v.tail_in in ground (arith, h, t)

  pub queue-popped : q.tail ≢ q.head → queue capacity q ≡ q.buffer q.tail ∷ queue capacity popped
  unfolding popped cells
  queue-popped some_item = ap (λ (m : ℕ). cells capacity q.buffer m q.tail) (nearer some_item)

  pub queue_none : q.tail ≡ q.head → queue capacity q ≡ []
  unfolding cells
  queue_none e =
      let n : distance capacity q.tail q.head ≡ 0 = ground (arith, e) in
      ap (λ (m : ℕ). cells capacity q.buffer m q.tail) n

  pub try_pop_empty : q.tail ≡ q.head → try_pop capacity q ≡ (none, q)
  unfolding try_pop
  try_pop_empty e = ground (arith, e)
