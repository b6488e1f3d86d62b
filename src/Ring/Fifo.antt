-- ===== src/Ring/Fifo.antt =====
-- The ring is a bounded first-in first-out queue.
use account_services.Base.{
  ℕ, ◌+◌, ◌<◌, ◌≡◌, ◌≢◌, refl, ap, ◌∙◌, ◌⊎◌, inl, inr, Bool, true, false, Option, none, some, List,
  [], ◌∷◌, ◌++◌, length, ltb, ◌==◌, if◌then◌else◌, Bool-cases, arith,
}
use account_services.Ring.{Ring, try_push, try_pop}
use account_services.Ring.Cells.{following}
use account_services.Ring.Queue.{
  IsRing, queue, length-queue, pushed, popped, try_push_full, try_push_room, queue-pushed,
  try_pop_held, queue-popped, queue_none, try_pop_empty,
}

module _ {A : Type 0} (capacity : ℕ) (q : Ring A) (v : IsRing capacity q) where
  -- In a ring that has not filled its capacity less one, a push succeeds and puts the item last; in
  -- a full one it fails and changes nothing.
  pub try_push_lem :
      (x : A)
      → ((length (queue capacity q) + 1 < capacity)
          × ((try_push capacity x q).0 ≡ true)
          × IsRing capacity (try_push capacity x q).1
          × (queue capacity (try_push capacity x q).1 ≡ queue capacity q ++ (x ∷ [])))
        ⊎ ((length (queue capacity q) + 1 ≡ capacity) × (try_push capacity x q ≡ (false, q)))
  unfolding pushed
  try_push_lem x = elim (Bool-cases (following capacity q.head == q.tail)) [
    | inl full ↦
        let h = v.head_in in
        let t = v.tail_in in
        let n = length-queue capacity q v in
        inr (ground (arith, full, h, t, n), try_push_full capacity q v (ground (arith, full)) x)
    | inr room ↦
        let h = v.head_in in
        let t = v.tail_in in
        let n = length-queue capacity q v in
        let apart : following capacity q.head ≢ q.tail = ground (arith, room) in
        let step = try_push_room capacity q v apart x in
        inl (
          ground (arith, room, h, t, n),
          ap (λ (r : Bool × Ring A). r.0) step,
          rw step (record { head_in = ground (arith, h); tail_in = t; words = v.words }),
          rw step (queue-pushed capacity q v x apart),
        )
  ]

  -- From a ring that holds an item, a pop takes the oldest; from an empty one it takes nothing and
  -- changes nothing.
  pub try_pop_lem :
      ((x : A) × ((try_pop capacity q).0 ≡ some x)
        × IsRing capacity (try_pop capacity q).1
        × (queue capacity q ≡ x ∷ queue capacity (try_pop capacity q).1))
      ⊎ ((queue capacity q ≡ []) × (try_pop capacity q ≡ (none, q)))
  unfolding popped
  try_pop_lem = elim (Bool-cases (q.tail == q.head)) [
    | inl none_left ↦ inr (
      queue_none capacity q v (ground (arith, none_left)),
      try_pop_empty capacity q v (ground (arith, none_left)),
    )
    | inr more ↦
        let t = v.tail_in in
        let apart : q.tail ≢ q.head = ground (arith, more) in
        let step = try_pop_held capacity q v apart in
        inl (
          q.buffer q.tail,
          ap (λ (r : Option A × Ring A). r.0) step,
          rw step (record { head_in = v.head_in; tail_in = ground (arith, t); words = v.words }),
          rw step (queue-popped capacity q v apart),
        )
  ]

-- The two calls, and what they answer.
pub data RingCall (A : Type 0) : Type 0 where
  pushes : A → RingCall A
  pops : RingCall A

pub data Answer (A : Type 0) : Type 0 where
  accepted : Bool → Answer A
  taken : Option A → Answer A

module _ {A : Type 0} (capacity : ℕ) where
  unfoldable pub ring_step : RingCall A → Ring A → Answer A × Ring A
  ring_step (pushes x) q = (Answer.accepted (try_push capacity x q).0, (try_push capacity x q).1)
  ring_step pops q = (Answer.taken (try_pop capacity q).0, (try_pop capacity q).1)

  unfoldable pub ring_run : List (RingCall A) → Ring A → List (Answer A) × Ring A
  ring_run [] q = ([], q)
  ring_run (c ∷ cs) q =
      let (answer, q') = ring_step c q in
      let (answers, q'') = ring_run cs q' in (answer ∷ answers, q'')

  -- The same on a list, which holds fewer items than the capacity.
  unfoldable pub list_step : RingCall A → List A → Answer A × List A
  list_step (pushes x) xs =
      if ltb (length xs + 1) capacity
      then (Answer.accepted true, xs ++ (x ∷ []))
      else (Answer.accepted false, xs)
  list_step pops [] = (Answer.taken none, [])
  list_step pops (x ∷ xs) = (Answer.taken (some x), xs)

  unfoldable pub list_run : List (RingCall A) → List A → List (Answer A) × List A
  list_run [] xs = ([], xs)
  list_run (c ∷ cs) xs =
      let (answer, xs') = list_step c xs in
      let (answers, xs'') = list_run cs xs' in (answer ∷ answers, xs'')

  Steps : RingCall A → Ring A → Type 0
  Steps c q =
      ((ring_step c q).0 ≡ (list_step c (queue capacity q)).0)
      × IsRing capacity (ring_step c q).1
      × (queue capacity (ring_step c q).1 ≡ (list_step c (queue capacity q)).1)

  ring_step_lem : (c : RingCall A) (q : Ring A) → IsRing capacity q → Steps c q
  unfolding Steps ring_step list_step
  ring_step_lem (pushes x) q v = elim (try_push_lem capacity q v x) [
    | inl (room, done, valid, items) ↦
        let fits : ltb (length (queue capacity q) + 1) capacity ≡ true = ground (arith, room) in
        rw fits (ap Answer.accepted done, valid, items)
    | inr (full, same) ↦
        let fits : ltb (length (queue capacity q) + 1) capacity ≡ false = ground (arith, full) in
        rw (fits, same) (refl, v, refl)
  ]
  ring_step_lem pops q v = elim (try_pop_lem capacity q v) [
    | inl (x, got, valid, items) ↦ rw items (ap Answer.taken got, valid, refl)
    | inr (none_left, same) ↦ rw same (rw none_left (refl, v, refl))
  ]

  -- Any sequence of pushes and pops answers, from a valid ring, as it does on the list of the items,
  -- where a push is refused when the items fill the capacity less one and a pop takes the oldest;
  -- and the ring holds the items that the list ends with.
  pub ring_run_lem :
      (cs : List (RingCall A)) (q : Ring A)
      → IsRing capacity q
      → ((ring_run cs q).0 ≡ (list_run cs (queue capacity q)).0)
        × IsRing capacity (ring_run cs q).1
        × (queue capacity (ring_run cs q).1 ≡ (list_run cs (queue capacity q)).1)
  unfolding ring_run list_run Steps
  ring_run_lem [] q v = (refl, v, refl)
  ring_run_lem (c ∷ cs) q v =
      let (answers, valid, items) = ring_step_lem c q v in
      let (rest, valid', items') = ring_run_lem cs (ring_step c q).1 valid in
      (
        ap (λ (a : Answer A). a ∷ (ring_run cs (ring_step c q).1).0) answers
            ∙ ap (λ (r : List (Answer A)). (list_step c (queue capacity q)).0 ∷ r)
                (rest ∙ ap (λ (xs : List A). (list_run cs xs).0) items),
        valid',
        items' ∙ ap (λ (xs : List A). (list_run cs xs).1) items,
      )
