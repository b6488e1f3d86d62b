-- ===== src/Pool/Writers.antt =====
-- The writers of a slot, which may be of several processes: `orders_shm_mutate_slot` of
-- src/shm/orders_shm.hpp as the loads and stores that it makes, in any interleaving.
use account_services.Base.{
  ℕ, zero, suc, List, [], ◌∷◌, ◌+◌, add64, ◌≤◌, ◌<◌, ◌≡◌, ◌≢◌, refl, ◌⊎◌, inl, inr, true, false,
  update, ◌==◌, ==_iff, u64_mod, Bool-cases, arith,
}
use account_services.Pool.{Snapshot, OrderSlot, is_odd, even_seq, begin_write, publish, mutate}

-- Where a writer stands: outside, with its number loaded, or between its first and its last store.
pub data Writer : Type 0 where
  idle : Writer
  loaded writing : ℕ → Writer

-- The slot and each of its writers.
pub record World : Type 0 where
  pub slot : OrderSlot
  pub writers : ℕ → Writer

-- What a writer does next: it loads the number, makes its first store, stores to the fields, makes
-- its last store, or stops for good wherever it is.
pub data Move : Type 0 where
  waits : Move
  loads begins publishes stops : ℕ → Move
  stores : ℕ → (Snapshot → Snapshot) → Move

-- The moves in their order, and none after them.
abbrev pub in_order : List Move → ℕ → Move
in_order [] t = waits
in_order (c ∷ cs) zero = c
in_order (c ∷ cs) (suc t) = in_order cs t

abbrev pub put : ℕ → Writer → OrderSlot → World → World
put i x slot w = record { slot = slot; writers = update w.writers i x }

-- The moves of a writer by where it stands; a move that is not its next one does nothing.
abbrev pub load_from : ℕ → Writer → World → World
load_from i Writer.idle w = put i (loaded (even_seq w.slot.seq)) w.slot w
load_from i _ w = w

abbrev pub begin_from : ℕ → Writer → World → World
begin_from i (Writer.loaded seq) w = put i (writing seq) (begin_write seq w.slot) w
begin_from i _ w = w

abbrev pub store_from : (Snapshot → Snapshot) → Writer → World → World
store_from f (Writer.writing seq) w = record w { slot = record (w.slot) { body = f w.slot.body } }
store_from f _ w = w

abbrev pub publish_from : ℕ → Writer → World → World
publish_from i (Writer.writing seq) w = put i idle (publish seq w.slot) w
publish_from i _ w = w

unfoldable pub move : Move → World → World
move Move.waits w = w
move (Move.loads i) w = load_from i (w.writers i) w
move (Move.begins i) w = begin_from i (w.writers i) w
move (Move.stores i f) w = store_from f (w.writers i) w
move (Move.publishes i) w = publish_from i (w.writers i) w
move (Move.stops i) w = put i idle w.slot w

-- The world after the first moves of a schedule.
unfoldable pub world : World → (ℕ → Move) → ℕ → World
world w schedule zero = w
world w schedule (suc t) = move (schedule t) (world w schedule t)

-- A writer on its own does what `mutate` says.
alone-mutate :
    (i : ℕ) (f : Snapshot → Snapshot) (w : World)
    → w.writers i ≡ idle
    → (move (publishes i) (move (stores i f) (move (begins i) (move (loads i) w)))).slot
      ≡ mutate f w.slot
unfolding move mutate begin_write publish
alone-mutate i f w h = ground (arith, h, ==_iff i i)

-- A writer's number is that of the slot, as even, or one less than it, as odd.
abbrev pub AgreesAt : ℕ → Writer → Type 0
AgreesAt seq Writer.idle = Unit
AgreesAt seq (Writer.loaded s) = s ≡ even_seq seq
AgreesAt seq (Writer.writing s) = (seq ≡ s + 1) × (is_odd seq ≡ true)

abbrev pub Agrees : World → Type 0
Agrees w = (j : ℕ) → AgreesAt w.slot.seq (w.writers j)

-- Of two writers one is outside.
abbrev pub IsAlone : World → Type 0
IsAlone w = (i j : ℕ) → i ≢ j → (w.writers i ≡ idle) ⊎ (w.writers j ≡ idle)

put-Agrees :
    (i : ℕ) (x : Writer) (slot : OrderSlot) (w : World)
    → AgreesAt slot.seq x
    → ((j : ℕ) → i ≢ j → AgreesAt slot.seq (w.writers j))
    → Agrees (put i x slot w)
put-Agrees i x slot w here others j = elim (Bool-cases (i == j)) [
  | inl same ↦ rw same here
  | inr other ↦ rw other (others j (λ e. ground (arith, e, other, ==_iff i j)))
]

pub idle-AgreesAt : (seq : ℕ) (x : Writer) → x ≡ idle → AgreesAt seq x
idle-AgreesAt seq x h = rw h tt

others_idle :
    (i j s : ℕ) (slot : OrderSlot) (w : World)
    → IsAlone (put i (writing s) slot w)
    → i ≢ j
    → w.writers j ≡ idle
others_idle i j s slot w alone apart = elim (alone i j apart) [
  | inl here ↦ absurd (ground (arith, here, ==_iff i i))
  | inr there ↦ ground (arith, there, apart, ==_iff i j)
]

others_outside :
    (i j s : ℕ) (w : World) → IsAlone w → w.writers i ≡ writing s → i ≢ j → w.writers j ≡ idle
others_outside i j s w alone at apart = elim (alone i j apart) [
  | inl here ↦ absurd (ground (arith, here, at))
  | inr there ↦ there
]

even_seq_lem :
    (seq : ℕ)
    → seq + 4 < u64_mod
    → (seq ≤ even_seq seq) × (even_seq seq ≤ seq + 1) × (is_odd (even_seq seq) ≡ false)
unfolding even_seq
even_seq_lem seq room = ground arith

load-Agrees : (i : ℕ) (x : Writer) (w : World) → Agrees w → Agrees (load_from i x w)
load-Agrees i Writer.idle w v =
    put-Agrees i (loaded (even_seq w.slot.seq)) w.slot w refl (λ j apart. v j)
load-Agrees i (Writer.loaded s) w v = v
load-Agrees i (Writer.writing s) w v = v

begin-Agrees :
    (i : ℕ) (x : Writer) (w : World)
    → w.slot.seq + 4 < u64_mod
    → IsAlone (begin_from i x w)
    → w.writers i ≡ x
    → Agrees w
    → Agrees (begin_from i x w)
unfolding begin_write
begin-Agrees i Writer.idle w room alone at v = v
begin-Agrees i (Writer.loaded s) w room alone at v =
    let known : s ≡ even_seq w.slot.seq = rw at at (v i) in
    put-Agrees i (writing s) (begin_write s w.slot) w
      (ground (arith, known, even_seq_lem w.slot.seq room))
      (λ j apart.
        idle-AgreesAt (add64 s 1) (w.writers j)
          (others_idle i j s (begin_write s w.slot) w alone apart))
begin-Agrees i (Writer.writing s) w room alone at v = v

publish-Agrees :
    (i : ℕ) (x : Writer) (w : World)
    → IsAlone w
    → w.writers i ≡ x
    → Agrees w
    → Agrees (publish_from i x w)
unfolding publish
publish-Agrees i Writer.idle w alone at v = v
publish-Agrees i (Writer.loaded s) w alone at v = v
publish-Agrees i (Writer.writing s) w alone at v =
    put-Agrees i idle (publish s w.slot) w tt
      (λ j apart. idle-AgreesAt (add64 s 2) (w.writers j) (others_outside i j s w alone at apart))

store-Agrees :
    (f : Snapshot → Snapshot) (x : Writer) (w : World) → Agrees w → Agrees (store_from f x w)
store-Agrees f Writer.idle w v = v
store-Agrees f (Writer.loaded s) w v = v
store-Agrees f (Writer.writing s) w v = v

pub move-Agrees :
    (c : Move) (w : World)
    → w.slot.seq + 4 < u64_mod
    → IsAlone w
    → IsAlone (move c w)
    → Agrees w
    → Agrees (move c w)
unfolding move
move-Agrees Move.waits w room alone after v = v
move-Agrees (Move.loads i) w room alone after v = load-Agrees i (w.writers i) w v
move-Agrees (Move.begins i) w room alone after v = begin-Agrees i (w.writers i) w room after refl v
move-Agrees (Move.stores i f) w room alone after v = store-Agrees f (w.writers i) w v
move-Agrees (Move.publishes i) w room alone after v = publish-Agrees i (w.writers i) w alone refl v
move-Agrees (Move.stops i) w room alone after v = put-Agrees i idle w.slot w tt (λ j apart. v j)

-- A move raises the number, or keeps it and, if it is even, the slot.
abbrev pub Rises : OrderSlot → OrderSlot → Type 0
Rises s s' = (s.seq < s'.seq) ⊎ ((s'.seq ≡ s.seq) × ((s' ≡ s) ⊎ (is_odd s.seq ≡ true)))

begin-Rises :
    (i : ℕ) (x : Writer) (w : World)
    → w.slot.seq + 4 < u64_mod
    → w.writers i ≡ x
    → Agrees w
    → Rises w.slot (begin_from i x w).slot
unfolding begin_write
begin-Rises i Writer.idle w room at v = inr (refl, inl refl)
begin-Rises i (Writer.loaded s) w room at v =
    let known : s ≡ even_seq w.slot.seq = rw at at (v i) in
    inl (ground (arith, known, even_seq_lem w.slot.seq room))
begin-Rises i (Writer.writing s) w room at v = inr (refl, inl refl)

publish-Rises :
    (i : ℕ) (x : Writer) (w : World)
    → w.slot.seq + 4 < u64_mod
    → w.writers i ≡ x
    → Agrees w
    → Rises w.slot (publish_from i x w).slot
unfolding publish
publish-Rises i Writer.idle w room at v = inr (refl, inl refl)
publish-Rises i (Writer.loaded s) w room at v = inr (refl, inl refl)
publish-Rises i (Writer.writing s) w room at v =
    let known : AgreesAt w.slot.seq (writing s) = rw at at (v i) in inl (omega (arith, known.0))

store-Rises :
    (i : ℕ) (f : Snapshot → Snapshot) (x : Writer) (w : World)
    → w.writers i ≡ x
    → Agrees w
    → Rises w.slot (store_from f x w).slot
store-Rises i f Writer.idle w at v = inr (refl, inl refl)
store-Rises i f (Writer.loaded s) w at v = inr (refl, inl refl)
store-Rises i f (Writer.writing s) w at v =
    let known : AgreesAt w.slot.seq (writing s) = rw at at (v i) in inr (refl, inr known.1)

load-Rises : (i : ℕ) (x : Writer) (w : World) → Rises w.slot (load_from i x w).slot
load-Rises i Writer.idle w = inr (refl, inl refl)
load-Rises i (Writer.loaded s) w = inr (refl, inl refl)
load-Rises i (Writer.writing s) w = inr (refl, inl refl)

pub move-Rises :
    (c : Move) (w : World) → w.slot.seq + 4 < u64_mod → Agrees w → Rises w.slot (move c w).slot
unfolding move
move-Rises Move.waits w room v = inr (refl, inl refl)
move-Rises (Move.loads i) w room v = load-Rises i (w.writers i) w
move-Rises (Move.begins i) w room v = begin-Rises i (w.writers i) w room refl v
move-Rises (Move.stores i f) w room v = store-Rises i f (w.writers i) w refl v
move-Rises (Move.publishes i) w room v = publish-Rises i (w.writers i) w room refl v
move-Rises (Move.stops i) w room v = inr (refl, inl refl)
