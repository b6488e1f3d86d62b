-- ===== src/Ring.antt =====
-- src/shm/spsc_queue.hpp: the ring buffer between one producer and one consumer, each operation a
-- step. `capacity` is the template's Capacity, a power of two, so that `& kMask` is the remainder.
pub mod Cells
pub mod Queue
pub mod Fifo
mod Tests
use account_services.Base.{
  ℕ, ◌+◌, ◌%◌, Bool, true, false, Option, none, some, update, add64, sub64, ◌==◌, if◌then◌else◌,
}

pub record Ring {ℓ} (A : Type ℓ) : Type ℓ where
  pub head : ℕ
  pub tail : ℕ
  pub buffer : ℕ → A

-- & kMask
abbrev pub masked : ℕ → ℕ → ℕ
masked capacity i = i % capacity

module _ {ℓ} {A : Type ℓ} (capacity : ℕ) where
  unfoldable pub init : Ring A → Ring A
  init q = record q { head = 0; tail = 0 }

  unfoldable pub try_push : A → Ring A → Bool × Ring A
  try_push item q =
      let next = masked capacity (q.head + 1) in
      if next == q.tail
      then (false, q)
      else (true, record q { buffer = update q.buffer q.head item; head = next })

  unfoldable pub try_pop : Ring A → Option A × Ring A
  try_pop q =
      if q.tail == q.head
      then (none, q)
      else (some (q.buffer q.tail), record q { tail = masked capacity (q.tail + 1) })

  unfoldable pub try_peek : Ring A → Option A
  try_peek q = if q.tail == q.head then none else some (q.buffer q.tail)

  -- head - tail wraps as a std::size_t.
  unfoldable pub size : Ring A → ℕ
  size q = masked capacity (add64 (sub64 q.head q.tail) capacity)

  unfoldable pub is_empty : Ring A → Bool
  is_empty q = q.head == q.tail
