-- ===== src/Ring/Tests.antt =====
-- A ring of four cells, a run on it, and the ring's theorems at it.
use account_services.Base.{ℕ, ◌+◌, ◌≡◌, refl, true, false, some, List, [], ◌∷◌, arith}
use account_services.Ring.{Ring, try_push, try_pop}
use account_services.Ring.Queue.{IsRing, queue}
use account_services.Ring.Fifo.{
  RingCall, accepted, taken, pushes, pops, ring_step, ring_run, list_run, ring_run_lem,
}

abbrev ring : Ring ℕ
ring = record { head = 1; tail = 3; buffer = λ i. 10 + i }

valid : IsRing 4 ring
valid = record { head_in = omega arith; tail_in = omega arith; words = omega arith }

abbrev calls : List (RingCall ℕ)
calls = pushes 7 ∷ pushes 8 ∷ pops ∷ pushes 9 ∷ []

ring_answers :
    (ring_run 4 calls ring).0
    ≡ accepted true ∷ accepted false ∷ taken (some 13) ∷ accepted true ∷ []
unfolding ring_run ring_step try_push try_pop
ring_answers = refl

ring_run_lem_example :
    ((ring_run 4 calls ring).0 ≡ (list_run 4 calls (queue 4 ring)).0)
    × IsRing 4 (ring_run 4 calls ring).1
    × (queue 4 (ring_run 4 calls ring).1 ≡ (list_run 4 calls (queue 4 ring)).1)
ring_run_lem_example = ring_run_lem 4 calls ring valid
