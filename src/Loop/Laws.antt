-- ===== src/Loop/Laws.antt =====
-- What the loop relies on of its execution engine, and that every handler leaves the upstream queue
-- as it was.
use account_services.Base.{ℕ, ◌≡◌, ◌∙◌, Option, none, some, arith}
use account_services.Request.{OrderRequest}
use account_services.Ring.{Ring}
use account_services.Layout.{UpstreamShm}
use account_services.Router.{OrderRouter, Callback, on_book, set_state, allocate_internal_order_id}
use account_services.Router.Kept.{IsKept}
use account_services.Loop.State.{Engine, Services, on_order_book_changed, write_order}
use account_services.Loop.Kept.{IsKeptByLoop}

abbrev pub ring_of : UpstreamShm → Ring ℕ
ring_of up = up.upstream_order_queue

abbrev pub ring_in : Option UpstreamShm → Option (Ring ℕ)
ring_in none = none
ring_in (some up) = some (ring_of up)

abbrev pub upstream_ring : OrderRouter → Option (Ring ℕ)
upstream_ring r = ring_in r.upstream_shm

-- The engine leaves the upstream queue alone.
pub record EngineLaws {E : Type 0} (engine : Engine E) : Type 0 where
  pub starts_queue :
      (index : ℕ) (request : OrderRequest) (strategy time : ℕ) (e : E) (r : OrderRouter)
      → upstream_ring (engine.start_session index request strategy time (e, r)).2 ≡ upstream_ring r
  pub ticks_queue :
      (now : ℕ) (e : E) (r : OrderRouter)
      → upstream_ring (engine.tick now (e, r)).1 ≡ upstream_ring r

abbrev pub HasRingOf : Option (Ring ℕ) → OrderRouter → Type 0
HasRingOf q r = upstream_ring r ≡ q

allocate_ring : (r : OrderRouter) → upstream_ring (allocate_internal_order_id r).1 ≡ upstream_ring r
unfolding allocate_internal_order_id
allocate_ring r = ground arith

pub HasRingOf-IsKept : (q : Option (Ring ℕ)) (callback : Callback) → IsKept callback (HasRingOf q)
unfolding set_state on_book
HasRingOf-IsKept q callback = record {
  updates = λ now k st r v. v;
  adds = λ now e r v. v;
  sends = λ down r v. v;
  writes = λ shm r v. v;
  counts = λ stats r v. v;
  allocates = λ r v. allocate_ring r ∙ v;
}

module _ {E : Type 0} (services : Services E) (laws : EngineLaws services.engine) where
  pub HasRingOf-IsKeptByLoop : (q : Option (Ring ℕ)) → IsKeptByLoop services (HasRingOf q)
  unfolding on_book write_order
  HasRingOf-IsKeptByLoop q = record {
    routes = λ now. HasRingOf-IsKept q (on_order_book_changed now);
    entries = λ slot write r same v. v;
    trades = λ now k vol px val fee r v. v;
    archives = λ now k r v. v;
    starts =
        λ index request strategy time e r v. laws.starts_queue index request strategy time e r ∙ v;
    ticks = λ now e r v. laws.ticks_queue now e r ∙ v;
  }

  -- A fact that has nothing to do with the router
  pub fact-IsKeptByLoop : (A : Type 0) → IsKeptByLoop services (λ r. A)
  fact-IsKeptByLoop A = record {
    routes = λ now. record {
      updates = λ now k st r v. v;
      adds = λ now e r v. v;
      sends = λ down r v. v;
      writes = λ shm r v. v;
      counts = λ stats r v. v;
      allocates = λ r v. v;
    };
    entries = λ slot write r same v. v;
    trades = λ now k vol px val fee r v. v;
    archives = λ now k r v. v;
    starts = λ index request strategy time e r v. v;
    ticks = λ now e r v. v;
  }
