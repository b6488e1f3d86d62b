-- ===== src/Loop/Batches/Turns.antt =====
-- A turn of the loop.
use account_services.Base.{ℕ, ◌≡◌, Option, some}
use account_services.Layout.{TradesShm}
use account_services.Loop.State.{EventLoop, Services}
use account_services.Loop.Laws.{EngineLaws}

-- A batch ends with the given queue of responses.
abbrev EndsWith : {E : Type 0} → Option TradesShm → Option (ℕ × EventLoop E) → Type 0
EndsWith trades o = (r : _ × _) × (o ≡ some r) × (r.1.trades_shm ≡ trades)

abbrev EndsBatch : {E : Type 0} → Option (ℕ × EventLoop E) → Type 0
EndsBatch o = (r : _ × _) × (o ≡ some r)

module _ {E : Type 0} (services : Services E) (laws : EngineLaws services.engine) where
  abbrev EndsTurn : Option (EventLoop E) → Type 0
  EndsTurn o = (s' : EventLoop E) × (o ≡ some s')
