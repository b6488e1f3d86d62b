-- ===== src/Portfolio/Securities/Volumes.antt =====
-- What the operations on a security row do to its volumes.
use account_services.Base.{
  ℕ, zero, suc, ◌+◌, ◌-◌, ◌*◌, ◌≤◌, ◌<◌, ◌≡◌, ◌↔◌, refl, sym, ap, ◌∙◌, Bool, true, false, Option,
  none, some, Text, u64_mod, mul64, ◌==◌, ◌||◌, if◌then◌else◌, arith,
}
use account_services.Portfolio.State.{Position, PositionManager, get_position}
use account_services.Portfolio.Securities.{
  on_security_row, freeze_row, unfreeze_row, deduct_row, add_row, freeze_position,
  unfreeze_position, deduct_position, add_position,
}

-- The row that `get_position` points at.
abbrev pub row_of : PositionManager → Text → Option Position
row_of m key = elim (get_position m key) [
  | none ↦ none
  | some row ↦ elim m.shm [ none ↦ none | some shm ↦ some (shm.positions row) ]
]

pub data SecurityCall : Type 0 where
  freezes unfreezes : ℕ → SecurityCall
  deducts adds : ℕ → ℕ → SecurityCall

-- Sellable, frozen for sale and sold: what a row accounts for of the volume it began with.
abbrev pub accounted : Position → ℕ
accounted p = p.volume_available_t0 + p.volume_sell + p.volume_sell_traded

-- The body of the call, on the row.
pub row_step : SecurityCall → Position → Bool × Position
unfolding freeze_row unfreeze_row deduct_row add_row
row_step (SecurityCall.freezes volume) = freeze_row volume
row_step (SecurityCall.unfreezes volume) = unfreeze_row volume
row_step (SecurityCall.deducts volume value) = deduct_row volume value
row_step (SecurityCall.adds volume price) = add_row volume price

unfoldable pub security_step : ℕ → Text → SecurityCall → PositionManager → Bool × PositionManager
security_step now key (SecurityCall.freezes volume) = freeze_position now key volume
security_step now key (SecurityCall.unfreezes volume) = unfreeze_position now key volume
security_step now key (SecurityCall.deducts volume value) = deduct_position now key volume value
security_step now key (SecurityCall.adds volume price) = add_position now key volume price

on_security_row_lem :
    (now : ℕ) (key : Text) (body : Position → Bool × Position) (m : PositionManager) (p : Position)
    → row_of m key ≡ some p
    → ((on_security_row now key body m).0 ≡ (body p).0)
      × (row_of (on_security_row now key body m).1 key ≡ some (body p).1)
unfolding get_position
on_security_row_lem now key body m p h = ground arith

-- What a call that succeeds makes of the row, with no machine arithmetic.
abbrev pub row_outcome : SecurityCall → Position → Position
row_outcome (SecurityCall.freezes volume) p = record p {
  volume_available_t0 = p.volume_available_t0 - volume;
  volume_sell = p.volume_sell + volume;
  count_order = p.count_order + 1;
}
row_outcome (SecurityCall.unfreezes volume) p = record p {
  volume_sell = p.volume_sell - volume;
  volume_available_t0 = p.volume_available_t0 + volume;
}
row_outcome (SecurityCall.deducts volume value) p = record p {
  volume_sell = p.volume_sell - volume;
  volume_available_t0 = p.volume_available_t0 - (volume - p.volume_sell);
  volume_sell_traded = p.volume_sell_traded + volume;
  dvalue_sell_traded = p.dvalue_sell_traded + value;
}
row_outcome (SecurityCall.adds volume price) p = record p {
  volume_buy = p.volume_buy + volume;
  dvalue_buy = p.dvalue_buy + volume * price;
  volume_buy_traded = p.volume_buy_traded + volume;
  dvalue_buy_traded = p.dvalue_buy_traded + volume * price;
  volume_available_t1 = p.volume_available_t1 + volume;
}

-- The amounts of a row that the calls write are 64-bit values.
abbrev pub IsWordRow : Position → Type 0
IsWordRow p =
    (p.volume_available_t0 < u64_mod)
    × (p.volume_available_t1 < u64_mod)
    × (p.volume_buy < u64_mod)
    × (p.dvalue_buy < u64_mod)
    × (p.volume_buy_traded < u64_mod)
    × (p.dvalue_buy_traded < u64_mod)
    × (p.volume_sell < u64_mod)
    × (p.volume_sell_traded < u64_mod)
    × (p.dvalue_sell_traded < u64_mod)
    × (p.count_order < u64_mod)

added_value :
    (volume price : ℕ)
    → volume * price < u64_mod
    → (if (volume == 0) || (price == 0) then 0 else mul64 volume price) ≡ volume * price
added_value zero price fits = omega (arith)
added_value (suc volume) zero fits = grind arith
added_value (suc volume) (suc price) fits = grind arith

row_step-outcome :
    (c : SecurityCall) (p : Position)
    → IsWordRow (row_outcome c p)
    → (row_step c p).0 ≡ true
    → (row_step c p).1 ≡ row_outcome c p
unfolding row_step
row_step-outcome (SecurityCall.freezes volume) p w h = ground arith
row_step-outcome (SecurityCall.unfreezes volume) p w h = ground arith
row_step-outcome (SecurityCall.deducts volume value) p w h = ground arith
row_step-outcome (SecurityCall.adds volume price) p w h =
    ground (arith, added_value volume price (omega (arith, w.3)))

-- What a call asks of the row.
abbrev pub IsServable : SecurityCall → Position → Type 0
IsServable (SecurityCall.freezes volume) p = volume ≤ p.volume_available_t0
IsServable (SecurityCall.unfreezes volume) p = volume ≤ p.volume_sell
IsServable (SecurityCall.deducts volume value) p = volume ≤ p.volume_available_t0 + p.volume_sell
IsServable (SecurityCall.adds volume price) p = Unit {0}

row_step-iff-IsServable :
    (c : SecurityCall) (p : Position)
    → accounted p < u64_mod
    → ((row_step c p).0 ≡ true) ↔ IsServable c p
unfolding row_step
row_step-iff-IsServable (SecurityCall.freezes volume) p w = ground arith
row_step-iff-IsServable (SecurityCall.unfreezes volume) p w = ground arith
row_step-iff-IsServable (SecurityCall.deducts volume value) p w = ground arith
row_step-iff-IsServable (SecurityCall.adds volume price) p w = (λ h. tt, λ h. refl)

refused_row :
    (volume value : ℕ) (p : Position)
    → p.volume_available_t0 + p.volume_sell < volume
    → ((row_step (deducts volume value) p).0 ≡ false)
      × ((row_step (deducts volume value) p).1 ≡ record p { volume_sell = 0 })
unfolding row_step
refused_row volume value p short = ground arith

module _ (now : ℕ) (key : Text) (m : PositionManager) {p : Position}
    (found : row_of m key ≡ some p) where
  pub security_step_row :
      (c : SecurityCall)
      → ((security_step now key c m).0 ≡ (row_step c p).0)
        × (row_of (security_step now key c m).1 key ≡ some (row_step c p).1)
  unfolding security_step row_step freeze_position unfreeze_position deduct_position add_position
  security_step_row (SecurityCall.freezes volume) =
      on_security_row_lem now key (row_step (freezes volume)) m p found
  security_step_row (SecurityCall.unfreezes volume) =
      on_security_row_lem now key (row_step (unfreezes volume)) m p found
  security_step_row (SecurityCall.deducts volume value) =
      on_security_row_lem now key (row_step (deducts volume value)) m p found
  security_step_row (SecurityCall.adds volume price) =
      on_security_row_lem now key (row_step (adds volume price)) m p found

  -- A successful call on the row of a known security, where the row it makes has 64-bit amounts,
  -- makes of the row what unbounded arithmetic says: a freeze and a release move volume between
  -- sellable and frozen, a deduction takes it from the frozen and then from the sellable volume and
  -- counts it as sold, and a purchase adds it to what can be sold on the next day.
  pub security_step-outcome :
      (c : SecurityCall)
      → IsWordRow (row_outcome c p)
      → (security_step now key c m).0 ≡ true
      → row_of (security_step now key c m).1 key ≡ some (row_outcome c p)
  security_step-outcome c w h =
      (security_step_row c).1 ∙ ap some (row_step-outcome c p w (sym (security_step_row c).0 ∙ h))

  -- A call on a row whose volumes fit in 64 bits returns true exactly when the row can serve it: a
  -- freeze needs the sellable volume, a release the frozen one, and a deduction the two together.
  pub security_step-iff-IsServable :
      (c : SecurityCall)
      → accounted p < u64_mod
      → ((security_step now key c m).0 ≡ true) ↔ IsServable c p
  security_step-iff-IsServable c w = rw ((security_step_row c).0) (row_step-iff-IsServable c p w)

  -- A deduction of more than the row's sellable and frozen volumes together returns false, and yet
  -- leaves the row with nothing frozen and otherwise as it was.
  pub deduct_position_refused :
      (volume value : ℕ)
      → p.volume_available_t0 + p.volume_sell < volume
      → ((deduct_position now key volume value m).0 ≡ false)
        × (row_of (deduct_position now key volume value m).1 key
            ≡ some (record p { volume_sell = 0 }))
  unfolding security_step
  deduct_position_refused volume value short = (
    (security_step_row (deducts volume value)).0 ∙ (refused_row volume value p short).0,
    (security_step_row (deducts volume value)).1 ∙ ap some (refused_row volume value p short).1,
  )

-- The call as its body on the row.
pub security_step-on_row :
    (now : ℕ) (key : Text) (c : SecurityCall) (m : PositionManager)
    → security_step now key c m ≡ on_security_row now key (row_step c) m
unfolding security_step row_step freeze_position unfreeze_position deduct_position add_position
security_step-on_row now key (SecurityCall.freezes volume) m = refl
security_step-on_row now key (SecurityCall.unfreezes volume) m = refl
security_step-on_row now key (SecurityCall.deducts volume value) m = refl
security_step-on_row now key (SecurityCall.adds volume price) m = refl
