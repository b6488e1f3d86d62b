-- ===== src/Risk/Manager/Counts.antt =====
-- What the statistics count.
use account_services.Base.{ℕ, suc, ◌+◌, ◌%◌, ◌≡◌, List, [], ◌∷◌, length, u64_mod, if◌then◌else◌}
use account_services.Types.{RiskResult}
use account_services.Risk.Rules.{passed}
use account_services.Risk.Manager.{RiskState}

-- Each check is counted once as passed or rejected, and each rejection once for its reason; all
-- counters are 64 bits wide.
pub record IsCounted (s : RiskState) : Type 0 where
  pub checks : s.total_checks ≡ (s.passed + s.rejected) % u64_mod
  pub rejections :
      s.rejected
      ≡ (s.rejected_fund + s.rejected_position + s.rejected_price + s.rejected_value
          + s.rejected_volume + s.rejected_duplicate + s.rejected_rate_limit)
        % u64_mod

-- How many of the results passed.
unfoldable pub passes : List RiskResult → ℕ
passes [] = 0
passes (r ∷ rs) = let rest = passes rs in if passed r then suc rest else rest

-- What `orders` checks do to the statistics, when their results are `results`.
abbrev pub Tallies : ℕ → List RiskResult → RiskState → RiskState → Type 0
Tallies orders results s s' =
    IsCounted s'
    × (length results ≡ orders)
    × (s'.total_checks ≡ (s.total_checks + orders) % u64_mod)
    × (s'.passed ≡ (s.passed + passes results) % u64_mod)
