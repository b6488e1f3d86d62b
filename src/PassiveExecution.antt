-- ===== src/PassiveExecution.antt =====
-- src/order/passive_execution.hpp: the algorithm that an order declares, and the service's own. The
-- enumerators are those of src/common/types.hpp; a byte that is none of them is left out.
use account_services.Base.{◌≡◌, refl, Text, codes}
use account_services.Types.{PassiveExecutionAlgo}

data SplitStrategy : Type 0 where
  none fixed_size twap vwap iceberg : SplitStrategy

unfoldable passive_execution_algo_to_split_strategy : PassiveExecutionAlgo → SplitStrategy
passive_execution_algo_to_split_strategy PassiveExecutionAlgo.none = SplitStrategy.none
passive_execution_algo_to_split_strategy PassiveExecutionAlgo.fixed_size = SplitStrategy.fixed_size
passive_execution_algo_to_split_strategy PassiveExecutionAlgo.twap = SplitStrategy.twap
passive_execution_algo_to_split_strategy PassiveExecutionAlgo.vwap = SplitStrategy.vwap
passive_execution_algo_to_split_strategy PassiveExecutionAlgo.iceberg = SplitStrategy.iceberg
passive_execution_algo_to_split_strategy PassiveExecutionAlgo.default = SplitStrategy.none

unfoldable split_strategy_to_passive_execution_algo : SplitStrategy → PassiveExecutionAlgo
split_strategy_to_passive_execution_algo SplitStrategy.fixed_size = PassiveExecutionAlgo.fixed_size
split_strategy_to_passive_execution_algo SplitStrategy.twap = PassiveExecutionAlgo.twap
split_strategy_to_passive_execution_algo SplitStrategy.vwap = PassiveExecutionAlgo.vwap
split_strategy_to_passive_execution_algo SplitStrategy.iceberg = PassiveExecutionAlgo.iceberg
split_strategy_to_passive_execution_algo SplitStrategy.none = PassiveExecutionAlgo.none

unfoldable resolve_passive_split_strategy : PassiveExecutionAlgo → SplitStrategy → SplitStrategy
resolve_passive_split_strategy PassiveExecutionAlgo.default default_strategy = default_strategy
resolve_passive_split_strategy algo default_strategy = passive_execution_algo_to_split_strategy algo

unfoldable passive_execution_algo_name : PassiveExecutionAlgo → Text
passive_execution_algo_name PassiveExecutionAlgo.default = codes "default"
passive_execution_algo_name PassiveExecutionAlgo.none = codes "none"
passive_execution_algo_name PassiveExecutionAlgo.fixed_size = codes "fixed_size"
passive_execution_algo_name PassiveExecutionAlgo.twap = codes "twap"
passive_execution_algo_name PassiveExecutionAlgo.vwap = codes "vwap"
passive_execution_algo_name PassiveExecutionAlgo.iceberg = codes "iceberg"

-- The algorithm that shows a strategy resolves to that strategy, whatever the default.
resolve_shown :
    (s default_strategy : SplitStrategy)
    → resolve_passive_split_strategy (split_strategy_to_passive_execution_algo s) default_strategy
      ≡ s
unfolding resolve_passive_split_strategy split_strategy_to_passive_execution_algo
    passive_execution_algo_to_split_strategy
resolve_shown SplitStrategy.none d = refl
resolve_shown SplitStrategy.fixed_size d = refl
resolve_shown SplitStrategy.twap d = refl
resolve_shown SplitStrategy.vwap d = refl
resolve_shown SplitStrategy.iceberg d = refl
