-- ===== src/Tests/Plans.antt =====
-- Witnesses for the planning in service/analyzer.go.
use marstek_energy_trading.Prelude.{
  ℕ, ◌≡◌, ◌≤◌, refl, false, ◌&&◌, List, map, pos, arith, ◌⊎◌, none, some, ◌<◌, floor_div,
}
use marstek_energy_trading.Platform.{Platform}
use marstek_energy_trading.Analyzer.Types.{PriceSlot, AnalyzerConfig}
use marstek_energy_trading.Analyzer.Windows.{find_best_window}
use marstek_energy_trading.Analyzer.Windows.Best.{IsBest, find_best_window_lem}
use marstek_energy_trading.Analyzer.Cycles.{find_best_cycle}
use marstek_energy_trading.Analyzer.Cycles.Optimal.{IsOptimalFrom, find_best_cycle_optimal}
use marstek_energy_trading.Analyzer.Lookup.{is_in_charge_window, is_in_discharge_window}
use marstek_energy_trading.Analyzer.Plan.{analyze_prices, to_slot, max_cycles}
use marstek_energy_trading.Analyzer.Plan.Exclusive.{
  IsConsistent, analyze_prices-IsConsistent, analyze_prices_exclusive,
}
use marstek_energy_trading.Service.Prices.{analyzer_config}
use marstek_energy_trading.Tests.Numbers.{numbers, numbers-IsDecimal}
use marstek_energy_trading.Tests.House.{price_table, settings}

abbrev slots : List (PriceSlot numbers)
slots = map (to_slot numbers) price_table

abbrev cfg : AnalyzerConfig numbers
cfg = analyzer_config numbers settings

analyze_prices_exclusive_example :
    is_in_charge_window numbers (analyze_prices numbers price_table cfg) 7
      && is_in_discharge_window numbers (analyze_prices numbers price_table cfg) 7
    ≡ false
unfolding analyzer_config floor_div
analyze_prices_exclusive_example =
    analyze_prices_exclusive numbers numbers-IsDecimal price_table cfg 7 refl (omega arith)

find_best_cycle_optimal_example :
    IsOptimalFrom numbers numbers-IsDecimal slots 1 1
      (pos 1)
      (pos 2)
      refl
      (omega arith)
      (omega arith)
      0
      (find_best_cycle numbers slots 0 1 1 (pos 1) (pos 2))
find_best_cycle_optimal_example =
    find_best_cycle_optimal numbers numbers-IsDecimal slots 1 1 (pos 1) (pos 2) refl (omega arith)
      (omega arith) 0

find_best_window_lem_example :
    ((find_best_window numbers slots 1 2 false ≡ none) × (4 < 3))
    ⊎ ((r : ℕ × Platform.Decimal numbers) × (find_best_window numbers slots 1 2 false ≡ some r)
        × IsBest numbers numbers-IsDecimal slots 2 false 1 3 r
        × (3 ≤ 4))
find_best_window_lem_example =
    find_best_window_lem numbers numbers-IsDecimal slots 1 2 false (omega arith)

analyze_prices-IsConsistent_example :
    IsConsistent numbers (max_cycles numbers cfg) (analyze_prices numbers price_table cfg)
analyze_prices-IsConsistent_example = analyze_prices-IsConsistent numbers price_table cfg
