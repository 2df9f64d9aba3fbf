-- ===== src/Analyzer/Cycles.antt =====
-- `findBestCycle` of service/analyzer.go.
pub mod Pairs
pub mod Optimal
use marstek_energy_trading.Prelude.{
  ℕ, zero, suc, ◌+◌, ◌-◌, Bool, false, ◌||◌, Option, none, some, List, length, ltb, if◌then◌else◌,
}
use marstek_energy_trading.Platform.{Platform}
use marstek_energy_trading.Analyzer.Types.{PriceSlot, TimeWindow, TradeCycle}
use marstek_energy_trading.Analyzer.Windows.{quarter, slot_at, window_average, find_best_window}

module _ (N : Platform) where
  open N use {
    Decimal, dec_zero, dec_div, dec_mul, dec_sub, less_than, greater_than, less_than_or_equal,
  }

  -- The literal `TimeWindow{…}` of a window of `size` slots at `start`.
  abbrev pub time_window : List (PriceSlot N) → ℕ → ℕ → Decimal → TimeWindow N
  time_window prices start size price = record {
    start = (slot_at N prices start).time;
    end = (slot_at N prices (start + size - 1)).time + quarter;
    price = price;
  }

  -- The test that skips a pair: at or below break-even, or less than the minimum spread.
  abbrev pub is_unprofitable : (efficiency min_spread charge_avg discharge_avg : Decimal) → Bool
  is_unprofitable efficiency min_spread charge_avg discharge_avg =
      less_than_or_equal discharge_avg (dec_div charge_avg efficiency)
      || less_than (dec_sub discharge_avg charge_avg) min_spread

  -- `profit`, per kWh.
  abbrev pub expected_profit : (efficiency charge_avg discharge_avg : Decimal) → Decimal
  expected_profit efficiency charge_avg discharge_avg =
      dec_sub (dec_mul discharge_avg efficiency) charge_avg

  -- The body of the loop up to the profit: `none` is a `continue`.
  unfoldable pub best_pair_from :
      List (PriceSlot N)
      → (charge_start charge_size discharge_size : ℕ) (efficiency min_spread : Decimal)
      → Option (TradeCycle N)
  best_pair_from prices charge_start charge_size discharge_size efficiency min_spread =
      let charge_avg = window_average N prices charge_start charge_size in
      let search_start = charge_start + charge_size in
      if ltb (length prices) (search_start + discharge_size)
      then none
      else elim (find_best_window N prices search_start discharge_size false) [
        | none ↦ none
        | some (discharge_start, discharge_avg) ↦
            if is_unprofitable efficiency min_spread charge_avg discharge_avg
            then none
            else some (record {
              charge_window = time_window prices charge_start charge_size charge_avg;
              discharge_window = time_window prices discharge_start discharge_size discharge_avg;
              profit = expected_profit efficiency charge_avg discharge_avg;
            })
      ]

  -- The end of the body: `none` on the left is `found == false`, and `bestProfit` is the profit of
  -- the best cycle.
  unfoldable pub keep_best : Option (TradeCycle N) → Option (TradeCycle N) → Option (TradeCycle N)
  keep_best best none = best
  keep_best none (some c) = some c
  keep_best (some b) (some c) = if greater_than c.profit b.profit then some c else some b

  -- The loop at `charge_start`, with `rounds` positions left.
  unfoldable pub search_cycles :
      List (PriceSlot N)
      → (charge_size discharge_size : ℕ) (efficiency min_spread : Decimal)
      → (rounds charge_start : ℕ) → Option (TradeCycle N)
      → Option (TradeCycle N)
  search_cycles prices cs ds efficiency min_spread zero charge_start best = best
  search_cycles prices cs ds efficiency min_spread (suc rounds) charge_start best =
      search_cycles prices cs ds efficiency min_spread rounds (charge_start + 1)
        (keep_best best (best_pair_from prices charge_start cs ds efficiency min_spread))

  unfoldable pub find_best_cycle :
      List (PriceSlot N)
      → (start_idx charge_size discharge_size : ℕ) (efficiency min_spread : Decimal)
      → Option (TradeCycle N)
  find_best_cycle prices start_idx charge_size discharge_size efficiency min_spread =
      search_cycles prices charge_size discharge_size efficiency min_spread
        (length prices + 1 - (start_idx + charge_size)) start_idx none
