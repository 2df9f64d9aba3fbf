-- ===== src/Analyzer/Plan.antt =====
-- `AnalyzePrices` of service/analyzer.go.
pub mod Sorting
pub mod Order
pub mod Exclusive
use mathlib.Core.List.{foldl}
use marstek_energy_trading.Prelude.{
  ℕ, zero, suc, Bool, false, ◌||◌, none, some, List, [], ◌∷◌, map, length, ltb, leb, ◌==◌,
  if◌then◌else◌, pos, leb_ℤ, pos_part,
}
use marstek_energy_trading.Platform.{Platform, before}
use marstek_energy_trading.Analyzer.Types.{
  Price, PriceSlot, TradeCycle, TradingPlan, AnalyzerConfig,
}
use marstek_energy_trading.Analyzer.Windows.{slot_at, calculate_window_size}
use marstek_energy_trading.Analyzer.Cycles.{find_best_cycle}
use marstek_energy_trading.Analyzer.Lookup.{find_slot_index}

module _ (N : Platform) where
  open N use {
    Decimal, dec_zero, dec_sub, less_than, greater_than, dec_of_float, Float, literal, float_sub,
    float_mul, local_midnight,
  }

  -- `sort.Slice` by time. It does not say how it orders slots of one time; here they keep their
  -- order.
  unfoldable pub insert_by_time : Price N → List (Price N) → List (Price N)
  insert_by_time p [] = p ∷ []
  insert_by_time p (q ∷ qs) = if before q.time p.time then q ∷ insert_by_time p qs else p ∷ q ∷ qs

  unfoldable pub sort_by_time : List (Price N) → List (Price N)
  unfolding insert_by_time
  sort_by_time [] = []
  sort_by_time (p ∷ ps) = insert_by_time p (sort_by_time ps)

  abbrev pub to_slot : Price N → PriceSlot N
  to_slot p = record { time = p.time; value = dec_of_float p.value }

  abbrev pub lower_price : Decimal → PriceSlot N → Decimal
  lower_price min_price s = if less_than s.value min_price then s.value else min_price

  abbrev pub higher_price : Decimal → PriceSlot N → Decimal
  higher_price max_price s = if greater_than s.value max_price then s.value else max_price

  -- The loop over cycles, with `rounds` left, from `search_start_idx`.
  unfoldable pub find_cycles :
      List (PriceSlot N)
      → (charge_size discharge_size : ℕ) (efficiency min_spread : Decimal)
      → (rounds search_start_idx : ℕ) → List (TradeCycle N)
  find_cycles slots cs ds efficiency min_spread zero search_start_idx = []
  find_cycles slots cs ds efficiency min_spread (suc rounds) search_start_idx =
      elim (find_best_cycle N slots search_start_idx cs ds efficiency min_spread) [
        | none ↦ []
        | some cycle ↦ cycle ∷ (elim (find_slot_index N slots cycle.discharge_window.end) [
          | none ↦ []
          | some next ↦
              let rest = find_cycles slots cs ds efficiency min_spread rounds next in
              if leb (length slots) next then [] else rest
        ])
      ]

  -- `maxCycles`, which falls back to 2.
  abbrev pub max_cycles : AnalyzerConfig N → ℕ
  max_cycles cfg =
      if leb_ℤ cfg.max_cycles_per_day (pos 0) then 2 else pos_part cfg.max_cycles_per_day

  abbrev pub usable_capacity : AnalyzerConfig N → Float
  usable_capacity cfg =
      float_mul cfg.battery_capacity_kwh (float_sub (literal (pos 1) 1) cfg.battery_min_soc)

  abbrev pub charge_window_size : AnalyzerConfig N → ℕ
  charge_window_size cfg = calculate_window_size N (usable_capacity cfg) cfg.charge_power_w

  abbrev pub discharge_window_size : AnalyzerConfig N → ℕ
  discharge_window_size cfg = calculate_window_size N (usable_capacity cfg) cfg.discharge_power_w

  -- `&TradingPlan{}`.
  abbrev pub empty_plan : TradingPlan N
  empty_plan = record {
    date = 0;
    charge_windows = [];
    discharge_windows = [];
    cycles = [];
    min_price = dec_zero;
    max_price = dec_zero;
    spread = dec_zero;
    is_profitable = false;
  }

  abbrev pub is_non_empty : List (TradeCycle N) → Bool
  is_non_empty cycles = ltb 0 (length cycles)

  abbrev pub plan_cycles : List (PriceSlot N) → AnalyzerConfig N → List (TradeCycle N)
  plan_cycles slots cfg =
      find_cycles slots (charge_window_size cfg) (discharge_window_size cfg)
        (dec_of_float cfg.efficiency) (dec_of_float cfg.min_price_spread) (max_cycles cfg) 0

  -- The body of `AnalyzePrices` after the sort, for slots that are not empty.
  unfoldable pub analyze_slots : List (PriceSlot N) → AnalyzerConfig N → TradingPlan N
  analyze_slots slots cfg =
      let first = slot_at N slots 0 in
      let min_price = foldl lower_price first.value slots in
      let max_price = foldl higher_price first.value slots in
      let plan : TradingPlan N = record empty_plan {
        date = local_midnight first.time;
        min_price = min_price;
        max_price = max_price;
        spread = dec_sub max_price min_price;
      } in
      let cycles = plan_cycles slots cfg in
      if ltb (length slots) (charge_window_size cfg)
        || ltb (length slots) (discharge_window_size cfg)
      then plan
      else record plan {
        charge_windows = map (λ c. c.charge_window) cycles;
        discharge_windows = map (λ c. c.discharge_window) cycles;
        cycles = cycles;
        is_profitable = is_non_empty cycles;
      }

  unfoldable pub analyze_prices : List (Price N) → AnalyzerConfig N → TradingPlan N
  unfolding sort_by_time
  analyze_prices prices cfg =
      if length prices == 0
      then empty_plan
      else analyze_slots (map to_slot (sort_by_time prices)) cfg
