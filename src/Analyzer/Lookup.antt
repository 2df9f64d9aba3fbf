-- ===== src/Analyzer/Lookup.antt =====
-- The lookups of service/analyzer.go by time: `findSlotIndex`, `GetCurrentPrice`,
-- `IsInChargeWindow`, `IsInDischargeWindow` and `ShouldTrade`.
use marstek_energy_trading.Prelude.{
  ℕ, suc, ◌+◌, Bool, true, false, not, ◌&&◌, ◌||◌, Option, none, some, List, [], ◌∷◌, length, ltb,
  if◌then◌else◌,
}
use marstek_energy_trading.Platform.{Time, Platform, before}
use marstek_energy_trading.Analyzer.Types.{Price, PriceSlot, TimeWindow, TradingPlan}
use marstek_energy_trading.Analyzer.Windows.{quarter}

-- `start <= t < end`, as the source writes it.
abbrev pub is_within : Time → Time → Time → Bool
is_within t start end = not (before t start) && before t end

module _ (N : Platform) where
  open N use {Decimal, dec_of_float}

  -- The loop of `findSlotIndex` at index `i`; `none` is -1.
  unfoldable pub find_slot_from : List (PriceSlot N) → Time → ℕ → Option ℕ
  find_slot_from [] t i = none
  find_slot_from (p ∷ prices) t i =
      if not (before p.time t) then some i else find_slot_from prices t (suc i)

  unfoldable pub find_slot_index : List (PriceSlot N) → Time → Option ℕ
  unfolding find_slot_from
  find_slot_index prices t = find_slot_from prices t 0

  unfoldable pub get_current_price : List (Price N) → Time → Option Decimal
  get_current_price [] t = none
  get_current_price (p ∷ prices) t =
      if is_within t p.time (p.time + quarter)
      then some (dec_of_float p.value)
      else get_current_price prices t

  unfoldable pub is_in_windows : List (TimeWindow N) → Time → Bool
  is_in_windows [] t = false
  is_in_windows (w ∷ windows) t =
      if is_within t w.start w.end then true else is_in_windows windows t

  unfoldable pub is_in_charge_window : TradingPlan N → Time → Bool
  unfolding is_in_windows
  is_in_charge_window plan t = is_in_windows plan.charge_windows t

  unfoldable pub is_in_discharge_window : TradingPlan N → Time → Bool
  unfolding is_in_windows
  is_in_discharge_window plan t = is_in_windows plan.discharge_windows t

  unfoldable pub should_trade : TradingPlan N → Bool
  should_trade plan =
      plan.is_profitable
      && (ltb 0 (length plan.charge_windows) || ltb 0 (length plan.discharge_windows))
