-- ===== src/Program/Plans.antt =====
-- The settings that internal/config/config.go accepts, in the plans of service/analyzer.go.
use marstek_energy_trading.Prelude.{
  ◌≡◌, ◌&&◌, inl, inr, true, false, Bool-cases, none, Option-cases, List,
}
use marstek_energy_trading.Platform.{Platform, Time, IsDecimal}
use marstek_energy_trading.Analyzer.Types.{Price}
use marstek_energy_trading.Analyzer.Lookup.{is_in_charge_window, is_in_discharge_window}
use marstek_energy_trading.Analyzer.Plan.{analyze_prices}
use marstek_energy_trading.Analyzer.Plan.Exclusive.{analyze_prices_exclusive}
use marstek_energy_trading.Analyzer.Plan.Sorting.{IsDisjoint, price_time}
use marstek_energy_trading.Service.Types.{Result, ok, failed}
use marstek_energy_trading.Service.Prices.{analyzer_config}
use marstek_energy_trading.Program.Settings.{Settings, engine_config, zero_float, validate, load}

module _ (N : Platform) where
  open N use {Float, dec_zero, less_than_or_equal, dec_of_float, float_lt, float_le, float_eq}

  -- Documented behaviour of float64 and of `decimal.NewFromFloat`: two numbers are ordered (NaN is
  -- no number), and a positive one is no negative decimal.
  pub record IsFloat : Type 0 where
    pub not_le-lt :
        (x : Float)
        → float_eq x x ≡ true
        → float_le x (zero_float N) ≡ false
        → float_lt (zero_float N) x ≡ true
    pub dec_of_float-nonneg :
        (x : Float)
        → float_lt (zero_float N) x ≡ true
        → less_than_or_equal dec_zero (dec_of_float x) ≡ true

  validate-positive :
      (c : Settings N) → validate N c ≡ none → float_le c.battery_efficiency (zero_float N) ≡ false
  unfolding validate
  validate-positive c h = elim (Bool-cases (float_le c.battery_efficiency (zero_float N))) [
    | inr e ↦ e
    | inl bad ↦ cc (rw (bad, validate) at h)
  ]

  load-validate :
      (parsed : Result (Settings N)) (c : Settings N) → load N parsed ≡ ok c → validate N c ≡ none
  unfolding load
  load-validate (failed e) c h = cc
  load-validate (ok c') c h = elim (Option-cases (validate N c')) [
    | inl fine ↦ let same : c' ≡ c = cc (rw (fine, load) at h) in rw (← same) fine
    | inr (e, bad) ↦ cc (rw (bad, load) at h)
  ]

  -- Under the settings that the program accepts at its start, if their efficiency is a number, no plan
  -- that the engine makes of prices whose slots do not overlap has a time both in a charge window and
  -- in a discharge window.
  pub load_exclusive :
      (laws : IsDecimal N) (floats : IsFloat) (parsed : Result (Settings N)) (c : Settings N)
      (prices : List (Price N)) (t : Time)
      → load N parsed ≡ ok c
      → float_eq c.battery_efficiency c.battery_efficiency ≡ true
      → IsDisjoint (price_time N) prices
      → let plan = analyze_prices N prices (analyzer_config N (engine_config N c)) in
        is_in_charge_window N plan t && is_in_discharge_window N plan t ≡ false
  unfolding analyzer_config
  load_exclusive laws floats parsed c prices t h number disjoint =
      let positive = validate-positive c (load-validate parsed c h) in
      analyze_prices_exclusive N laws prices (analyzer_config N (engine_config N c)) t
        (floats.dec_of_float-nonneg _ (floats.not_le-lt _ number positive)) disjoint
