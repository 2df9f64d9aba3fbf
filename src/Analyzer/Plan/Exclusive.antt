-- ===== src/Analyzer/Plan/Exclusive.antt =====
-- What a plan promises to the trading loop: never both directions at once, at most the configured
-- number of cycles, and a flag that agrees with its windows.
use marstek_energy_trading.Prelude.{
  ℕ, zero, suc, ◌≤◌, ◌≡◌, refl, ap, ◌==◌, true, false, ◌&&◌, List, [], ◌∷◌, map, length, arith,
  Bool-cases, inl, inr, ltb,
}
use marstek_energy_trading.Platform.{Time, Platform, IsDecimal}
use marstek_energy_trading.Analyzer.Types.{
  Price, PriceSlot, TimeWindow, TradeCycle, AnalyzerConfig, TradingPlan,
}
use marstek_energy_trading.Analyzer.Windows.Best.{one-le-calculate_window_size}
use marstek_energy_trading.Analyzer.Lookup.{
  is_in_windows, is_in_charge_window, is_in_discharge_window, should_trade,
}
use marstek_energy_trading.Analyzer.Plan.{
  find_cycles, plan_cycles, charge_window_size, discharge_window_size, max_cycles, usable_capacity,
  analyze_slots, analyze_prices, sort_by_time,
}
use marstek_energy_trading.Analyzer.Plan.Sorting.{
  IsDisjoint, price_time, slot_time, IsSpaced, sort_by_time-IsSpaced, to_slot-IsSpaced,
}
use marstek_energy_trading.Analyzer.Plan.Order.{IsChain, find_cycles-IsChain}

module _ (N : Platform) where
  open N use {Decimal, dec_zero, less_than_or_equal, dec_of_float}

  abbrev charge_windows_of : List (TradeCycle N) → List (TimeWindow N)
  charge_windows_of = map (λ k. k.charge_window)

  abbrev discharge_windows_of : List (TradeCycle N) → List (TimeWindow N)
  discharge_windows_of = map (λ k. k.discharge_window)

  -- A time in any window of a chain is not before its start.
  IsChain-charge_after :
      (lo t : Time) (ks : List (TradeCycle N))
      → IsChain N lo ks
      → is_in_windows N (charge_windows_of ks) t ≡ true
      → lo ≤ t
  unfolding is_in_windows
  IsChain-charge_after lo t [] h e = cc
  IsChain-charge_after lo t (k ∷ ks) h e =
      ground (arith, IsChain-charge_after k.discharge_window.end t ks h.4)

  IsChain-discharge_after :
      (lo t : Time) (ks : List (TradeCycle N))
      → IsChain N lo ks
      → is_in_windows N (discharge_windows_of ks) t ≡ true
      → lo ≤ t
  unfolding is_in_windows
  IsChain-discharge_after lo t [] h e = cc
  IsChain-discharge_after lo t (k ∷ ks) h e =
      ground (arith, IsChain-discharge_after k.discharge_window.end t ks h.4)

  IsChain-exclusive :
      (lo t : Time) (ks : List (TradeCycle N))
      → IsChain N lo ks
      → is_in_windows N (charge_windows_of ks) t && is_in_windows N (discharge_windows_of ks) t
        ≡ false
  unfolding is_in_windows
  IsChain-exclusive lo t [] h = refl
  IsChain-exclusive lo t (k ∷ ks) h = ground (
    arith,
    IsChain-charge_after k.discharge_window.end t ks h.4,
    IsChain-discharge_after k.discharge_window.end t ks h.4,
    IsChain-exclusive k.discharge_window.end t ks h.4,
  )

  length-find_cycles :
      (slots : List (PriceSlot N)) (cs ds : ℕ) (efficiency min_spread : Decimal) (rounds start : ℕ)
      → length (find_cycles N slots cs ds efficiency min_spread rounds start) ≤ rounds
  unfolding find_cycles
  length-find_cycles slots cs ds efficiency min_spread zero start = omega arith
  length-find_cycles slots cs ds efficiency min_spread (suc rounds) start =
      grind (arith, length-find_cycles slots cs ds efficiency min_spread rounds)

  -- The windows are those of the cycles, in order, of which there are at most `n`, and the flag agrees.
  abbrev pub IsConsistent : ℕ → TradingPlan N → Type 0
  IsConsistent n plan =
      (length plan.cycles ≤ n)
      × (plan.charge_windows ≡ charge_windows_of plan.cycles)
      × (plan.discharge_windows ≡ discharge_windows_of plan.cycles)
      × (plan.is_profitable ≡ ltb 0 (length plan.cycles))
      × (should_trade N plan ≡ plan.is_profitable)

  length-map {ℓ κ} :
      {A : Type ℓ} {B : Type κ} (f : A → B) (xs : List A) → length (map f xs) ≡ length xs
  length-map f [] = refl
  length-map f (x ∷ xs) = ap suc (length-map f xs)

  analyze_slots-IsConsistent :
      (slots : List (PriceSlot N)) (cfg : AnalyzerConfig N)
      → IsConsistent (max_cycles N cfg) (analyze_slots N slots cfg)
  unfolding analyze_slots should_trade
  analyze_slots-IsConsistent slots cfg =
      let cycles = plan_cycles N slots cfg in
      ground (
        arith,
        length-map (λ (k : TradeCycle N). k.charge_window) cycles,
        length-map (λ (k : TradeCycle N). k.discharge_window) cycles,
        length-find_cycles slots (charge_window_size N cfg) (discharge_window_size N cfg)
            (dec_of_float cfg.efficiency) (dec_of_float cfg.min_price_spread) (max_cycles N cfg) 0,
      )

  -- For all prices and settings a plan has at most the configured number of cycles (two, if that is
  -- not positive), its charge and its discharge windows are those of its cycles, in order, and it is
  -- marked profitable, and says that trading should occur, exactly when it has a cycle.
  pub analyze_prices-IsConsistent :
      (prices : List (Price N)) (cfg : AnalyzerConfig N)
      → IsConsistent (max_cycles N cfg) (analyze_prices N prices cfg)
  unfolding analyze_prices should_trade
  analyze_prices-IsConsistent prices cfg = elim (Bool-cases (length prices == 0)) [
    | inl e ↦ rw e (omega arith, refl, refl, refl, refl)
    | inr e ↦ rw e (analyze_slots-IsConsistent _ cfg)
  ]

  module _ (laws : IsDecimal N) where
    plan_cycles-IsChain :
        (slots : List (PriceSlot N)) (cfg : AnalyzerConfig N)
        → less_than_or_equal dec_zero (dec_of_float cfg.efficiency) ≡ true
        → IsSpaced (slot_time N) slots
        → IsChain N 0 (plan_cycles N slots cfg)
    plan_cycles-IsChain slots cfg nonneg h =
        find_cycles-IsChain N laws slots _ _ _ _ nonneg
          (one-le-calculate_window_size N (usable_capacity N cfg) cfg.charge_power_w)
          (one-le-calculate_window_size N (usable_capacity N cfg) cfg.discharge_power_w) h _ 0 0
          (λ i p q. omega arith)

    analyze_slots_exclusive :
        (slots : List (PriceSlot N)) (cfg : AnalyzerConfig N) (t : Time)
        → less_than_or_equal dec_zero (dec_of_float cfg.efficiency) ≡ true
        → IsSpaced (slot_time N) slots
        → let plan = analyze_slots N slots cfg in
          is_in_charge_window N plan t && is_in_discharge_window N plan t ≡ false
    unfolding analyze_slots is_in_charge_window is_in_discharge_window is_in_windows
    analyze_slots_exclusive slots cfg t nonneg h = ground (
      arith,
      IsChain-exclusive 0 t (plan_cycles N slots cfg) (plan_cycles-IsChain slots cfg nonneg h),
    )

    -- For a lawful decimal type, if no two price slots start within 15 minutes of one another and the
    -- efficiency is not negative, no time lies in a charge window and in a discharge window of the plan.
    pub analyze_prices_exclusive :
        (prices : List (Price N)) (cfg : AnalyzerConfig N) (t : Time)
        → less_than_or_equal dec_zero (dec_of_float cfg.efficiency) ≡ true
        → IsDisjoint (price_time N) prices
        → let plan = analyze_prices N prices cfg in
          is_in_charge_window N plan t && is_in_discharge_window N plan t ≡ false
    unfolding analyze_prices is_in_charge_window is_in_discharge_window is_in_windows
    analyze_prices_exclusive prices cfg t nonneg h = elim (Bool-cases (length prices == 0)) [
      | inl e ↦ rw e
      | inr e ↦ rw e (
          analyze_slots_exclusive _ cfg t nonneg
            (to_slot-IsSpaced N (sort_by_time N prices) (sort_by_time-IsSpaced N prices h)))
    ]
