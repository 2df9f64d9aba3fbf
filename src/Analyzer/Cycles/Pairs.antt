-- ===== src/Analyzer/Cycles/Pairs.antt =====
-- One round of the loop of `findBestCycle`: the pairs of windows that can be traded, and the best
-- of those with a given charge window.
use mathlib.Core.Bool.{false≢true}
use marstek_energy_trading.Prelude.{
  ℕ, ◌+◌, ◌≤◌, ◌≡◌, refl, sym, subst, ◌∙◌, Bool-cases, ◌⊎◌, inl, inr, true, false, none, some, List,
  length, arith,
}
use marstek_energy_trading.Platform.{Platform, IsDecimal}
use marstek_energy_trading.Analyzer.Types.{PriceSlot, TradeCycle}
use marstek_energy_trading.Analyzer.Windows.{window_average}
use marstek_energy_trading.Analyzer.Windows.Best.{find_best_window_lem}
use marstek_energy_trading.Analyzer.Cycles.{
  time_window, is_unprofitable, expected_profit, best_pair_from,
}

module _ (N : Platform) (laws : IsDecimal N) where
  open N use {
    Decimal, dec_zero, less_than, greater_than, less_than_or_equal, dec_sub, dec_mul, dec_div,
  }
  open laws use {
    le_refl, le_trans, le_total, less_than-eq-not, greater_than-eq-not, sub_mono, mul_mono,
  }

  module _ (prices : List (PriceSlot N)) (cs ds : ℕ) (efficiency min_spread : Decimal)
      (nonneg : less_than_or_equal dec_zero efficiency ≡ true) (hc : 1 ≤ cs) (hd : 1 ≤ ds) where
    abbrev pub charge_avg_at : ℕ → Decimal
    charge_avg_at c = window_average N prices c cs

    abbrev pub discharge_avg_at : ℕ → Decimal
    discharge_avg_at d = window_average N prices d ds

    -- The windows at `c` and `d` can be traded: the second starts after the first, inside the list,
    -- above break-even and with the minimum spread.
    pub record IsTradable (c d : ℕ) : Type 0 where
      pub after : c + cs ≤ d
      pub inside : d + ds ≤ length prices
      pub above_break_even :
          less_than_or_equal (discharge_avg_at d) (dec_div (charge_avg_at c) efficiency) ≡ false
      pub enough_spread :
          less_than (dec_sub (discharge_avg_at d) (charge_avg_at c)) min_spread ≡ false

    abbrev pub cycle_at : ℕ → ℕ → TradeCycle N
    cycle_at c d = record {
      charge_window = time_window N prices c cs (charge_avg_at c);
      discharge_window = time_window N prices d ds (discharge_avg_at d);
      profit = expected_profit N efficiency (charge_avg_at c) (discharge_avg_at d);
    }

    -- A pair at `c`, and no better one at `c`.
    pub record IsBestFrom (c : ℕ) (k : TradeCycle N) : Type 0 where
      pub d : ℕ
      pub tradable : IsTradable c d
      pub made : k ≡ cycle_at c d
      pub best : (e : ℕ) → IsTradable c e → less_than_or_equal (cycle_at c e).profit k.profit ≡ true

    -- A higher discharge price stays profitable, and earns no less.
    is_unprofitable_mono :
        (charge x y : Decimal)
        → less_than_or_equal x y ≡ true
        → is_unprofitable N efficiency min_spread charge y ≡ true
        → is_unprofitable N efficiency min_spread charge x ≡ true
    is_unprofitable_mono charge x y h u = ground (
      arith,
      le_trans x y (dec_div charge efficiency) h,
      sub_mono x y charge h,
      le_trans min_spread (dec_sub x charge) (dec_sub y charge),
      less_than-eq-not (dec_sub x charge) min_spread,
      less_than-eq-not (dec_sub y charge) min_spread,
    )

    expected_profit_mono :
        (charge x y : Decimal)
        → less_than_or_equal x y ≡ true
        → less_than_or_equal
            (expected_profit N efficiency charge x)
            (expected_profit N efficiency charge y)
          ≡ true
    expected_profit_mono charge x y h = sub_mono _ _ charge (mul_mono x y efficiency nonneg h)

    IsTradable-profitable :
        {c d : ℕ}
        → IsTradable c d
        → is_unprofitable N efficiency min_spread (charge_avg_at c) (discharge_avg_at d) ≡ false
    IsTradable-profitable t = rw (t.above_break_even, t.enough_spread)

    pub best_pair_from_lem :
        (c : ℕ)
        → ((best_pair_from N prices c cs ds efficiency min_spread ≡ none)
            × ((e : ℕ) → ¬ IsTradable c e))
          ⊎ ((k : TradeCycle N) × (best_pair_from N prices c cs ds efficiency min_spread ≡ some k)
              × IsBestFrom c k)
    unfolding best_pair_from
    best_pair_from_lem c = elim (find_best_window_lem N laws prices (c + cs) ds false hd) [
      | inl (e, short) ↦ inl (ground arith, λ d t. absurd (omega (arith, t.after, t.inside)))
      | inr ((d, avg), e, b, fits) ↦
          let charge = charge_avg_at c in
          let top : (j : ℕ) → IsTradable c j → less_than_or_equal (discharge_avg_at j) avg ≡ true =
            λ j t. b.best j t.after (omega (arith, t.inside)) in
          elim (Bool-cases (is_unprofitable N efficiency min_spread charge avg)) [
            | inl u ↦ inl (
              ground arith,
              λ j t. false≢true (
                  sym (IsTradable-profitable t)
                  ∙ is_unprofitable_mono charge (discharge_avg_at j) avg (top j t) u),
            )
            | inr u ↦
                let u' : is_unprofitable N efficiency min_spread charge (discharge_avg_at d)
                    ≡ false =
                  subst (λ a. is_unprofitable N efficiency min_spread charge a ≡ false) b.average
                    u in
                inr (
                  cycle_at c d,
                  ground arith,
                  record {
                    d = d;
                    tradable = record {
                      after = b.above;
                      inside = omega (arith, b.below);
                      above_break_even = ground arith;
                      enough_spread = ground arith;
                    };
                    made = refl;
                    best = λ j t.
                        expected_profit_mono charge (discharge_avg_at j) (discharge_avg_at d)
                          (rw (← b.average) (top j t));
                  },
                )
          ]
    ]
