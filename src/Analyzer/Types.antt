-- ===== src/Analyzer/Types.antt =====
-- The data of service/analyzer.go, and `nordpool.Price` of clients/nordpool/client.go.
use marstek_energy_trading.Prelude.{Bool, List, ℤ}
use marstek_energy_trading.Platform.{Time, Platform}

module _ (N : Platform) where
  open N use {Decimal, Float}

  -- `nordpool.Price`, at the float64 boundary.
  pub record Price : Type 0 where
    pub time : Time
    pub value : Float

  -- `priceSlot`.
  pub record PriceSlot : Type 0 where
    pub time : Time
    pub value : Decimal

  pub record TimeWindow : Type 0 where
    pub start : Time
    pub end : Time
    pub price : Decimal

  pub record TradeCycle : Type 0 where
    pub charge_window : TimeWindow
    pub discharge_window : TimeWindow
    pub profit : Decimal

  pub record TradingPlan : Type 0 where
    pub date : Time
    pub charge_windows : List TimeWindow
    pub discharge_windows : List TimeWindow
    pub cycles : List TradeCycle
    pub min_price : Decimal
    pub max_price : Decimal
    pub spread : Decimal
    pub is_profitable : Bool

  pub record AnalyzerConfig : Type 0 where
    pub efficiency : Float
    pub min_price_spread : Float
    pub battery_capacity_kwh : Float
    pub battery_min_soc : Float
    pub charge_power_w : ℤ
    pub discharge_power_w : ℤ
    pub max_cycles_per_day : ℤ
