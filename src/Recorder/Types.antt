-- ===== src/Recorder/Types.antt =====
-- `TradeAction`, `Trade`, `DailySummary` and `History` of service/recorder.go.
use marstek_energy_trading.Prelude.{ℕ, Option, List, ℤ}
use marstek_energy_trading.Platform.{Time, Platform}

pub data TradeAction : Type 0 where
  charge discharge solar_charge : TradeAction

module _ (N : Platform) where
  open N use {Decimal}

  pub record Trade : Type 0 where
    pub timestamp : Time
    pub action : TradeAction
    pub price_eur : Decimal
    pub power_w : ℤ
    pub duration_s : ℤ
    pub energy_kwh : Decimal
    pub start_soc : ℤ
    pub end_soc : ℤ

  -- `date` is the calendar day as a number that grows with it.
  pub record DailySummary : Type 0 where
    pub date : ℕ
    pub charged_kwh : Decimal
    pub discharged_kwh : Decimal
    pub charge_cycles : ℕ
    pub discharge_cycles : ℕ
    pub solar_charged_kwh : Decimal
    pub solar_charge_cycles : ℕ
    pub pnl_eur : Decimal
    pub avg_charge_price : Decimal
    pub min_charge_price : Decimal
    pub avg_discharge_price : Decimal
    pub max_discharge_price : Decimal
    pub trades : List Trade

  pub record History : Type 0 where
    pub days : List DailySummary
    pub total_pnl : Decimal
    pub total_days : ℕ
    pub first_trade : Option Time
    pub last_trade : Option Time
