-- ===== src/Recorder/Days.antt =====
-- The summary of one day in `GetHistory` of service/recorder.go.
use marstek_energy_trading.Prelude.{
  ℕ, suc, Bool, true, false, not, ◌||◌, List, [], ◌∷◌, if◌then◌else◌,
}
use marstek_energy_trading.Platform.{Platform}
use marstek_energy_trading.Recorder.Types.{
  TradeAction, charge, discharge, solar_charge, Trade, DailySummary,
}

module _ (N : Platform) where
  open N use {
    Decimal, dec_zero, dec_add, dec_sub, dec_mul, dec_div, less_than, greater_than, dec_is_zero,
  }

  -- The variables of the loop over the trades of a day.
  pub record Tally : Type 0 where
    pub charged_kwh : Decimal
    pub discharged_kwh : Decimal
    pub charge_cost : Decimal
    pub discharge_revenue : Decimal
    pub solar_charged_kwh : Decimal
    pub charge_cycles : ℕ
    pub discharge_cycles : ℕ
    pub solar_charge_cycles : ℕ
    pub min_charge_price : Decimal
    pub max_discharge_price : Decimal
    pub seen_charge : Bool
    pub seen_discharge : Bool

  abbrev pub empty_tally : Tally
  empty_tally = record {
    charged_kwh = dec_zero;
    discharged_kwh = dec_zero;
    charge_cost = dec_zero;
    discharge_revenue = dec_zero;
    solar_charged_kwh = dec_zero;
    charge_cycles = 0;
    discharge_cycles = 0;
    solar_charge_cycles = 0;
    min_charge_price = dec_zero;
    max_discharge_price = dec_zero;
    seen_charge = false;
    seen_discharge = false;
  }

  unfoldable pub tally_charge : Trade N → Tally → Tally
  tally_charge t v =
      let lower = not v.seen_charge || less_than t.price_eur v.min_charge_price in
      record v {
        charged_kwh = dec_add v.charged_kwh t.energy_kwh;
        charge_cost = dec_add v.charge_cost (dec_mul t.price_eur t.energy_kwh);
        min_charge_price = if lower then t.price_eur else v.min_charge_price;
        seen_charge = if lower then true else v.seen_charge;
        charge_cycles = suc v.charge_cycles;
      }

  -- Solar energy is free: it counts as charged, not as a cost.
  unfoldable pub tally_solar : Trade N → Tally → Tally
  tally_solar t v = record v {
    charged_kwh = dec_add v.charged_kwh t.energy_kwh;
    solar_charged_kwh = dec_add v.solar_charged_kwh t.energy_kwh;
    solar_charge_cycles = suc v.solar_charge_cycles;
  }

  unfoldable pub tally_discharge : Trade N → Tally → Tally
  tally_discharge t v =
      let higher = not v.seen_discharge || greater_than t.price_eur v.max_discharge_price in
      record v {
        discharged_kwh = dec_add v.discharged_kwh t.energy_kwh;
        discharge_revenue = dec_add v.discharge_revenue (dec_mul t.price_eur t.energy_kwh);
        max_discharge_price = if higher then t.price_eur else v.max_discharge_price;
        seen_discharge = if higher then true else v.seen_discharge;
        discharge_cycles = suc v.discharge_cycles;
      }

  unfoldable pub tally_by : TradeAction → Trade N → Tally → Tally
  unfolding tally_charge tally_solar tally_discharge
  tally_by charge t v = tally_charge t v
  tally_by solar_charge t v = tally_solar t v
  tally_by discharge t v = tally_discharge t v

  unfoldable pub tally_trades : List (Trade N) → Tally → Tally
  unfolding tally_by
  tally_trades [] v = v
  tally_trades (t ∷ trades) v = tally_trades trades (tally_by t.action t v)

  -- The averages are weighted by energy; solar energy does not dilute the price of charging.
  unfoldable pub summarise : ℕ → List (Trade N) → DailySummary N
  unfolding tally_trades
  summarise date trades =
      let v = tally_trades trades empty_tally in
      let grid_charged_kwh = dec_sub v.charged_kwh v.solar_charged_kwh in
      record {
        date = date;
        charged_kwh = v.charged_kwh;
        discharged_kwh = v.discharged_kwh;
        charge_cycles = v.charge_cycles;
        discharge_cycles = v.discharge_cycles;
        solar_charged_kwh = v.solar_charged_kwh;
        solar_charge_cycles = v.solar_charge_cycles;
        pnl_eur = dec_sub v.discharge_revenue v.charge_cost;
        avg_charge_price =
            if dec_is_zero grid_charged_kwh
            then dec_zero
            else dec_div v.charge_cost grid_charged_kwh;
        min_charge_price = v.min_charge_price;
        avg_discharge_price =
            if dec_is_zero v.discharged_kwh
            then dec_zero
            else dec_div v.discharge_revenue v.discharged_kwh;
        max_discharge_price = v.max_discharge_price;
        trades = trades;
      }
