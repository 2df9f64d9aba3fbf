-- ===== src/Service/Trades.antt =====
-- The trades that `stopChargingLocked` and `stopDischargingLocked` of service/service.go build.
use marstek_energy_trading.Prelude.{if◌then◌else◌, ℤ, pos, ◌-ℤ◌, max_ℤ}
use marstek_energy_trading.Platform.{Time, Platform, sub_time}
use marstek_energy_trading.Recorder.Types.{TradeAction, Trade}
use marstek_energy_trading.Service.Types.{Service}
use marstek_energy_trading.Service.Average.{calculate_average_price}

module _ {N : Platform} where
  open N use {
    Decimal, dec_mul, dec_div, dec_is_zero, dec_of_float, dec_of_int, truncate, seconds_of,
  }

  -- The energy that the battery took, from its charge in percent.
  unfoldable pub charged_energy : Service N → ℤ → Decimal
  charged_energy s end_soc =
      let soc_delta = max_ℤ (end_soc -ℤ s.current_trade_soc) (pos 0) in
      dec_div (dec_mul (dec_of_float s.cfg.battery_capacity_kwh) (dec_of_int soc_delta))
        (dec_of_int (pos 100))

  -- The energy that reached the grid, after the loss of the round trip.
  unfoldable pub discharged_energy : Service N → ℤ → Decimal
  discharged_energy s end_soc =
      let soc_delta = max_ℤ (s.current_trade_soc -ℤ end_soc) (pos 0) in
      dec_mul
        (dec_div (dec_mul (dec_of_float s.cfg.battery_capacity_kwh) (dec_of_int soc_delta))
          (dec_of_int (pos 100)))
        (dec_of_float s.cfg.battery_efficiency)

  -- The average price over the session, or the price at its start where that is zero.
  unfoldable pub price_paid : Service N → Time → Decimal
  price_paid s stop_time =
      let avg_price = calculate_average_price N s.today_prices s.current_trade_start stop_time in
      if dec_is_zero avg_price then s.current_trade_price else avg_price

  unfoldable pub charge_trade : Service N → Time → ℤ → Trade N
  unfolding charged_energy price_paid
  charge_trade s stop_time end_soc = record {
    timestamp = s.current_trade_start;
    action = TradeAction.charge;
    price_eur = price_paid s stop_time;
    power_w = s.cfg.charge_power_w;
    duration_s = truncate (seconds_of (sub_time stop_time s.current_trade_start));
    energy_kwh = charged_energy s end_soc;
    start_soc = s.current_trade_soc;
    end_soc = end_soc;
  }

  unfoldable pub discharge_trade : Service N → Time → ℤ → Trade N
  unfolding discharged_energy
  discharge_trade s stop_time end_soc = record {
    timestamp = s.current_trade_start;
    action = TradeAction.discharge;
    price_eur = s.current_trade_price;
    power_w = s.cfg.discharge_power_w;
    duration_s = truncate (seconds_of (sub_time stop_time s.current_trade_start));
    energy_kwh = discharged_energy s end_soc;
    start_soc = s.current_trade_soc;
    end_soc = end_soc;
  }
