-- ===== src/Tests/Books.antt =====
-- Witnesses for the books in service/recorder.go.
use marstek_energy_trading.Prelude.{◌*◌, ◌≡◌, List, [], ◌∷◌, pos}
use marstek_energy_trading.Platform.{minute}
use marstek_energy_trading.Recorder.Types.{TradeAction, Trade}
use marstek_energy_trading.Recorder.History.{get_history, get_total_pnl}
use marstek_energy_trading.Recorder.History.Total.{total_pnl-eq-get_total_pnl}
use marstek_energy_trading.Tests.Numbers.{numbers, numbers-IsDecimal}

-- Charged at 10 before midnight and sold at 30 after it.
abbrev two_trades : List (Trade numbers)
two_trades =
    record {
      timestamp = minute;
      action = TradeAction.charge;
      price_eur = pos 10;
      power_w = pos 2500;
      duration_s = pos 60;
      energy_kwh = pos 2;
      start_soc = pos 20;
      end_soc = pos 60;
    }
    ∷ record {
      timestamp = 1500 * minute;
      action = TradeAction.discharge;
      price_eur = pos 30;
      power_w = pos 2500;
      duration_s = pos 60;
      energy_kwh = pos 2;
      start_soc = pos 60;
      end_soc = pos 20;
    }
    ∷ []

total_pnl-eq-get_total_pnl_example :
    (get_history numbers two_trades).total_pnl ≡ get_total_pnl numbers two_trades
total_pnl-eq-get_total_pnl_example = total_pnl-eq-get_total_pnl numbers numbers-IsDecimal two_trades
