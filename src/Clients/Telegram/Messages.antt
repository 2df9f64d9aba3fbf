-- ===== src/Clients/Telegram/Messages.antt =====
-- The messages of clients/telegram/client.go, made from the notifications of the engine.
use text.Mathlib.Text
use Prim.Native.String.{◌++◌ as ◌<>◌}
use marstek_energy_trading.Prelude.{
  ℕ, ◌+◌, ◌&&◌, Bool, Option, List, [], ◌∷◌, String, ℤ, pos, length, ◌==◌, ltb, if◌then◌else◌,
}
use marstek_energy_trading.Platform.{Platform, Time}
use marstek_energy_trading.Service.Types.{
  State, idle, charging, discharging, solar_charging, stopping, TradingPlanCycle, TradingPlanData,
  DailySummaryData, CurrentStatus, Notification,
}
use marstek_energy_trading.Clients.Wire.{Action}
use marstek_energy_trading.Clients.Format.{decimal}
use marstek_energy_trading.Clients.Telegram.{Bot, Session, send_message}

-- The names of the states in service/service.go.
abbrev pub state_name : State → String
state_name idle = "idle"
state_name charging = "charging"
state_name discharging = "discharging"
state_name solar_charging = "solar_charging"
state_name stopping = "stopping"

-- The emoji of a state.
abbrev pub state_emoji : State → String
state_emoji charging = "🔋"
state_emoji solar_charging = "☀\u{fe0f}"
state_emoji discharging = "⚡"
state_emoji idle = "⏸\u{fe0f}"
state_emoji stopping = "⏸\u{fe0f}"

-- The reason text of a plan without a cycle, set by service/service.go.
abbrev pub no_cycle_reason : String
no_cycle_reason = "Window-averaged prices don't meet spread/efficiency requirements"

abbrev pub count_text : ℕ → String
count_text n = decimal (pos n)

module _ {N : Platform} (B : Bot N) where
  open N use {Float, literal, float_mul, float_lt}
  open B use {fixed, clock, calendar_day}

  abbrev pub zero_float : Float
  zero_float = literal (pos 0) 1

  abbrev pub eur : Float → String
  eur x = fixed 4 x

  abbrev pub positive_sign : Float → String
  positive_sign x = if float_lt zero_float x then "+" else ""

  unfoldable pub trade_start_text : String → Float → ℤ → String
  trade_start_text action price_eur soc =
      "<b>"
      <> action
      <> " started</b>\nPrice: "
      <> eur price_eur
      <> " EUR/kWh\nSOC: "
      <> decimal soc
      <> "%"

  unfoldable pub trade_end_text : String → Float → Float → ℤ → String
  trade_end_text action energy_kwh avg_price_eur end_soc =
      "<b>"
      <> action
      <> " completed</b>\nEnergy: "
      <> fixed 2 energy_kwh
      <> " kWh\nAvg price: "
      <> eur avg_price_eur
      <> " EUR/kWh\nTotal cost: "
      <> eur (float_mul energy_kwh avg_price_eur)
      <> " EUR\nSOC: "
      <> decimal end_soc
      <> "%"

  unfoldable pub error_text : String → String
  error_text err_msg = "⚠\u{fe0f} <b>Error</b>\n" <> err_msg

  unfoldable pub startup_text : String → String
  startup_text service_name = "🚀 <b>" <> service_name <> " started</b>"

  abbrev pub pnl_emoji : Float → String
  pnl_emoji pnl =
      if float_lt zero_float pnl then "📈" else if float_lt pnl zero_float then "📉" else "📊"

  abbrev pub solar_line : DailySummaryData N → String
  solar_line d =
      "☀\u{fe0f} <b>Solar charged:</b> "
      <> fixed 2 d.solar_charged_kwh
      <> " kWh ("
      <> count_text d.solar_charge_cycles
      <> " sessions)\n"

  abbrev pub cumulative_line : DailySummaryData N → String
  cumulative_line d =
      "<b>Cumulative P&L:</b> " <> positive_sign d.total_pnl_eur <> eur d.total_pnl_eur <> " EUR"

  abbrev pub trades_text : DailySummaryData N → String
  trades_text d =
      "💰 <b>Today's P&L:</b> "
      <> positive_sign d.pnl_eur
      <> eur d.pnl_eur
      <> " EUR\n\n"
      <> "🔋 <b>Charged:</b> "
      <> fixed 2 d.charged_kwh
      <> " kWh ("
      <> count_text d.charge_cycles
      <> " cycles)\n"
      <> "   Avg price: "
      <> eur d.avg_charge_price
      <> " EUR/kWh\n"
      <> "   Best price: "
      <> eur d.min_charge_price
      <> " EUR/kWh\n"
      <> (if ltb 0 d.solar_charge_cycles then "\n" <> solar_line d else "")
      <> "\n⚡ <b>Discharged:</b> "
      <> fixed 2 d.discharged_kwh
      <> " kWh ("
      <> count_text d.discharge_cycles
      <> " cycles)\n"
      <> "   Avg price: "
      <> eur d.avg_discharge_price
      <> " EUR/kWh\n"
      <> "   Best price: "
      <> eur d.max_discharge_price
      <> " EUR/kWh\n\n"
      <> "📊 "
      <> cumulative_line d

  -- A day without grid trades has a shorter summary.
  unfoldable pub daily_summary_text : DailySummaryData N → String
  daily_summary_text d =
      pnl_emoji d.pnl_eur
      <> " <b>Daily Summary - "
      <> calendar_day d.date
      <> "</b>\n\n"
      <> (if d.charge_cycles == 0 && d.discharge_cycles == 0
          then (if d.solar_charge_cycles == 0
              then "No trades today.\n\n💰 " <> cumulative_line d
              else solar_line d <> "\n💰 " <> cumulative_line d)
          else trades_text d)

  -- An unavailable battery shows no numbers.
  abbrev pub when_available : Bool → String → String
  when_available available shown = if available then shown else "unavailable"

  unfoldable pub status_text : CurrentStatus N → Float → Float → String
  status_text s today_pnl total_pnl =
      state_emoji s.state
      <> " <b>Current Status</b>\n\n"
      <> "<b>State:</b> "
      <> state_name s.state
      <> "\n"
      <> "<b>Battery:</b> "
      <> when_available s.battery_available (decimal s.battery_soc <> "%")
      <> "\n<b>Battery power:</b> "
      <> when_available s.battery_available (fixed 0 s.battery_power_w <> " W")
      <> "\n<b>Price:</b> "
      <> eur s.current_price
      <> " EUR/kWh\n"
      <> "<b>Next:</b> "
      <> s.next_action
      <> "\n\n"
      <> "<b>Today P&L:</b> "
      <> eur today_pnl
      <> " EUR\n"
      <> "<b>Total P&L:</b> "
      <> eur total_pnl
      <> " EUR"

  -- The cycles, numbered from `i`.
  unfoldable pub cycles_text : ℕ → List (TradingPlanCycle N) → String
  cycles_text i [] = ""
  cycles_text i (c ∷ cycles) =
      "\n<b>Cycle "
      <> count_text i
      <> ":</b>\n"
      <> "🔋 Charge: "
      <> clock c.charge_start
      <> " - "
      <> clock c.charge_end
      <> " @ "
      <> eur c.charge_price
      <> " EUR/kWh\n"
      <> "⚡ Discharge: "
      <> clock c.discharge_start
      <> " - "
      <> clock c.discharge_end
      <> " @ "
      <> eur c.discharge_price
      <> " EUR/kWh\n"
      <> "💰 Expected profit: "
      <> eur c.profit_per_kwh
      <> " EUR/kWh\n"
      <> cycles_text (i + 1) cycles

  abbrev pub price_range : TradingPlanData N → String
  price_range d = "Price range: " <> eur d.price_min <> " - " <> eur d.price_max <> " EUR/kWh\n"

  unfoldable pub trading_plan_text : TradingPlanData N → String
  unfolding cycles_text
  trading_plan_text d =
      (if Text.◌==◌ d.day "tomorrow" then "🔮" else "📅")
      <> " <b>Trading Plan - "
      <> d.day
      <> "</b>\n<i>"
      <> calendar_day d.date
      <> "</i>\n\n"
      <> (if d.is_profitable
          then "✅ <b>"
            <> count_text (length d.cycles)
            <> " profitable cycle(s) found</b>\n\n"
            <> price_range d
            <> cycles_text 1 d.cycles
          else "❌ <b>No profitable opportunities</b>\n\n"
            <> price_range d
            <> "Slots analyzed: "
            <> count_text d.slots_analyzed
            <> " of "
            <> count_text d.slots_total
            <> "\n\n<i>"
            <> no_cycle_reason
            <> "</i>\n"
            <> "Min spread needed: "
            <> eur d.min_spread_for_efficiency
            <> " EUR/kWh\n"
            <> "Configured min spread: "
            <> eur d.min_spread_configured
            <> " EUR/kWh")

  -- The text of a notification of the engine.
  unfoldable pub text_of : Notification N → String
  unfolding trade_start_text trade_end_text error_text startup_text daily_summary_text status_text
      trading_plan_text
  text_of (Notification.trade_start action price soc) = trade_start_text action price soc
  text_of (Notification.trade_end action energy price soc) = trade_end_text action energy price soc
  text_of (Notification.failure prefix err) = error_text (prefix <> err)
  text_of (Notification.startup service_name) = startup_text service_name
  text_of (Notification.trading_plan d) = trading_plan_text d
  text_of (Notification.daily_summary d) = daily_summary_text d
  text_of (Notification.status s today_pnl total_pnl) = status_text s today_pnl total_pnl

  unfoldable pub send_notification : Notification N → Action (Session B) (Option String)
  unfolding text_of send_message
  send_notification n = send_message B (text_of n)

  -- `SendDailySummary`, at the time `t`: the fields that it does not set are zero.
  unfoldable pub simple_summary : Time → Float → Float → Float → DailySummaryData N
  simple_summary t pnl_eur charged_kwh discharged_kwh = record {
    date = t;
    pnl_eur = pnl_eur;
    charged_kwh = charged_kwh;
    discharged_kwh = discharged_kwh;
    charge_cycles = 0;
    discharge_cycles = 0;
    solar_charged_kwh = zero_float;
    solar_charge_cycles = 0;
    avg_charge_price = zero_float;
    min_charge_price = zero_float;
    avg_discharge_price = zero_float;
    max_discharge_price = zero_float;
    total_pnl_eur = zero_float;
  }

  unfoldable pub send_daily_summary :
      Time → Float → Float → Float → Action (Session B) (Option String)
  unfolding simple_summary daily_summary_text send_message
  send_daily_summary t pnl_eur charged_kwh discharged_kwh =
      send_message B (daily_summary_text (simple_summary t pnl_eur charged_kwh discharged_kwh))
