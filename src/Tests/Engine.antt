-- ===== src/Tests/Engine.antt =====
-- Witnesses for the engine in service/service.go.
use marstek_energy_trading.Prelude.{
  suc, ℤ, negsuc, leb_ℤ, max_ℤ, some, ◌*◌, ◌≡◌, ◌≤◌, refl, true, [], ◌∷◌, pos, ◌<ℤ◌, arith, ◌*ℤ◌,
  floor_div, neg,
}
use marstek_energy_trading.Platform.{Time, minute}
use marstek_energy_trading.Analyzer.Types.{TimeWindow, TradingPlan}
use marstek_energy_trading.Analyzer.Plan.{empty_plan}
use marstek_energy_trading.Analyzer.Lookup.{
  get_current_price, is_in_charge_window, is_in_discharge_window, is_in_windows, should_trade,
}
use marstek_energy_trading.Service.Outcomes.Entries.{
  IsPlanned, IsAnswer, tick_charges, tick_discharges,
}
use marstek_energy_trading.Service.Types.{charging, discharging, Command, BatteryStatus}
use marstek_energy_trading.Service.Machine.{Machine}
use marstek_energy_trading.Service.Control.{
  confirms, power_threshold, wait_loop, wait_for_battery_power, transition_to_idle,
  stop_battery_on_shutdown, retry_stopping,
}
use marstek_energy_trading.Service.Trades.{charge_trade, discharge_trade}
use marstek_energy_trading.Service.Grid.{
  begin_session, start_charging, charging_begun, start_discharging, discharging_begun,
  stop_charging, stop_discharging,
}
use marstek_energy_trading.Service.SolarTick.{solar_tick}
use marstek_energy_trading.Service.Tick.{tick, tick_with_status, tick_state, tick_idle, min_soc}
use marstek_energy_trading.Service.Safety.{IsSafe}
use marstek_energy_trading.Service.Safety.Handlers.{tick-IsSafe}
use marstek_energy_trading.Service.Safety.SolarHandlers.{solar_tick-IsSafe}
use marstek_energy_trading.Service.Safety.Starts.{
  IsStarted, start_charging-IsStarted, start_discharging-IsStarted,
}
use marstek_energy_trading.Service.Outcomes.Stops.{
  IsTransition, transition_to_idle-IsTransition, IsStopped, stop_charging-IsStopped,
  stop_discharging-IsStopped,
}
use marstek_energy_trading.Service.Outcomes.Decisions.{
  IsFloatOrder, is_enough, power_of, first_that, readings, wait_for_battery_power_confirmed,
}
use marstek_energy_trading.Service.Loop.{
  ticker, price_ticker, daily_ticker, cmd_ticker, solar_ticker, start_up, after_connect,
  after_reset, restore_trades, greet, run, start,
}
use marstek_energy_trading.Service.Loop.Shutdown.{
  IsLeft, start-IsLeft, Retried, stop_battery_on_shutdown_retries,
}
use marstek_energy_trading.Service.Loop.Invariant.{IsNew, start_up-run-IsSafe}
use marstek_energy_trading.Service.Outcomes.Sessions.{IsEnded, tick-IsEnded}
use marstek_energy_trading.Service.Trades.{charge_trade}
use marstek_energy_trading.Tests.Numbers.{numbers, equal}
use marstek_energy_trading.Tests.House.{
  house, price_table, settings, new_machine, resting_machine, charging_machine,
}

new_machine-IsNew : IsNew new_machine
new_machine-IsNew = record {
  at_rest = refl;
  charge_positive = omega arith;
  discharge_positive = omega arith;
  forward = refl;
}

resting_machine-IsSafe : IsSafe resting_machine
resting_machine-IsSafe = record {
  agreed = refl;
  charge_positive = omega arith;
  discharge_positive = omega arith;
  forward = refl;
  solar_positive = λ h. cc;
}

charging_machine-IsSafe : IsSafe charging_machine
charging_machine-IsSafe = record {
  agreed = refl;
  charge_positive = omega arith;
  discharge_positive = omega arith;
  forward = refl;
  solar_positive = λ h. cc;
}

start_up-run-IsSafe_example :
    IsSafe
      (run
        (ticker ∷ solar_ticker ∷ price_ticker ∷ daily_ticker ∷ cmd_ticker ∷ [])
        (start_up new_machine).1).1
unfolding start_up after_connect after_reset greet restore_trades
start_up-run-IsSafe_example =
    start_up-run-IsSafe (ticker ∷ solar_ticker ∷ price_ticker ∷ daily_ticker ∷ cmd_ticker ∷ [])
      new_machine new_machine-IsNew refl

start-IsLeft_example :
    IsLeft (start (ticker ∷ []) 3 new_machine).0 3 (start (ticker ∷ []) 3 new_machine).1
start-IsLeft_example = start-IsLeft (ticker ∷ []) 3 new_machine

stop_battery_on_shutdown_retries_example :
    Retried 3 charging_machine
      (stop_battery_on_shutdown 3 charging_machine).0
      (stop_battery_on_shutdown 3 charging_machine).1
stop_battery_on_shutdown_retries_example = stop_battery_on_shutdown_retries 3 charging_machine

tick-IsSafe_example : IsSafe (tick charging_machine).1
tick-IsSafe_example = tick-IsSafe charging_machine charging_machine-IsSafe

solar_tick-IsSafe_example : IsSafe (solar_tick resting_machine).1
solar_tick-IsSafe_example = solar_tick-IsSafe resting_machine resting_machine-IsSafe

transition_to_idle-IsTransition_example :
    IsTransition charging_machine
      (transition_to_idle charging_machine).0
      (transition_to_idle charging_machine).1
transition_to_idle-IsTransition_example = transition_to_idle-IsTransition charging_machine

stop_charging-IsStopped_example :
    IsStopped charging_machine
      (charge_trade charging_machine.svc 1 (pos 50))
      (stop_charging (pos 50) charging_machine).1
stop_charging-IsStopped_example = stop_charging-IsStopped (pos 50) charging_machine

stop_discharging-IsStopped_example :
    IsStopped charging_machine
      (discharge_trade charging_machine.svc 1 (pos 50))
      (stop_discharging (pos 50) charging_machine).1
stop_discharging-IsStopped_example = stop_discharging-IsStopped (pos 50) charging_machine

start_charging-IsStarted_example :
    IsStarted charging
      (Command.charge (pos 4000) (pos 300))
      (pos 10)
      (pos 50)
      (start_charging (pos 10) (pos 50) resting_machine).1
start_charging-IsStarted_example = start_charging-IsStarted (pos 10) (pos 50) resting_machine refl

start_discharging-IsStarted_example :
    IsStarted discharging
      (Command.discharge (pos 4000) (pos 300))
      (pos 30)
      (pos 50)
      (start_discharging (pos 30) (pos 50) resting_machine).1
start_discharging-IsStarted_example =
    start_discharging-IsStarted (pos 30) (pos 50) resting_machine refl

abbrev window : Time → Time → TimeWindow numbers
window first last = record { start = first; end = last; price = pos 10 }

-- A plan to charge in the first and to discharge in the second quarter of an hour.
abbrev plan : TradingPlan numbers
plan = record (empty_plan numbers) {
  charge_windows = window 0 (15 * minute) ∷ [];
  discharge_windows = window (15 * minute) (30 * minute) ∷ [];
  is_profitable = true;
}

-- At rest with the plan, at the given time.
abbrev planned : Time → Machine house
planned t = record resting_machine {
  svc = record (resting_machine.svc) { current_plan = some plan; today_prices = price_table };
  world = record (resting_machine.world) { clock = t };
}

tick_charges_example :
    IsPlanned (λ plan. plan.charge_windows) (some plan) 7
    × (0 ≤ 7)
    × (status : BatteryStatus) × IsAnswer (planned 7) status
    × (status.soc <ℤ pos 100)
    × (status.charging_flag ≡ true)
unfolding tick retry_stopping tick_with_status tick_state should_trade get_current_price
    is_in_charge_window is_in_discharge_window is_in_windows tick_idle start_charging charging_begun
    begin_session wait_for_battery_power wait_loop confirms power_threshold ◌*ℤ◌ floor_div min_soc
tick_charges_example = tick_charges (planned 7) refl refl

tick_discharges_example :
    IsPlanned (λ plan. plan.discharge_windows) (some plan) (20 * minute)
    × ¬ IsPlanned (λ plan. plan.charge_windows) (some plan) (20 * minute)
    × (0 ≤ 20 * minute)
    × (status : BatteryStatus) × IsAnswer (planned (20 * minute)) status
    × (min_soc settings <ℤ status.soc)
    × (status.discharg_flag ≡ true)
unfolding tick retry_stopping tick_with_status tick_state should_trade get_current_price
    is_in_charge_window is_in_discharge_window is_in_windows tick_idle start_discharging
    discharging_begun begin_session wait_for_battery_power wait_loop confirms power_threshold ◌*ℤ◌
    floor_div min_soc neg
tick_discharges_example = tick_discharges (planned (20 * minute)) refl refl

le_neg : (a x : ℤ) → leb_ℤ x (neg a) ≡ leb_ℤ a (neg x)
unfolding neg
le_neg (pos a) (pos x) = ground arith
le_neg (pos a) (negsuc x) = ground arith
le_neg (negsuc a) (pos x) = ground arith
le_neg (negsuc a) (negsuc x) = ground arith

equal_refl : (a : ℤ) → equal a a ≡ true
equal_refl a = ground arith

numbers-IsFloatOrder : IsFloatOrder numbers
numbers-IsFloatOrder = record {
  min_le = λ a b x p q. ground arith;
  max_le = λ a b x p q. ground arith;
  max-IsNumber = λ a b p q. equal_refl (max_ℤ a b);
  le_neg = le_neg;
  literal-IsNumber = λ n d. equal_refl (numbers.literal n (suc d));
  half-IsNumber =
      λ n. equal_refl (numbers.float_mul (numbers.float_of_int n) (numbers.literal (pos 1) 2));
}

-- A machine whose battery delivers 4 kW inwards.
abbrev delivering : Machine house
delivering = record charging_machine {
  world = record (charging_machine.world) { battery_power = pos 4_000_000 };
}

wait_for_battery_power_confirmed_example :
    power_of numbers (wait_for_battery_power true (pos 4000) delivering).0
    ≡ first_that numbers (is_enough numbers true (pos 4000)) (readings house 11 delivering.world)
wait_for_battery_power_confirmed_example =
    wait_for_battery_power_confirmed numbers-IsFloatOrder true (pos 4000) delivering

-- Without a plan the charging session has to end.
tick-IsEnded_example :
    IsEnded charging_machine
      (charge_trade charging_machine.svc 1 (pos 50))
      (tick charging_machine).1
tick-IsEnded_example =
    tick-IsEnded (λ w. refl) (record { soc = pos 50; charging_flag = true; discharg_flag = true })
      charging_machine refl refl refl
