-- ===== src/Service/SolarTick.antt =====
-- `solarTick` of service/service.go, the decision that is taken every second.
use marstek_energy_trading.Prelude.{
  suc, Bool, false, ◌&&◌, ◌||◌, none, some, if◌then◌else◌, ℤ, pos, ltb_ℤ, leb_ℤ, neg, leb, max_ℤ,
  min_ℤ, ◌-ℤ◌, ◌*◌,
}
use marstek_energy_trading.Platform.{Duration, Platform, before, sub_time, second}
use marstek_energy_trading.Service.Types.{
  State, idle, solar_charging, surplus_gone, battery_full, yield_window, ok, failed, Command, Env,
  solar_min_session_duration, solar_min_charge_power_w, solar_start_qualification_count,
  solar_stop_debounce_count,
}
use marstek_energy_trading.Service.Machine.{
  Action, pure, ◌>>=◌, ◌>>◌, skip, gets, modify, ask, now, command,
}
use marstek_energy_trading.Service.Control.{retry_stopping, refresh_passive_mode}
use marstek_energy_trading.Service.Solar.{
  accumulate_solar_energy, start_solar_charging, stop_solar_charging, handle_solar_status_failure,
}
use marstek_energy_trading.Service.Tick.{plan_charges, plan_discharges}

-- The power of a new session: at least the floor, at most the configured power.
unfoldable pub clamp_charge_power : ℤ → ℤ → ℤ
clamp_charge_power power limit = min_ℤ (max_ℤ power solar_min_charge_power_w) limit

-- `diff > 50`, for the difference without its sign.
unfoldable pub is_past_deadband : ℤ → ℤ → Bool
unfolding ◌-ℤ◌ neg
is_past_deadband target power =
    let diff = target -ℤ power in ltb_ℤ (pos 50) (if ltb_ℤ diff (pos 0) then neg diff else diff)

module _ (N : Platform) where
  open N use {Float, literal, float_add, float_sub, float_mul, float_eq}

  -- The smoothed surplus; a zero stands for no reading yet.
  unfoldable pub next_ema : Float → Float → Float
  next_ema ema effective_surplus =
      let alpha = literal (pos 1) 20 in
      if float_eq ema (literal (pos 0) 1)
      then effective_surplus
      else float_add (float_mul alpha effective_surplus)
          (float_mul (float_sub (literal (pos 1) 1) alpha) ema)

module _ {N : Platform} {E : Env N} where
  open N use {
    Float, literal, float_of_int, float_add, float_div, float_neg, float_max, float_lt, truncate,
  }

  -- `s.currentPlan != nil` and the time is in one of its windows. The clock is read only for a plan.
  unfoldable pub is_in_scheduled_window : Action E Bool
  is_in_scheduled_window = do
    plan ← gets λ s. s.current_plan
    elim plan [
      | none ↦ pure false
      | some p ↦ do t ← now; pure (plan_charges (some p) t || plan_discharges (some p) t)
    ]

  abbrev pub reset_surplus_count : Action E (Unit {0})
  reset_surplus_count = modify λ s. record s { solar_surplus_count = 0 }

  -- One more reading of enough surplus, and the start after enough of them.
  unfoldable pub qualify : Float → ℤ → Action E (Unit {0})
  qualify surplus battery_soc = do
    count ← gets λ s. suc s.solar_surplus_count
    limit ← gets λ s. s.cfg.charge_power_w
    modify λ s. record s { solar_surplus_count = count }
    if leb solar_start_qualification_count count
        then start_solar_charging (clamp_charge_power (truncate surplus) limit) battery_soc
        else skip

  unfoldable pub solar_idle : Float → ℤ → Action E (Unit {0})
  solar_idle surplus battery_soc = do
    t ← now
    battery_cooldown ← gets λ s. s.battery_cooldown_until
    if before t battery_cooldown then reset_surplus_count else (do
      u ← now
      solar_cooldown ← gets λ s. s.solar_cooldown_until
      if before u solar_cooldown then skip else (do
        min_surplus ← gets λ s. float_of_int s.cfg.solar_min_surplus_w
        if float_lt surplus min_surplus then reset_surplus_count else (do
          scheduled ← is_in_scheduled_window
          if scheduled || leb_ℤ (pos 100) battery_soc
              then reset_surplus_count
              else qualify surplus battery_soc)))

  -- The end of a solar round: the power follows the smoothed surplus, outside a band of 50 W.
  unfoldable pub adjust_power : ℤ → Action E (Unit {0})
  adjust_power target_power = do
    power ← gets λ s. s.solar_charge_power
    timeout_s ← gets λ s. s.cfg.passive_mode_timeout_s
    if is_past_deadband target_power power
        then (do
          err ← command (Command.charge target_power timeout_s)
          elim err [
            | some e ↦ skip
            | none ↦ do
              t ← now
              modify λ s. record s { solar_charge_power = target_power; last_passive_refresh = t }
          ])
        else refresh_passive_mode (neg power)

  -- The target power, or a stop when the surplus has fallen below the floor in a session that is no
  -- longer young.
  unfoldable pub follow_surplus : Duration → ℤ → Action E (Unit {0})
  follow_surplus session_age battery_soc = do
    t ← now
    refreshed ← gets λ s. s.last_passive_refresh
    target ← gets λ s. truncate s.solar_surplus_ema
    limit ← gets λ s. s.cfg.charge_power_w
    if ltb_ℤ (sub_time t refreshed) (pos (5 * second))
        then skip
        else if ltb_ℤ target solar_min_charge_power_w
            && leb_ℤ (pos solar_min_session_duration) session_age
        then stop_solar_charging battery_soc surplus_gone
        else adjust_power (clamp_charge_power target limit)

  -- The hysteresis: whether the session ends, and the count of low readings.
  unfoldable pub debounce : Duration → Action E Bool
  debounce session_age = do
    ema ← gets λ s. s.solar_surplus_ema
    threshold ← gets λ s. float_div (float_of_int s.cfg.solar_min_surplus_w) (literal (pos 4) 1)
    count ← gets λ s. suc s.solar_stop_count
    if float_lt ema threshold
        then (do
          modify λ s. record s { solar_stop_count = count }
          pure (
              leb solar_stop_debounce_count count
              && leb_ℤ (pos solar_min_session_duration) session_age))
        else (do modify λ s. record s { solar_stop_count = 0 }; pure false)

  unfoldable pub solar_session : Float → Float → ℤ → Action E (Unit {0})
  solar_session surplus measured battery_soc = do
    t ← now
    modify (accumulate_solar_energy t measured)
    modify λ s. record s {
      solar_surplus_ema = next_ema N s.solar_surplus_ema (float_add surplus measured);
    }
    u ← now
    session_age ← gets λ s. sub_time u s.current_trade_start
    if leb_ℤ (pos 100) battery_soc then stop_solar_charging battery_soc battery_full else (do
      scheduled ← is_in_scheduled_window
      if scheduled then stop_solar_charging battery_soc yield_window else (do
        gone ← debounce session_age
        if gone
            then stop_solar_charging battery_soc surplus_gone
            else follow_surplus session_age battery_soc))

  unfoldable pub solar_state : State → Float → Float → ℤ → Action E (Unit {0})
  solar_state idle surplus measured battery_soc = solar_idle surplus battery_soc
  solar_state solar_charging surplus measured battery_soc =
      solar_session surplus measured battery_soc
  solar_state _ surplus measured battery_soc = skip

  unfoldable pub solar_tick : Action E (Unit {0})
  solar_tick = do
    retried ← retry_stopping
    if retried then skip else (do
      reading ← ask E.get_active_power
      elim reading [
        | failed e ↦ skip
        | ok active_power_w ↦ do
          answer ← ask E.get_es_status
          elim answer [
            | failed e ↦ handle_solar_status_failure e
            | ok status ↦ do
              modify λ s. record s { solar_status_failures = 0 }
              state ← gets λ s. s.state
              solar_state state (float_neg active_power_w)
                  (float_max status.battery_power (literal (pos 0) 1)) status.battery_soc
          ]
      ])
