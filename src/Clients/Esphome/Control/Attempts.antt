-- ===== src/Clients/Esphome/Control/Attempts.antt =====
-- What an operation of clients/esphome/client.go may do to the mode of the battery, also where it
-- fails, and that the readings do nothing to it.
use marstek_energy_trading.Prelude.{
  ◌≡◌, refl, ◌⊎◌, inl, inr, ap, true, Bool-cases, Option, some, String, ℤ, neg, arith,
}
use marstek_energy_trading.Platform.{Platform}
use marstek_energy_trading.Service.Types.{succeeded, Command}
use marstek_energy_trading.Service.Safety.{direction, is_forward}
use marstek_energy_trading.Clients.Wire.{Action, body_of}
use marstek_energy_trading.Clients.Esphome.Types.{
  Http, Wire, number_charge_power, number_discharge_power, select_rs485_control_mode,
  select_force_mode, set_option,
}
use marstek_energy_trading.Clients.Esphome.Requests.{
  exchange, set_select, set_number, get_sensor_float, get_text_sensor, connect, discover,
  get_battery_status, get_es_status, get_battery_power,
}
use marstek_energy_trading.Clients.Esphome.Control.{
  is_option, is_number, confirm, and_then, set_select_confirmed, set_number_confirmed, charge,
  discharge, idle, set_passive_mode, perform,
}
use marstek_energy_trading.Clients.Esphome.Control.Modes.{
  mode_of, mode_after, mode_text, KeepsMode, confirm-KeepsMode, and_then-KeepsMode,
  control-KeepsMode,
}

module _ {N : Platform} {H : Http N} where
  open N use {float_of_int, Float}

  -- An action that leaves the mode or sets it to the option.
  abbrev MaySet : {A : Type 0} → String → Action (Wire H) A → Type 0
  MaySet option act =
      (s : Wire H) → (mode_of (act s).1.log ≡ mode_of s.log) ⊎ (mode_of (act s).1.log ≡ some option)

  KeepsMode-MaySet :
      (option : String) (act : Action (Wire H) (Option String)) → KeepsMode act → MaySet option act
  KeepsMode-MaySet option act h s = inl (h s)

  and_then-MaySet :
      (option : String) (first next : Action (Wire H) (Option String))
      → MaySet option first
      → MaySet option next
      → MaySet option (and_then first next)
  and_then-MaySet option first next h k s = ground (arith, h s, k (first s).1)

  set_mode-MaySet : (option : String) → MaySet option (set_select {H = H} select_force_mode option)
  unfolding set_select exchange
  set_mode-MaySet option s =
      elim (Bool-cases
        (succeeded (body_of (H.exchange (set_option select_force_mode option) s.world).0))) [
          | inl e ↦ inr (ap (λ b. mode_after (some option) b (mode_of s.log)) e)
          | inr e ↦ inl (ap (λ b. mode_after (some option) b (mode_of s.log)) e)
        ]

  force-MaySet :
      (option : String) → MaySet option (set_select_confirmed {H = H} select_force_mode option)
  unfolding set_select_confirmed
  force-MaySet option =
      let check = confirm {H = H} (is_option option) select_force_mode in
      and_then-MaySet option (set_select select_force_mode option) check (set_mode-MaySet option)
        (KeepsMode-MaySet option check (confirm-KeepsMode (is_option option) select_force_mode))

  number-KeepsMode :
      (path : String) (value : Float) → KeepsMode (set_number_confirmed {H = H} path value)
  unfolding set_number_confirmed set_number exchange
  number-KeepsMode path value =
      and_then-KeepsMode (set_number path value) (confirm (is_number H value) path) (λ s. refl)
        (confirm-KeepsMode (is_number H value) path)

  forced-MaySet :
      (path option : String) (value : Float)
      → MaySet option (
          and_then (set_select_confirmed {H = H} select_rs485_control_mode "enable") (
            and_then
              (set_number_confirmed path value)
              (set_select_confirmed select_force_mode option)))
  forced-MaySet path option value =
      let enable = set_select_confirmed {H = H} select_rs485_control_mode "enable" in
      let power = set_number_confirmed {H = H} path value in
      let force = set_select_confirmed {H = H} select_force_mode option in
      and_then-MaySet option enable (and_then power force)
        (KeepsMode-MaySet option enable (control-KeepsMode "enable"))
        (and_then-MaySet option power force
          (KeepsMode-MaySet option power (number-KeepsMode path value)) (force-MaySet option))

  charge-MaySet : (power_w : ℤ) → MaySet "charge" (charge {H = H} power_w)
  unfolding charge
  charge-MaySet power_w = forced-MaySet number_charge_power "charge" (float_of_int power_w)

  discharge-MaySet : (power_w : ℤ) → MaySet "discharge" (discharge {H = H} power_w)
  unfolding discharge
  discharge-MaySet power_w = forced-MaySet number_discharge_power "discharge" (float_of_int power_w)

  idle-MaySet : MaySet "stop" (idle {H = H})
  unfolding idle
  idle-MaySet s =
      let s₁ = (set_select_confirmed {H = H} select_rs485_control_mode "enable" s).1 in
      let s₂ = (set_select_confirmed {H = H} select_force_mode "stop" s₁).1 in
      ground (
        arith,
        control-KeepsMode "enable" s,
        force-MaySet "stop" s₁,
        control-KeepsMode "disable" s₂,
      )

  pub perform-MaySet :
      (c : Command) → is_forward c ≡ true → MaySet (mode_text (direction c)) (perform {H = H} c)
  unfolding perform set_passive_mode
  perform-MaySet (Command.charge p t) f s = ground (arith, charge-MaySet p s)
  perform-MaySet (Command.discharge p t) f s = ground (arith, discharge-MaySet p s)
  perform-MaySet (Command.set_passive_mode p t) f s =
      ground (arith, charge-MaySet (neg p) s, discharge-MaySet p s, idle-MaySet s)
  perform-MaySet Command.stop f s = idle-MaySet s

  get_sensor_float-KeepsMode : (path : String) → KeepsMode (get_sensor_float {H = H} path)
  unfolding get_sensor_float exchange
  get_sensor_float-KeepsMode path s = refl

  get_text_sensor-KeepsMode : (path : String) → KeepsMode (get_text_sensor {H = H} path)
  unfolding get_text_sensor exchange
  get_text_sensor-KeepsMode path s = refl

  pub connect-KeepsMode : KeepsMode (connect {H = H})
  unfolding connect get_text_sensor exchange
  connect-KeepsMode s = refl

  pub discover-KeepsMode : KeepsMode (discover {H = H})
  unfolding discover get_text_sensor exchange
  discover-KeepsMode s = ground arith

  pub get_battery_status-KeepsMode : (min_soc : ℤ) → KeepsMode (get_battery_status {H = H} min_soc)
  unfolding get_battery_status get_sensor_float exchange
  get_battery_status-KeepsMode min_soc s = ground arith

  pub get_es_status-KeepsMode : KeepsMode (get_es_status {H = H})
  unfolding get_es_status get_sensor_float exchange
  get_es_status-KeepsMode s = ground arith

  pub get_battery_power-KeepsMode : KeepsMode (get_battery_power {H = H})
  unfolding get_battery_power get_sensor_float exchange
  get_battery_power-KeepsMode s = refl
