-- ===== src/Clients/Esphome/Requests.antt =====
-- The single requests of clients/esphome/client.go, and the readings made from them.
use text.Mathlib.Text
use marstek_energy_trading.Prelude.{
  not, Option, none, some, ◌∷◌, String, ℤ, pos, ltb_ℤ, if◌then◌else◌,
}
use marstek_energy_trading.Platform.{Platform}
use marstek_energy_trading.Service.Types.{Result, ok, failed, EsStatus}
use marstek_energy_trading.Clients.Wire.{Action, pure, ◌>>=◌, Response, body_of, decoded, error_of}
use marstek_energy_trading.Clients.Esphome.Types.{
  Request, get, set_option, set_value, Http, DeviceInfo, FullBatteryStatus, Wire, sensor_soc,
  sensor_temperature, sensor_remaining_cap, sensor_total_energy, sensor_battery_power,
  text_sensor_device_name, text_sensor_esp_ip,
}

-- The value may stand in either field.
abbrev pub text_of : Result (String × String) → Result String
text_of (failed e) = failed e
text_of (ok (state, value)) = ok (if not (Text.◌==◌ value "") then value else state)

module _ (N : Platform) where
  open N use {Float, literal}

  -- A reading that may be missing.
  abbrev pub or_zero : Result Float → Float
  or_zero (ok value) = value
  or_zero (failed e) = literal (pos 0) 1

module _ {N : Platform} (H : Http N) where
  -- A string value, any other value as it is written, or the state if there is no value.
  unfoldable pub control_value : String × String → String
  control_value (state, raw) =
      if Text.◌==◌ raw ""
      then state
      else elim (H.unquote raw) [ some value ↦ value | none ↦ H.trim_space raw ]

  abbrev pub control_of : Result (String × String) → Result String
  control_of (failed e) = failed e
  control_of (ok entity) = ok (control_value entity)

  -- What an answer says about a control.
  unfoldable pub reading : Result Response → Result String
  unfolding body_of decoded control_value
  reading answer = control_of (decoded H.decode_control (body_of answer))

module _ {N : Platform} {H : Http N} where
  open N use {Float, literal, float_mul, truncate}

  unfoldable pub exchange : Request N → Action (Wire H) (Result Response)
  exchange request s =
      let (answer, w) = H.exchange request s.world in
      (answer, record { log = record { request = request; answer = answer } ∷ s.log; world = w })

  abbrev pub ask : {A : Type 0} → (Http.World H → A × Http.World H) → Action (Wire H) A
  ask f s = let (a, w) = f s.world in (a, record s { world = w })

  unfoldable pub get_sensor_float : String → Action (Wire H) (Result Float)
  unfolding exchange body_of decoded
  get_sensor_float path = do
    answer ← exchange (get path)
    pure (decoded H.decode_sensor (body_of answer))

  unfoldable pub get_text_sensor : String → Action (Wire H) (Result String)
  unfolding exchange body_of decoded
  get_text_sensor path = do
    answer ← exchange (get path)
    pure (text_of (decoded H.decode_text_sensor (body_of answer)))

  unfoldable pub set_number : String → Float → Action (Wire H) (Option String)
  unfolding exchange body_of
  set_number path value = do
    answer ← exchange (set_value path value)
    pure (error_of (body_of answer))

  unfoldable pub set_select : String → String → Action (Wire H) (Option String)
  unfolding exchange body_of
  set_select path option = do
    answer ← exchange (set_option path option)
    pure (error_of (body_of answer))

  unfoldable pub get_control_value : String → Action (Wire H) (Result String)
  unfolding exchange reading
  get_control_value path = do answer ← exchange (get path); pure (reading H answer)

  unfoldable pub connect : Action (Wire H) (Option String)
  unfolding get_text_sensor
  connect = do name ← get_text_sensor text_sensor_device_name; pure (error_of name)

  -- The address is optional.
  unfoldable pub discover : Action (Wire H) (Result DeviceInfo)
  unfolding get_text_sensor
  discover = do
    name ← get_text_sensor text_sensor_device_name
    elim name [
      | failed e ↦ pure (failed e)
      | ok device ↦ do
        ip ← get_text_sensor text_sensor_esp_ip
        pure (ok (record { device = device; ip = elim ip [ ok a ↦ a | failed e ↦ "" ] }))
    ]

  unfoldable pub get_battery_status : ℤ → Action (Wire H) (Result (FullBatteryStatus N))
  unfolding get_sensor_float
  get_battery_status min_soc = do
    reading_soc ← get_sensor_float sensor_soc
    elim reading_soc [
      | failed e ↦ pure (failed e)
      | ok value ↦ do
        temperature ← get_sensor_float sensor_temperature
        capacity ← get_sensor_float sensor_remaining_cap
        rated_capacity ← get_sensor_float sensor_total_energy
        cancelled ← ask H.context_err
        elim cancelled [
          | some e ↦ pure (failed e)
          | none ↦
              let soc = truncate value in
              pure (
                ok (record {
                  soc = soc;
                  charging_flag = ltb_ℤ soc (pos 100);
                  discharg_flag = ltb_ℤ min_soc soc;
                  temperature = or_zero N temperature;
                  capacity = float_mul (or_zero N capacity) (literal (pos 1000) 1);
                  rated_capacity = float_mul (or_zero N rated_capacity) (literal (pos 1000) 1);
                }))
        ]
    ]

  unfoldable pub get_es_status : Action (Wire H) (Result (EsStatus N))
  unfolding get_sensor_float
  get_es_status = do
    reading_soc ← get_sensor_float sensor_soc
    elim reading_soc [
      | failed e ↦ pure (failed e)
      | ok value ↦ do
        power ← get_sensor_float sensor_battery_power
        elim power [
          | failed e ↦ pure (failed e)
          | ok p ↦ pure (ok (record { battery_soc = truncate value; battery_power = p }))
        ]
    ]

  unfoldable pub get_battery_power : Action (Wire H) (Result Float)
  unfolding get_sensor_float
  get_battery_power = get_sensor_float sensor_battery_power
