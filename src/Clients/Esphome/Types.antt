-- ===== src/Clients/Esphome/Types.antt =====
-- The requests of clients/esphome/client.go, the device that answers them, and the client.
use marstek_energy_trading.Prelude.{ℕ, Bool, Option, List, String, ℤ, pos, leb_ℤ, if◌then◌else◌}
use marstek_energy_trading.Platform.{Platform}
use marstek_energy_trading.Service.Types.{Result}
use marstek_energy_trading.Clients.Wire.{Response}

abbrev pub sensor_soc : String
sensor_soc = "/sensor/Battery%20State%20Of%20Charge"

abbrev pub sensor_temperature : String
sensor_temperature = "/sensor/Internal%20Temperature"

abbrev pub sensor_remaining_cap : String
sensor_remaining_cap = "/sensor/Battery%20Remaining%20Capacity"

abbrev pub sensor_total_energy : String
sensor_total_energy = "/sensor/Battery%20Total%20Energy"

abbrev pub sensor_battery_power : String
sensor_battery_power = "/sensor/Battery%20Power"

abbrev pub text_sensor_device_name : String
text_sensor_device_name = "/text_sensor/Device%20Name"

abbrev pub text_sensor_esp_ip : String
text_sensor_esp_ip = "/text_sensor/Esp%20ip"

abbrev pub number_charge_power : String
number_charge_power = "/number/Forcible%20Charge%20Power"

abbrev pub number_discharge_power : String
number_discharge_power = "/number/Forcible%20Discharge%20Power"

abbrev pub select_rs485_control_mode : String
select_rs485_control_mode = "/select/RS485%20Control%20Mode"

abbrev pub select_force_mode : String
select_force_mode = "/select/Forcible%20Charge%E2%81%84Discharge"

-- `marstek.DeviceInfo`, the fields that the client sets.
pub record DeviceInfo : Type 0 where
  pub device : String
  pub ip : String

module _ (N : Platform) where
  open N use {Float}

  -- A request by its path: a GET, or a POST of `…/set?option=` or `…/set?value=`.
  pub data Request : Type 0 where
    get : String → Request
    set_option : String → String → Request
    set_value : String → Float → Request

  -- The device and the decoders: `exchange` is one request, `context_err` the error of the caller's
  -- context, and `polls` how often the confirmation interval ends before the confirmation deadline.
  -- `decode_control` gives the `state` and the raw `value`, which is empty where it is missing.
  pub record Http : Type 1 where
    pub World : Type 0
    pub exchange : Request → World → Result Response × World
    pub context_err : World → Option String × World
    pub polls : World → ℕ × World
    pub decode_sensor : String → Option Float
    pub decode_text_sensor : String → Option (String × String)
    pub decode_control : String → Option (String × String)
    pub unquote : String → Option String
    pub trim_space : String → String
    pub parse_float : String → Option Float

  pub record Exchange : Type 0 where
    pub request : Request
    pub answer : Result Response

  -- `marstek.BatteryStatus`, the fields that the client sets.
  pub record FullBatteryStatus : Type 0 where
    pub soc : ℤ
    pub charging_flag : Bool
    pub discharg_flag : Bool
    pub temperature : Float
    pub capacity : Float
    pub rated_capacity : Float

-- `New`: the minimum of the state of charge falls back to 11.
unfoldable pub new_min_soc : ℤ → ℤ
new_min_soc min_soc = if leb_ℤ min_soc (pos 0) then pos 11 else min_soc

module _ {N : Platform} (H : Http N) where
  -- The device's world, and every exchange with it, the latest first; the code reads no exchange
  -- again.
  pub record Wire : Type 0 where
    pub log : List (Exchange N)
    pub world : Http.World H
