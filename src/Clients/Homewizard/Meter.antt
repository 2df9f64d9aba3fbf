-- ===== src/Clients/Homewizard/Meter.antt =====
-- clients/homewizard/client.go. The server and the decoders are parameters.
use text.Mathlib.Text
use Prim.Native.String.{◌++◌ as ◌<>◌}
use marstek_energy_trading.Prelude.{Bool, true, false, not, Option, String}
use marstek_energy_trading.Platform.{Platform}
use marstek_energy_trading.Service.Types.{Result, failed}
use marstek_energy_trading.Clients.Wire.{Action, Response, body_of, decoded}
use marstek_energy_trading.Clients.Format.{trim_right_slash}

pub record DeviceInfo : Type 0 where
  pub product_name : String
  pub product_type : String
  pub serial : String
  pub firmware : String
  pub api_version : String

pub record Client : Type 0 where
  pub base_url : String
  pub enabled : Bool

unfoldable pub new : String → Client
unfolding trim_right_slash
new base_url =
    let trimmed = trim_right_slash base_url in
    record { base_url = trimmed; enabled = not (Text.◌==◌ trimmed "") }

module _ (N : Platform) where
  open N use {Float}

  -- `exchange` is a GET by its URL.
  pub record Network : Type 1 where
    pub World : Type 0
    pub exchange : String → World → Result Response × World
    pub decode_device_info : String → Option DeviceInfo
    pub decode_data : String → Option Float

module _ {N : Platform} (M : Network N) where
  open N use {Float}
  open M use {World, exchange, decode_device_info, decode_data}

  -- A request of a configured meter.
  unfoldable pub fetch :
      {A : Type 0} → (String → Option A) → String → Client → Action World (Result A)
  unfolding body_of decoded
  fetch decode path c w = elim c.enabled [
    | false ↦ (failed "homewizard P1 meter not configured", w)
    | true ↦
        let (answer, w') = exchange (c.base_url <> path) w in (decoded decode (body_of answer), w')
  ]

  unfoldable pub get_device_info : Client → Action World (Result DeviceInfo)
  unfolding fetch
  get_device_info = fetch decode_device_info "/api"

  unfoldable pub get_active_power_w : Client → Action World (Result Float)
  unfolding fetch
  get_active_power_w = fetch decode_data "/api/v1/data"
