-- ===== src/Tests/Battery.antt =====
-- Witnesses for the ESPHome client, over a device that keeps what is written to it.
use text.Mathlib.Text
use marstek_energy_trading.Prelude.{
  ◌≡◌, refl, ◌*ℤ◌, ◌-ℤ◌, neg, floor_div, Option, none, some, List, [], ◌∷◌, String, ℤ, pos,
  if◌then◌else◌, arith,
}
use marstek_energy_trading.Service.Types.{Result, ok, Command}
use marstek_energy_trading.Clients.Format.{decimal}
use marstek_energy_trading.Clients.Wire.{Response}
use marstek_energy_trading.Clients.Esphome.Types.{
  Request, get, set_option, set_value, Http, Wire, number_charge_power,
}
use marstek_energy_trading.Clients.Esphome.Control.{
  charge, perform, set_select_confirmed, confirm, confirm_loop, is_option, set_number_confirmed,
  is_number,
}
use marstek_energy_trading.Clients.Esphome.Requests.{set_select, get_control_value, set_number}
use marstek_energy_trading.Clients.Esphome.Control.Forced.{IsForced, charge-IsForced}
use marstek_energy_trading.Clients.Esphome.Control.Modes.{mode_of, perform-mode}
use marstek_energy_trading.Tests.Numbers.{numbers}

-- The controls by their paths, and what stands in them.
abbrev pub Controls : Type 0
Controls = List (String × String)

abbrev value_at : String → Controls → String
value_at path [] = ""
value_at path ((p, value) ∷ w) = if Text.◌==◌ p path then value else value_at path w

abbrev answer : Request numbers → Controls → Result Response × Controls
answer (get path) w = (ok (record { status = 200; body = value_at path w }), w)
answer (set_option path option) w = (ok (record { status = 200; body = "" }), (path, option) ∷ w)
answer (set_value path value) w =
    (ok (record { status = 200; body = "" }), (path, decimal value) ∷ w)

-- The power of the tests is the only number that is read.
abbrev number_of : String → Option ℤ
number_of text = if Text.◌==◌ text "2500000" then some (pos 2_500_000) else none

abbrev pub device : Http numbers
device = record {
  World = Controls;
  exchange = answer;
  context_err = λ w. (none, w);
  polls = λ w. (3, w);
  decode_sensor = number_of;
  decode_text_sensor = λ body. some (body, "");
  decode_control = λ body. some (body, "");
  unquote = λ raw. none;
  trim_space = λ raw. raw;
  parse_float = number_of;
}

abbrev pub wire : Wire device
wire = record { log = []; world = [] }

charged : (charge {H = device} (pos 2500) wire).0 ≡ none
unfolding charge set_select_confirmed set_select confirm confirm_loop get_control_value is_option
    set_number_confirmed set_number is_number decimal ◌*ℤ◌ ◌-ℤ◌ neg floor_div
charged = refl

charge-IsForced_example :
    IsForced device number_charge_power
      (pos 2500)
      "charge"
      []
      (charge {H = device} (pos 2500) wire).1.log
charge-IsForced_example = charge-IsForced (pos 2500) wire charged

abbrev command : Command
command = Command.charge (pos 2500) (pos 300)

performed : (perform {H = device} command wire).0 ≡ none
unfolding perform
performed = charged

perform-mode_example : mode_of (perform {H = device} command wire).1.log ≡ some "charge"
perform-mode_example = perform-mode command wire (omega arith) performed
