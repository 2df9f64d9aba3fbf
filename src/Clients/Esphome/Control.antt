-- ===== src/Clients/Esphome/Control.antt =====
-- The confirmed writes of clients/esphome/client.go, and the operations made from them.
pub mod Confirmed
pub mod Forced
pub mod Modes
pub mod Attempts
use text.Mathlib.Text
use marstek_energy_trading.Prelude.{
  ℕ, zero, suc, Bool, true, false, Option, none, some, String, ℤ, pos, neg, ltb_ℤ, if◌then◌else◌,
}
use marstek_energy_trading.Platform.{Platform}
use marstek_energy_trading.Service.Types.{Result, ok, failed, Command}
use marstek_energy_trading.Clients.Wire.{Action, pure, ◌>>=◌, ◌>>◌}
use marstek_energy_trading.Clients.Esphome.Types.{
  Http, Wire, number_charge_power, number_discharge_power, select_rs485_control_mode,
  select_force_mode,
}
use marstek_energy_trading.Clients.Esphome.Requests.{ask, get_control_value, set_number, set_select}

-- The test of `waitForControlValue`.
unfoldable pub is_option : String → String → Bool
is_option expected actual = Text.◌==◌ actual expected

module _ {N : Platform} (H : Http N) where
  open N use {Float, literal, float_sub, float_max, float_neg, float_le}

  -- `math.Abs(actual-value) <= 0.5`
  abbrev pub is_near : Float → Float → Bool
  is_near value actual =
      let d = float_sub actual value in float_le (float_max d (float_neg d)) (literal (pos 1) 2)

  -- The test of `setNumberConfirmed`.
  unfoldable pub is_number : Float → String → Bool
  is_number value actual = elim (H.parse_float actual) [
    | none ↦ false
    | some number ↦ is_near value number
  ]

module _ {N : Platform} {H : Http N} where
  open N use {Float, float_of_int}

  -- The end of the wait: the error of the caller's context, the last error, or the value that stayed.
  abbrev pub unconfirmed : Option String → Action (Wire H) (Option String)
  unconfirmed last_err = do
    cancelled ← ask H.context_err
    pure (elim cancelled [
      | some e ↦ some e
      | none ↦ elim last_err [ some e ↦ some e | none ↦ some "still another value" ]
    ])

  -- What follows a reading of the control.
  abbrev pub poll_on :
      (String → Bool)
      → (Option String → Action (Wire H) (Option String))
      → Option String
      → Result String
      → Action (Wire H) (Option String)
  poll_on test next last_err (failed e) = next (some e)
  poll_on test next last_err (ok value) = if test value then pure none else next last_err

  abbrev pub poll :
      (String → Bool)
      → String
      → (Option String → Action (Wire H) (Option String))
      → Option String
      → Action (Wire H) (Option String)
  poll test path next last_err = do
    actual ← get_control_value path
    poll_on test next last_err actual

  -- The loop that `setNumberConfirmed` and `waitForControlValue` share, with `polls` more rounds
  -- before the deadline.
  unfoldable pub confirm_loop :
      (String → Bool) → String → ℕ → Option String → Action (Wire H) (Option String)
  confirm_loop test path zero last_err = poll test path unconfirmed last_err
  confirm_loop test path (suc polls) last_err =
      poll test path (λ e. confirm_loop test path polls e) last_err

  unfoldable pub confirm : (String → Bool) → String → Action (Wire H) (Option String)
  confirm test path = do polls ← ask H.polls; confirm_loop test path polls none

  -- An action that is tried only after an action without an error.
  abbrev pub and_then :
      Action (Wire H) (Option String)
      → Action (Wire H) (Option String)
      → Action (Wire H) (Option String)
  and_then first next = do err ← first; elim err [ some e ↦ pure (some e) | none ↦ next ]

  unfoldable pub set_number_confirmed : String → Float → Action (Wire H) (Option String)
  set_number_confirmed path value =
      and_then (set_number path value) (confirm (is_number H value) path)

  unfoldable pub set_select_confirmed : String → String → Action (Wire H) (Option String)
  set_select_confirmed path option =
      and_then (set_select path option) (confirm (is_option option) path)

  unfoldable pub charge : ℤ → Action (Wire H) (Option String)
  charge power_w = and_then (set_select_confirmed select_rs485_control_mode "enable") (
      and_then (set_number_confirmed number_charge_power (float_of_int power_w))
        (set_select_confirmed select_force_mode "charge"))

  unfoldable pub discharge : ℤ → Action (Wire H) (Option String)
  discharge power_w = and_then (set_select_confirmed select_rs485_control_mode "enable") (
      and_then (set_number_confirmed number_discharge_power (float_of_int power_w))
        (set_select_confirmed select_force_mode "discharge"))

  -- Once the stop is confirmed, an error of the cleanup is only logged.
  unfoldable pub idle : Action (Wire H) (Option String)
  idle = do
    enable_err ← set_select_confirmed select_rs485_control_mode "enable"
    and_then (set_select_confirmed select_force_mode "stop")
        (do disable_err ← set_select_confirmed select_rs485_control_mode "disable"; pure none)

  unfoldable pub set_passive_mode : ℤ → Action (Wire H) (Option String)
  unfolding charge discharge idle
  set_passive_mode power =
      if ltb_ℤ power (pos 0)
      then charge (neg power)
      else if ltb_ℤ (pos 0) power
      then discharge power
      else idle

  -- The commands of the engine. ESPHome has no timeout of its own, so that of a command is not used.
  unfoldable pub perform : Command → Action (Wire H) (Option String)
  perform (Command.charge power_w timeout_s) = charge power_w
  perform (Command.discharge power_w timeout_s) = discharge power_w
  perform (Command.set_passive_mode power_w timeout_s) = set_passive_mode power_w
  perform Command.stop = idle
