-- ===== src/Clients/Esphome/Control/Modes.antt =====
-- What the operations of clients/esphome/client.go leave the battery in, and that these are what the
-- engine's commands ask for.
use text.Mathlib.Text
use marstek_energy_trading.Prelude.{
  ℕ, zero, suc, ◌≡◌, refl, ◌∙◌, ap, sym, Bool, true, false, Option, none, some, List, [], ◌∷◌, ◌++◌,
  String, All, arith, ℤ, pos, neg, ◌<ℤ◌, if◌then◌else◌,
}
use marstek_energy_trading.Platform.{Platform}
use marstek_energy_trading.Service.Types.{Result, ok, failed, succeeded, Command}
use marstek_energy_trading.Service.Safety.{
  Direction, inward, outward, rest, opposite, direction_of_power, direction,
}
use marstek_energy_trading.Clients.Wire.{Action, pure, ◌>>=◌, body_of}
use marstek_energy_trading.Clients.Esphome.Types.{
  Request, get, set_option, set_value, Http, Exchange, Wire, number_charge_power,
  number_discharge_power, select_rs485_control_mode, select_force_mode,
}
use marstek_energy_trading.Clients.Esphome.Requests.{
  exchange, reading, get_control_value, set_select,
}
use marstek_energy_trading.Clients.Esphome.Control.{
  is_option, unconfirmed, poll_on, poll, confirm_loop, confirm, and_then, set_select_confirmed,
  charge, discharge, idle, set_passive_mode, perform,
}
use marstek_energy_trading.Clients.Esphome.Control.Forced.{
  IsForced, charge-IsForced, discharge-IsForced,
}
use marstek_energy_trading.Clients.Esphome.Control.Confirmed.{
  IsPolled, IsConfirmed, and_then-none, set_select-IsConfirmed,
}

-- The mode after a request that writes one or not, and that was accepted or not.
abbrev pub mode_after : Option String → Bool → Option String → Option String
mode_after none accepted earlier = earlier
mode_after (some option) true earlier = some option
mode_after (some option) false earlier = earlier

module _ {N : Platform} where
  -- The option that a request writes to the mode.
  abbrev pub mode_written : Request N → Option String
  mode_written (set_option path option) =
      if Text.◌==◌ path select_force_mode then some option else none
  mode_written (set_value path value) = none
  mode_written (get path) = none

  -- The mode that was last written and accepted.
  abbrev pub mode_of : List (Exchange N) → Option String
  mode_of [] = none
  mode_of (x ∷ log) =
      mode_after (mode_written x.request) (succeeded (body_of x.answer)) (mode_of log)

  mode_of-reads :
      (path : String) (reads log : List (Exchange N))
      → All (λ x. x.request ≡ get path) reads
      → mode_of (reads ++ log) ≡ mode_of log
  mode_of-reads path [] log h = refl
  mode_of-reads path (x ∷ reads) log (e, h) =
      ap (λ r. mode_after (mode_written r) (succeeded (body_of x.answer)) (mode_of (reads ++ log)))
        e
      ∙ mode_of-reads path reads log h

-- The mode that lets energy flow in a direction.
abbrev pub mode_text : Direction → String
mode_text inward = "charge"
mode_text outward = "discharge"
mode_text rest = "stop"

-- The commands that name their direction themselves: the powers of a charge and of a discharge are
-- positive.
abbrev pub IsForward : Command → Type 0
IsForward (Command.charge p t) = pos 0 <ℤ p
IsForward (Command.discharge p t) = pos 0 <ℤ p
IsForward _ = Unit

direction_of_power-inward : (p : ℤ) → pos 0 <ℤ p → direction_of_power p ≡ inward
direction_of_power-inward p h = ground arith

module _ {N : Platform} {H : Http N} where
  open N use {Float, float_of_int}

  mode_of-polled :
      (test : String → Bool) (path : String) (old new : List (Exchange N))
      → IsPolled H test path old new
      → mode_of new ≡ mode_of old
  mode_of-polled test path old new p =
      ap mode_of p.made ∙ mode_of-reads path (p.last ∷ p.earlier) old p.reads

  -- A confirmed write of the mode sets it; one of anything else keeps it.
  mode_of-confirmed :
      (write : Request N) (test : String → Bool) (path : String) (old new : List (Exchange N))
      → IsConfirmed H write test path old new
      → mode_of new ≡ mode_after (mode_written write) true (mode_of old)
  mode_of-confirmed write test path old new c =
      mode_of-polled test path (c.first ∷ old) new c.polled
      ∙ ap (λ r. mode_after (mode_written r) (succeeded (body_of c.first.answer)) (mode_of old))
          c.wrote
      ∙ ap (λ b. mode_after (mode_written write) b (mode_of old)) c.accepted

  mode_of-forced :
      (number : String) (power_w : ℤ) (mode : String) (old new : List (Exchange N))
      → IsForced H number power_w mode old new
      → mode_of new ≡ some mode
  mode_of-forced number power_w mode old new f =
      mode_of-confirmed (set_option select_force_mode mode) (is_option mode) select_force_mode
        f.powered new f.force

  -- An action that writes no mode.
  abbrev pub KeepsMode : {A : Type 0} → Action (Wire H) A → Type 0
  KeepsMode act = (s : Wire H) → mode_of (act s).1.log ≡ mode_of s.log

  poll_on-KeepsMode :
      (test : String → Bool) (next : Option String → Action (Wire H) (Option String))
      → ((e : Option String) → KeepsMode (next e))
      → (e : Option String) (r : Result String) → KeepsMode (poll_on test next e r)
  poll_on-KeepsMode test next h e (failed f) s = h (some f) s
  poll_on-KeepsMode test next h e (ok value) s = ground (arith, h e s)

  poll-KeepsMode :
      (test : String → Bool) (path : String)
      (next : Option String → Action (Wire H) (Option String))
      → ((e : Option String) → KeepsMode (next e))
      → (e : Option String) → KeepsMode (poll test path next e)
  unfolding get_control_value exchange
  poll-KeepsMode test path next h e s =
      let (answer, s₁) = exchange (get path) s in
      poll_on-KeepsMode test next h e (reading H answer) s₁

  unconfirmed-KeepsMode : (e : Option String) → KeepsMode (unconfirmed e)
  unconfirmed-KeepsMode e s = refl

  confirm_loop-KeepsMode :
      (test : String → Bool) (path : String) (polls : ℕ) (e : Option String)
      → KeepsMode (confirm_loop test path polls e)
  unfolding confirm_loop
  confirm_loop-KeepsMode test path zero e =
      poll-KeepsMode test path unconfirmed unconfirmed-KeepsMode e
  confirm_loop-KeepsMode test path (suc polls) e =
      poll-KeepsMode test path (confirm_loop test path polls)
        (confirm_loop-KeepsMode test path polls) e

  pub confirm-KeepsMode : (test : String → Bool) (path : String) → KeepsMode (confirm test path)
  unfolding confirm
  confirm-KeepsMode test path s =
      let (polls, w) = H.polls s.world in
      confirm_loop-KeepsMode test path polls none (record s { world = w })

  pub and_then-KeepsMode :
      (first next : Action (Wire H) (Option String))
      → KeepsMode first
      → KeepsMode next
      → KeepsMode (and_then first next)
  and_then-KeepsMode first next h k s = ground (arith, h s, k (first s).1)

  pub control-KeepsMode :
      (option : String) → KeepsMode (set_select_confirmed select_rs485_control_mode option)
  unfolding set_select_confirmed set_select exchange
  control-KeepsMode option =
      and_then-KeepsMode (set_select select_rs485_control_mode option)
        (confirm (is_option option) select_rs485_control_mode) (λ s. refl)
        (confirm-KeepsMode (is_option option) select_rs485_control_mode)

  idle-mode : (s : Wire H) → (idle s).0 ≡ none → mode_of (idle s).1.log ≡ some "stop"
  unfolding idle
  idle-mode s h =
      let s₁ = (set_select_confirmed {H = H} select_rs485_control_mode "enable" s).1 in
      let stop = set_select_confirmed {H = H} select_force_mode "stop" in
      let cleanup : Action (Wire H) (Option String) =
        set_select_confirmed {H = H} select_rs485_control_mode "disable" >>= λ e. pure none in
      let (a, c, e) = and_then-none stop cleanup s₁ h in
      let s₂ = (stop s₁).1 in
      ap (λ (t : Wire H). mode_of t.log) e
      ∙ control-KeepsMode "disable" s₂
      ∙ mode_of-confirmed (set_option select_force_mode "stop") (is_option "stop") select_force_mode
          s₁.log s₂.log (set_select-IsConfirmed select_force_mode "stop" s₁ a)

  charge-mode :
      (power_w : ℤ) (s : Wire H)
      → (charge power_w s).0 ≡ none
      → mode_of (charge power_w s).1.log ≡ some "charge"
  charge-mode power_w s h =
      mode_of-forced number_charge_power power_w "charge" s.log _ (charge-IsForced power_w s h)

  discharge-mode :
      (power_w : ℤ) (s : Wire H)
      → (discharge power_w s).0 ≡ none
      → mode_of (discharge power_w s).1.log ≡ some "discharge"
  discharge-mode power_w s h =
      mode_of-forced number_discharge_power power_w "discharge" s.log _
        (discharge-IsForced power_w s h)

  -- A command of the engine that succeeds leaves the battery in the mode of the command's direction,
  -- for a charge or a discharge with a positive power, for a refresh with any power and for a stop:
  -- what the battery accepted last of the writes to its mode is charge, discharge or stop where the
  -- command sends energy in, out, or nowhere.
  pub perform-mode :
      (c : Command) (s : Wire H)
      → IsForward c
      → (perform c s).0 ≡ none
      → mode_of (perform c s).1.log ≡ some (mode_text (direction c))
  unfolding perform set_passive_mode
  perform-mode (Command.charge p t) s f h =
      charge-mode p s h ∙ ap (λ d. some (mode_text d)) (sym (direction_of_power-inward p f))
  perform-mode (Command.discharge p t) s f h =
      discharge-mode p s h
      ∙ ap (λ d. some (mode_text (opposite d))) (sym (direction_of_power-inward p f))
  perform-mode (Command.set_passive_mode p t) s f h =
      ground (arith, charge-mode (neg p) s, discharge-mode p s, idle-mode s)
  perform-mode Command.stop s f h = idle-mode s h
