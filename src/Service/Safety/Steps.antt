-- ===== src/Service/Safety/Steps.antt =====
-- The shared steps of the handlers and what they leave alone.
use marstek_energy_trading.Prelude.{
  ℕ, zero, suc, Bool, true, false, Option, none, some, ◌∷◌, ◌≡◌, ◌≢◌, inl, inr, ℤ, pos, arith,
  String,
}
use marstek_energy_trading.Platform.{Platform}
use marstek_energy_trading.Service.Types.{
  idle, Command, Env, Result, Result-cases, succeeded, battery_start_verification_timeout,
  battery_start_verification_interval,
}
use marstek_energy_trading.Service.Machine.{Machine, Action, command, is_ok}
use marstek_energy_trading.Service.Control.{
  wait_loop, wait_for_battery_power, idle_battery, notify_error, transition_to_idle, retry_stopping,
  refresh_passive_mode, poll, at_deadline, or_default, power_threshold,
}
use marstek_energy_trading.Service.Grid.{begin_session}
use marstek_energy_trading.Service.Safety.{
  IsSafe, agrees, flow, are_forward, is_forward, is_settled, direction,
}

module _ {N : Platform} {E : Env N} where
  open N use {Float}

  -- Only the world has changed.
  pub record IsUntouched (m m' : Machine E) : Type 0 where
    pub svc : m'.svc ≡ m.svc
    pub trades : m'.trades ≡ m.trades
    pub commands : m'.commands ≡ m.commands

  pub IsUntouched-IsSafe : {m m' : Machine E} → IsUntouched m m' → IsSafe m → IsSafe m'
  IsUntouched-IsSafe u h = ground (arith, u.svc, u.commands)

  -- The machine after a question to the world.
  abbrev asked : {A : Type 0} → (Env.World E → A × Env.World E) → Machine E → Machine E
  asked f m = record m { world = (f m.world).1 }

  poll-IsUntouched :
      (inward : Bool) (threshold : Float) (next : Option String → Action E (Result Float))
      → ((e : Option String) (m : Machine E) → IsUntouched m (next e m).1)
      → (e : Option String) (m : Machine E) → IsUntouched m (poll inward threshold next e m).1
  poll-IsUntouched inward threshold next h e m =
      elim (Result-cases (E.get_battery_power m.world).0) [
        | inl (p, r) ↦ ground (arith, h e (asked E.get_battery_power m))
        | inr (f, r) ↦ ground (arith, h (some f) (asked E.get_battery_power m))
      ]

  wait_loop-IsUntouched :
      (inward : Bool) (threshold : Float) (ticks : ℕ) (e : Option String) (m : Machine E)
      → IsUntouched m (wait_loop inward threshold ticks e m).1
  unfolding wait_loop
  wait_loop-IsUntouched inward threshold zero =
      poll-IsUntouched inward threshold at_deadline (λ e m. ground arith)
  wait_loop-IsUntouched inward threshold (suc ticks) =
      poll-IsUntouched inward threshold (wait_loop inward threshold ticks)
        (wait_loop-IsUntouched inward threshold ticks)

  pub wait_for_battery_power-IsUntouched :
      (inward : Bool) (power_w : ℤ) (m : Machine E)
      → IsUntouched m (wait_for_battery_power inward power_w m).1
  unfolding wait_for_battery_power
  wait_for_battery_power-IsUntouched inward power_w m =
      let s = m.svc in
      let timeout = or_default s.battery_verification_timeout battery_start_verification_timeout in
      let interval =
        or_default s.battery_verification_interval battery_start_verification_interval in
      let ticks = E.ticks_before_deadline timeout interval in
      let u =
        wait_loop-IsUntouched inward (power_threshold N power_w) (ticks m.world).0 none
          (asked ticks m) in
      record { svc = u.svc; trades = u.trades; commands = u.commands }

  -- A stop that reports no error was accepted, and nothing came after it. One that reports an error
  -- leaves the last accepted command as it was.
  pub record IsStop (m m' : Machine E) (err : Option String) : Type 0 where
    pub svc : m'.svc ≡ m.svc
    pub trades : m'.trades ≡ m.trades
    pub accepted_stop : is_ok err ≡ true → is_settled m'.commands ≡ true
    pub refused : is_ok err ≡ false → flow m'.commands ≡ flow m.commands
    pub forward : are_forward m.commands ≡ true → are_forward m'.commands ≡ true

  pub idle_battery-IsStop : (m : Machine E) → IsStop m (idle_battery m).1 (idle_battery m).0
  unfolding idle_battery
  idle_battery-IsStop m = ground arith

  -- What `begin_session` has done: nothing but commands; after a success the battery has accepted
  -- the command, after a failure with an accepted stop it has accepted that.
  pub record IsBegun (c : Command) (m m' : Machine E) (result : Result Float)
      (idle_err : Option String) : Type 0 where
    pub svc : m'.svc ≡ m.svc
    pub trades : m'.trades ≡ m.trades
    pub started : succeeded result ≡ true → flow m'.commands ≡ direction c
    pub forward :
        is_forward c ≡ true → are_forward m.commands ≡ true → are_forward m'.commands ≡ true
    pub stopped : succeeded result ≡ false → is_ok idle_err ≡ true → is_settled m'.commands ≡ true

  pub begin_session-IsBegun :
      (c : Command) (inward : Bool) (power_w : ℤ) (m : Machine E)
      → let ((result, idle_err), m') = begin_session c inward power_w m in
        IsBegun c m m' result idle_err
  unfolding begin_session
  begin_session-IsBegun c inward power_w m =
      let m₁ = (command c m).1 in
      let m₂ = (wait_for_battery_power inward power_w m₁).1 in
      ground (
        arith,
        wait_for_battery_power-IsUntouched inward power_w m₁,
        idle_battery-IsStop m₁,
        idle_battery-IsStop m₂,
      )

  pub notify_error-IsSafe :
      (p e : String) (m : Machine E) → IsSafe m → IsSafe (notify_error p e m).1
  unfolding notify_error
  notify_error-IsSafe p e m h = ground arith

  -- An error notification writes only its own time stamp.
  pub notify_error-only :
      (p e : String) (m : Machine E)
      → let m' = (notify_error p e m).1 in
        (record (m'.svc) { last_error_notify = m.svc.last_error_notify } ≡ m.svc)
        × (m'.trades ≡ m.trades)
        × (m'.commands ≡ m.commands)
  unfolding notify_error
  notify_error-only p e m = ground arith

  pub transition_to_idle-IsSafe :
      (m : Machine E) → IsSafe m → m.svc.state ≢ idle → IsSafe (transition_to_idle m).1
  unfolding transition_to_idle idle_battery notify_error
  transition_to_idle-IsSafe m h ne = ground arith

  pub transition_to_idle-idle :
      (m : Machine E)
      → (transition_to_idle m).0 ≡ true
      → ((transition_to_idle m).1.svc.state ≡ idle)
        × (is_settled (transition_to_idle m).1.commands ≡ true)
  unfolding transition_to_idle idle_battery notify_error
  transition_to_idle-idle m h = ground arith

  pub retry_stopping-IsSafe : (m : Machine E) → IsSafe m → IsSafe (retry_stopping m).1
  unfolding retry_stopping
  retry_stopping-IsSafe m h = grind (arith, transition_to_idle-IsSafe)

  -- A refresh sends energy the way that the last accepted command did, or changes no command that
  -- counts.
  pub refresh_passive_mode-IsSafe :
      (power : ℤ) (m : Machine E)
      → IsSafe m
      → agrees m.svc.state ((Command.set_passive_mode power (pos 0), true) ∷ m.commands) ≡ true
      → IsSafe (refresh_passive_mode power m).1
  unfolding refresh_passive_mode
  refresh_passive_mode-IsSafe power m h a = ground arith
