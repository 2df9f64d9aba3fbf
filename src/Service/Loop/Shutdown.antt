-- ===== src/Service/Loop/Shutdown.antt =====
-- How the engine leaves the battery when it stops.
use marstek_energy_trading.Prelude.{
  ℕ, zero, suc, ◌≡◌, ◌≤◌, refl, Bool, true, false, Option, none, some, List, ◌∷◌, String, arith,
  Option-cases, inl, inr,
}
use marstek_energy_trading.Platform.{Platform}
use marstek_energy_trading.Service.Types.{Command, Env}
use marstek_energy_trading.Service.Machine.{Machine, is_ok, command}
use marstek_energy_trading.Service.Control.{or_retry, stop_battery_on_shutdown}
use marstek_energy_trading.Service.Safety.{is_settled}
use marstek_energy_trading.Service.Loop.{
  Refusal, after_start_up, Event, Exit, exit_of, start_up, run, shut_down, start,
}

-- `n` stops in a row that the battery refused, after `commands`.
abbrev pub refused_stops : ℕ → List (Command × Bool) → List (Command × Bool)
refused_stops zero commands = commands
refused_stops (suc n) commands = (Command.stop, false) ∷ refused_stops n commands

refused_stops-snoc :
    (n : ℕ) (commands : List (Command × Bool))
    → refused_stops n ((Command.stop, false) ∷ commands) ≡ refused_stops (suc n) commands
refused_stops-snoc zero commands = refl
refused_stops-snoc (suc n) commands = λ i. (Command.stop, false) ∷ refused_stops-snoc n commands i

module _ {N : Platform} {E : Env N} where
  -- What the retries of the shutdown send: refused stops, at most one for each firing of the timer,
  -- and then an accepted one; or one more refused stop than firings.
  abbrev pub Retried : ℕ → Machine E → Option String → Machine E → Type 0
  Retried ticks m none m' =
      (n : ℕ) × (n ≤ ticks) × (m'.commands ≡ (Command.stop, true) ∷ refused_stops n m.commands)
  Retried ticks m (some e) m' = m'.commands ≡ refused_stops (suc ticks) m.commands

  Retried-later :
      (ticks : ℕ) (m m₁ m' : Machine E) (r : Option String)
      → m₁.commands ≡ (Command.stop, false) ∷ m.commands
      → Retried ticks m₁ r m'
      → Retried (suc ticks) m r m'
  Retried-later ticks m m₁ m' none e (n, le, c) =
      (suc n, omega arith, ground (arith, refused_stops-snoc n m.commands))
  Retried-later ticks m m₁ m' (some f) e c = ground (arith, refused_stops-snoc ticks m.commands)

  or_retry-Retried :
      (ticks : ℕ) (err : Option String) (m m₁ : Machine E)
      → m₁.commands ≡ (Command.stop, is_ok err) ∷ m.commands
      → (let (r, m') = stop_battery_on_shutdown ticks m₁ in Retried ticks m₁ r m')
      → let (r, m') = or_retry (stop_battery_on_shutdown ticks) err m₁ in Retried (suc ticks) m r m'
  or_retry-Retried ticks none m m₁ e h = (0, omega arith, e)
  or_retry-Retried ticks (some f) m m₁ e h =
      let (r, m') = stop_battery_on_shutdown ticks m₁ in Retried-later ticks m m₁ m' r e h

  -- The stop of the shutdown, from any commands: if it succeeds, it has sent refused stops, no more than
  -- the retry timer fired, and then a stop that the battery accepted; if it fails, it has sent one
  -- refused stop more than the timer fired.
  pub stop_battery_on_shutdown_retries :
      (ticks : ℕ) (m : Machine E)
      → let (err, m') = stop_battery_on_shutdown ticks m in Retried ticks m err m'
  unfolding stop_battery_on_shutdown
  stop_battery_on_shutdown_retries zero m = elim (Option-cases (E.command Command.stop m.world).0) [
    | inl e ↦ rw e (0, omega arith, refl)
    | inr (f, e) ↦ rw e refl
  ]
  stop_battery_on_shutdown_retries (suc ticks) m =
      or_retry-Retried ticks (E.command Command.stop m.world).0 m (command Command.stop m).1 refl
        (stop_battery_on_shutdown_retries ticks (command Command.stop m).1)

  -- What the end of the engine says about the battery.
  abbrev pub IsLeft : Exit → ℕ → Machine E → Type 0
  IsLeft Exit.cancelled ticks m = is_settled m.commands ≡ true
  IsLeft (Exit.shutdown_failed e) ticks m =
      (commands : List (Command × Bool)) × (m.commands ≡ refused_stops (suc ticks) commands)
  IsLeft (Exit.not_started r) ticks m = Unit

  Retried-IsLeft :
      (ticks : ℕ) (m m' : Machine E) (err : Option String)
      → Retried ticks m err m'
      → IsLeft (exit_of err) ticks m'
  unfolding exit_of
  Retried-IsLeft ticks m m' none (n, le, c) = ground arith
  Retried-IsLeft ticks m m' (some e) c = (m.commands, c)

  shut_down-IsLeft :
      (ticks : ℕ) (m : Machine E) → let (exit, m') = shut_down ticks m in IsLeft exit ticks m'
  unfolding shut_down exit_of
  shut_down-IsLeft ticks m =
      let (err, m') = stop_battery_on_shutdown ticks m in
      Retried-IsLeft ticks m m' err (stop_battery_on_shutdown_retries ticks m)

  after_start_up-IsLeft :
      (events : List Event) (ticks : ℕ) (refused : Option Refusal) (m : Machine E)
      → let (exit, m') = after_start_up events ticks refused m in IsLeft exit ticks m'
  unfolding after_start_up
  after_start_up-IsLeft events ticks (some refusal) m = tt
  after_start_up-IsLeft events ticks none m = shut_down-IsLeft ticks (run events m).1

  -- However `Start` ends: if it returns the end of its context, the last command to the battery was a
  -- stop, and the battery accepted it; if it returns that the shutdown failed, the last commands were
  -- one stop more than the retry timer fired, all refused.
  pub start-IsLeft :
      (events : List Event) (ticks : ℕ) (m : Machine E)
      → let (exit, m') = start events ticks m in IsLeft exit ticks m'
  unfolding start
  start-IsLeft events ticks m =
      let (refused, m₁) = start_up m in after_start_up-IsLeft events ticks refused m₁
