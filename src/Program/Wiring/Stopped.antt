-- ===== src/Program/Wiring/Stopped.antt =====
-- How `Start` of service/service.go leaves the battery that clients/esphome/client.go controls.
use marstek_energy_trading.Prelude.{ℕ, ◌≡◌, subst, Bool, true, some, List, [], ◌∷◌, arith}
use marstek_energy_trading.Platform.{Platform}
use marstek_energy_trading.Service.Types.{Command}
use marstek_energy_trading.Service.Machine.{Machine, is_ok}
use marstek_energy_trading.Service.Safety.{is_settled}
use marstek_energy_trading.Service.Loop.{Event, Exit, start}
use marstek_energy_trading.Service.Loop.Kept.{start-Keeps}
use marstek_energy_trading.Service.Loop.Shutdown.{IsLeft, start-IsLeft}
use marstek_energy_trading.Clients.Esphome.Control.{perform}
use marstek_energy_trading.Clients.Esphome.Control.Modes.{mode_of, perform-mode}
use marstek_energy_trading.Program.Start.{Clients}
use marstek_energy_trading.Program.Wiring.{Surroundings, env_of}
use marstek_energy_trading.Program.Wiring.Readings.{ModeRelation, InWorld-IsKept}
use marstek_energy_trading.Clients.Esphome.Types.{Http, Wire}

-- After an accepted stop the battery is in the mode of a stop.
abbrev Stopped : ModeRelation
Stopped commands mode = is_settled commands ≡ true → mode ≡ some "stop"

module _ {N : Platform} {H : Http N} where
  command-Stopped :
      (c : Command) (commands : List (Command × Bool)) (s : Wire H)
      → Stopped commands (mode_of s.log)
      → let (err, s') = perform c s in Stopped ((c, is_ok err) ∷ commands) (mode_of s'.log)
  command-Stopped Command.stop commands s h f = ground (arith, perform-mode Command.stop s tt)
  command-Stopped c commands s h f = cc

module _ {N : Platform} (S : Surroundings N) (clients : Clients S.market) where
  -- The engine over its clients: whatever its settings, if it has sent no command before `Start`, then
  -- `Start` returns the end of its context only with the battery in the mode that it accepted last
  -- being stop, for any events, any number of retries and whatever the servers answer.
  pub start-mode :
      (events : List Event) (ticks : ℕ) (m : Machine (env_of S clients))
      → m.commands ≡ []
      → (start events ticks m).0 ≡ Exit.cancelled
      → mode_of (start events ticks m).1.world.wire.log ≡ some "stop"
  start-mode events ticks m fresh e =
      let m' = (start events ticks m).1 in
      let kept = InWorld-IsKept S clients Stopped command-Stopped in
      let left = subst (λ (x : Exit). IsLeft x ticks m') e (start-IsLeft events ticks m) in
      (start-Keeps kept events ticks).at m (λ f. cc (rw fresh at f)) left
