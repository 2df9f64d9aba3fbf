-- ===== src/Program/Launch/Battery.antt =====
-- What the process of cmd/trader/main.go does to the battery, from its settings to its end.
use marstek_energy_trading.Prelude.{
  ℕ, ◌≡◌, refl, ap, sym, ◌∙◌, subst, true, false, none, some, List, pos, ◌<ℤ◌,
}
use marstek_energy_trading.Platform.{Platform}
use marstek_energy_trading.Service.Loop.{Event, Exit, start_up, run, start}
use marstek_energy_trading.Service.Machine.{Machine}
use marstek_energy_trading.Service.Make.{new_machine-IsNew}
use marstek_energy_trading.Clients.Esphome.Control.Modes.{mode_of}
use marstek_energy_trading.Program.Settings.{engine_config}
use marstek_energy_trading.Program.Wiring.{Surroundings, World}
use marstek_energy_trading.Program.Wiring.Modes.{ModeFits, start_up-run-ModeFits}
use marstek_energy_trading.Program.Wiring.Stopped.{start-mode}
use marstek_energy_trading.Program.Goroutines.{stops, Program, returned, exited, launched, Reach}
use marstek_energy_trading.Program.Goroutines.Exits.{exited_zero-start}
use marstek_energy_trading.Program.Launch.{Launch, clients, trader_env, fresh, trader}

module _ {N : Platform} {S : Surroundings N} (l : Launch S) (w : World S) where
  -- The whole program, for settings with positive powers: after a startup that is not refused, at every
  -- point of the main loop, for any events in any order and whatever the servers, the disk and the
  -- clock answer, the mode that the battery accepted last fits the state of the engine. While idle it
  -- is stop; while charging from the grid or on surplus it is charge, or stop; while discharging it is
  -- discharge, or stop; while stopping nothing is said.
  pub trader-ModeFits :
      (events : List Event)
      → pos 0 <ℤ l.settings.charge_power_w
      → pos 0 <ℤ l.settings.discharge_power_w
      → (start_up (trader l w)).0 ≡ none
      → let m = (run events (start_up (trader l w)).1).1 in
        ModeFits m.svc.state (mode_of m.world.wire.log)
  unfolding trader
  trader-ModeFits events p q e =
      start_up-run-ModeFits S (clients l) events (trader l w)
        (new_machine-IsNew (trader_env l) (engine_config N l.settings) (fresh l w) p q) refl e

  start-stopped :
      (exit : Exit) (m : Machine (trader_env l)) (events : List Event) (ticks : ℕ)
      → start events ticks (trader l w) ≡ (exit, m)
      → stops exit ≡ false
      → (exit ≡ Exit.cancelled) × (mode_of m.world.wire.log ≡ some "stop")
  unfolding trader stops
  start-stopped Exit.cancelled m events ticks e s = (
    refl,
    subst (λ (o : Exit × Machine (trader_env l)). mode_of o.1.world.wire.log ≡ some "stop") e
        (start-mode S (clients l) events ticks (trader l w) refl (ap (λ o. o.0) e)),
  )
  start-stopped (Exit.shutdown_failed f) m events ticks e s = cc
  start-stopped (Exit.not_started refusal) m events ticks e s = cc

  -- The whole process, whatever its settings and signals and in any interleaving of its goroutines:
  -- where it has ended with code 0 and the engine's goroutine has never called `stop()`, because
  -- `Start` has reported no error to it, `Start` has returned the end of its context, and the mode that
  -- the battery accepted last is stop.
  pub process-LeftBy :
      (p : Program (trader_env l))
      → Reach (trader l w) true (launched (trader_env l)) p
      → p.phase ≡ exited 0
      → p.released ≡ false
      → (m : Machine (trader_env l)) × (p.engine ≡ returned Exit.cancelled m)
        × (mode_of m.world.wire.log ≡ some "stop")
  process-LeftBy p r e f =
      let (exit, m, o, k, events, ticks, s) = exited_zero-start (trader l w) r e in
      let (c, mode) = start-stopped exit m events ticks s (sym k ∙ f) in
      (m, o ∙ ap (λ x. returned x m) c, mode)
