-- ===== src/Program/Wiring/Modes.antt =====
-- The state of the engine of service/service.go and the mode that clients/esphome/client.go has left
-- the battery in.
use marstek_energy_trading.Prelude.{
  ◌≡◌, ◌≢◌, refl, ◌⊎◌, inl, inr, ◌∙◌, ap, sym, subst, Bool, true, false, Option, none, some, List,
  [], ◌∷◌, String, arith,
}
use marstek_energy_trading.Platform.{Platform}
use marstek_energy_trading.Service.Types.{
  State, idle, charging, discharging, solar_charging, stopping, Command,
}
use marstek_energy_trading.Service.Machine.{Machine, is_ok}
use marstek_energy_trading.Service.Safety.{
  Direction, is_inward, is_outward, inward, outward, rest, unopposed, direction, flow, is_forward,
  are_forward, agrees, is_settled,
}
use marstek_energy_trading.Service.Loop.{Event, run, start_up}
use marstek_energy_trading.Service.Loop.Kept.{start_up-Keeps, run-Keeps}
use marstek_energy_trading.Service.Loop.Invariant.{IsNew, start_up-run-IsSafe}
use marstek_energy_trading.Clients.Esphome.Types.{Wire, Http}
use marstek_energy_trading.Clients.Esphome.Control.{perform}
use marstek_energy_trading.Clients.Esphome.Control.Modes.{
  mode_of, mode_text, IsForward, perform-mode,
}
use marstek_energy_trading.Clients.Esphome.Control.Attempts.{perform-MaySet}
use marstek_energy_trading.Program.Start.{Clients}
use marstek_energy_trading.Program.Wiring.{Surroundings, env_of}
use marstek_energy_trading.Program.Wiring.Readings.{ModeRelation, InWorld-IsKept}

-- The mode is that of the last accepted command, or of one that failed after it.
abbrev Fits : List (Command × Bool) → Option String → Type 0
Fits [] mode = Unit
Fits ((c, true) ∷ commands) mode = mode ≡ some (mode_text (direction c))
Fits ((c, false) ∷ commands) mode = (mode ≡ some (mode_text (direction c))) ⊎ Fits commands mode

-- What a state says about the mode of the battery. A stop that failed may still have been carried
-- out; while stopping nothing is said.
abbrev pub ModeFits : State → Option String → Type 0
ModeFits idle mode = mode ≡ some "stop"
ModeFits charging mode = (mode ≡ some "charge") ⊎ (mode ≡ some "stop")
ModeFits solar_charging mode = (mode ≡ some "charge") ⊎ (mode ≡ some "stop")
ModeFits discharging mode = (mode ≡ some "discharge") ⊎ (mode ≡ some "stop")
ModeFits stopping mode = Unit

unopposed-active :
    (d f a : Direction) → a ≢ rest → unopposed d f ≡ a → (f ≡ a) × ((d ≡ a) ⊎ (d ≡ rest))
unopposed-active inward inward a ne e = (e, inl e)
unopposed-active inward outward a ne e = absurd (ne (sym e))
unopposed-active inward rest a ne e = absurd (ne (sym e))
unopposed-active outward inward a ne e = absurd (ne (sym e))
unopposed-active outward outward a ne e = (e, inl e)
unopposed-active outward rest a ne e = absurd (ne (sym e))
unopposed-active rest f a ne e = (e, inr refl)

flow-active :
    (a : Direction) (commands : List (Command × Bool)) (mode : Option String)
    → a ≢ rest
    → flow commands ≡ a
    → Fits commands mode
    → (mode ≡ some (mode_text a)) ⊎ (mode ≡ some "stop")
flow-active a [] mode ne e h = absurd (ne (sym e))
flow-active a ((c, true) ∷ commands) mode ne e h = inl (h ∙ ap (λ d. some (mode_text d)) e)
flow-active a ((c, false) ∷ commands) mode ne e h =
    let (e', d) = unopposed-active (direction c) (flow commands) a ne e in
    elim h [
      | inr earlier ↦ flow-active a commands mode ne e' earlier
      | inl now ↦ elim d [
        | inl same ↦ inl (now ∙ ap (λ d. some (mode_text d)) same)
        | inr stopped ↦ inr (now ∙ ap (λ d. some (mode_text d)) stopped)
      ]
    ]

is_inward-eq : (d : Direction) → is_inward d ≡ true → d ≡ inward
is_inward-eq d h = ground arith

is_outward-eq : (d : Direction) → is_outward d ≡ true → d ≡ outward
is_outward-eq d h = ground arith

settled-stop :
    (commands : List (Command × Bool)) (mode : Option String)
    → is_settled commands ≡ true
    → Fits commands mode
    → mode ≡ some "stop"
settled-stop [] mode e h = cc
settled-stop ((Command.stop, true) ∷ commands) mode e h = h
settled-stop _ mode e h = cc

agrees-ModeFits :
    (s : State) (commands : List (Command × Bool)) (mode : Option String)
    → agrees s commands ≡ true
    → Fits commands mode
    → ModeFits s mode
agrees-ModeFits idle commands mode a h = settled-stop commands mode a h
agrees-ModeFits charging commands mode a h =
    flow-active inward commands mode (λ e. cc) (is_inward-eq (flow commands) a) h
agrees-ModeFits solar_charging commands mode a h =
    flow-active inward commands mode (λ e. cc) (is_inward-eq (flow commands) a) h
agrees-ModeFits discharging commands mode a h =
    flow-active outward commands mode (λ e. cc) (is_outward-eq (flow commands) a) h
agrees-ModeFits stopping commands mode a h = tt

is_forward-IsForward : (c : Command) → is_forward c ≡ true → IsForward c
is_forward-IsForward c h = ground arith

-- A command without an error leaves its own mode, any other its own or the one before.
Fits-step :
    (c : Command) (commands : List (Command × Bool)) (err : Option String) (old new : Option String)
    → (err ≡ none → new ≡ some (mode_text (direction c)))
    → (new ≡ old) ⊎ (new ≡ some (mode_text (direction c)))
    → Fits commands old
    → Fits ((c, is_ok err) ∷ commands) new
Fits-step c commands none old new ok either h = ok refl
Fits-step c commands (some e) old new ok (inl same) h = inr (subst (Fits commands) (sym same) h)
Fits-step c commands (some e) old new ok (inr its_own) h = inl its_own

-- The mode fits the commands, if each charge and discharge has a positive power.
abbrev Matching : ModeRelation
Matching commands mode = are_forward commands ≡ true → Fits commands mode

module _ {N : Platform} {H : Http N} where
  command-Matching :
      (c : Command) (commands : List (Command × Bool)) (s : Wire H)
      → Matching commands (mode_of s.log)
      → let (err, s') = perform c s in Matching ((c, is_ok err) ∷ commands) (mode_of s'.log)
  command-Matching c commands s h f =
      let f₁ : is_forward c ≡ true = ground arith in
      let (err, s') = perform c s in
      Fits-step c commands err (mode_of s.log) (mode_of s'.log)
        (perform-mode c s (is_forward-IsForward c f₁)) (perform-MaySet c f₁ s) (h (ground arith))

module _ {N : Platform} (S : Surroundings N) (clients : Clients S.market) where
  -- The engine over its clients: for a new engine with positive powers in its settings, after a
  -- startup that is not refused, at every point of the main loop, for any events in any order and
  -- whatever the servers answer, the mode that the battery accepted last fits the state. While idle it
  -- is stop; while charging from the grid or on surplus it is charge, or stop; while discharging it is
  -- discharge, or stop; while stopping nothing is said.
  pub start_up-run-ModeFits :
      (events : List Event) (m : Machine (env_of S clients))
      → IsNew m
      → m.commands ≡ []
      → (start_up m).0 ≡ none
      → let m' = (run events (start_up m).1).1 in ModeFits m'.svc.state (mode_of m'.world.wire.log)
  start_up-run-ModeFits events m h fresh e =
      let m₁ = (start_up m).1 in
      let m₂ = (run events m₁).1 in
      let safe = start_up-run-IsSafe events m h e in
      let kept = InWorld-IsKept S clients Matching command-Matching in
      let first : Matching m.commands (mode_of m.world.wire.log) =
        λ f. subst (λ l. Fits l (mode_of m.world.wire.log)) (sym fresh) tt in
      let h₂ = (run-Keeps kept events).at m₁ ((start_up-Keeps kept).at m first) in
      agrees-ModeFits m₂.svc.state m₂.commands (mode_of m₂.world.wire.log) safe.agreed
        (h₂ safe.forward)
