-- ===== src/Service/Safety.antt =====
-- What the engine's state says about the battery: the invariant of all handlers.
mod Steps
mod Sessions
pub mod Handlers
pub mod SolarHandlers
pub mod Starts
use marstek_energy_trading.Prelude.{
  ℕ, Bool, true, false, Option, none, some, List, [], ◌∷◌, ◌≡◌, if◌then◌else◌, ◌&&◌, ℤ, pos, ltb_ℤ,
  ◌<ℤ◌,
}
use marstek_energy_trading.Platform.{Platform}
use marstek_energy_trading.Service.Types.{
  State, idle, charging, discharging, solar_charging, stopping, Command, Service, Config, Env,
}
use marstek_energy_trading.Service.Machine.{Machine}

-- Where a command sends energy.
pub data Direction : Type 0 where
  inward outward rest : Direction

-- The direction of a signed power: positive is inward.
abbrev pub direction_of_power : ℤ → Direction
direction_of_power p = if ltb_ℤ (pos 0) p then inward else if ltb_ℤ p (pos 0) then outward else rest

abbrev pub opposite : Direction → Direction
opposite inward = outward
opposite outward = inward
opposite rest = rest

abbrev pub direction : Command → Direction
direction (Command.charge p t) = direction_of_power p
direction (Command.discharge p t) = opposite (direction_of_power p)
direction (Command.set_passive_mode p t) = opposite (direction_of_power p)
direction Command.stop = rest

abbrev pub is_inward : Direction → Bool
is_inward inward = true
is_inward _ = false

abbrev pub is_outward : Direction → Bool
is_outward outward = true
is_outward _ = false

-- What is left of a direction when a command has failed: nothing, if the command may have turned the
-- battery the other way.
abbrev pub unopposed : Direction → Direction → Direction
unopposed inward outward = rest
unopposed outward inward = rest
unopposed _ d = d

-- The direction of the last command that the battery accepted, where no command the other way has
-- failed after it.
abbrev pub flow : List (Command × Bool) → Direction
flow [] = rest
flow ((c, true) ∷ commands) = direction c
flow ((c, false) ∷ commands) = unopposed (direction c) (flow commands)

-- The commands that name their direction themselves: the powers of a charge and of a discharge are
-- positive.
abbrev pub is_forward : Command → Bool
is_forward (Command.charge p t) = ltb_ℤ (pos 0) p
is_forward (Command.discharge p t) = ltb_ℤ (pos 0) p
is_forward _ = true

abbrev pub are_forward : List (Command × Bool) → Bool
are_forward [] = true
are_forward ((c, b) ∷ commands) = is_forward c && are_forward commands

-- The last command was a stop, and it was accepted.
abbrev pub is_settled : List (Command × Bool) → Bool
is_settled ((Command.stop, true) ∷ commands) = true
is_settled _ = false

-- What a state claims of the commands so far. While stopping nothing is claimed: a start has failed,
-- and so has the stop after it.
abbrev pub agrees : State → List (Command × Bool) → Bool
agrees idle commands = is_settled commands
agrees charging commands = is_inward (flow commands)
agrees solar_charging commands = is_inward (flow commands)
agrees discharging commands = is_outward (flow commands)
agrees stopping commands = true

module _ {N : Platform} {E : Env N} where
  pub record IsSafe (m : Machine E) : Type 0 where
    pub agreed : agrees m.svc.state m.commands ≡ true
    pub forward : are_forward m.commands ≡ true
    pub charge_positive : pos 0 <ℤ m.svc.cfg.charge_power_w
    pub discharge_positive : pos 0 <ℤ m.svc.cfg.discharge_power_w
    pub solar_positive : m.svc.state ≡ solar_charging → pos 0 <ℤ m.svc.solar_charge_power
