-- ===== src/Program/Launch.antt =====
-- `main` of cmd/trader/main.go, from the settings to the engine and its goroutines.
pub mod Battery
pub mod Trades
pub mod Chat
use marstek_energy_trading.Prelude.{[], Option, String}
use marstek_energy_trading.Platform.{Platform}
use marstek_energy_trading.Service.Types.{Result, Env}
use marstek_energy_trading.Service.Machine.{Machine}
use marstek_energy_trading.Service.Make.{new_machine}
use marstek_energy_trading.Clients.Homewizard.Discovery.{DiscoveryResult}
use marstek_energy_trading.Clients.Nordpool.{Market}
use marstek_energy_trading.Program.Settings.{Settings, engine_config}
use marstek_energy_trading.Program.Start.{Clients, make_clients}
use marstek_energy_trading.Program.Wiring.{Surroundings, World, env_of}

-- What `main` starts from: the loader of locations, the settings, and the meter that the search has
-- found, if there was one.
pub record Launch {N : Platform} (S : Surroundings N) : Type 0 where
  pub load_location : String → Option (Market.Location S.market)
  pub utc : Market.Location S.market
  pub settings : Settings N
  pub found : Result DiscoveryResult

module _ {N : Platform} {S : Surroundings N} (l : Launch S) where
  unfoldable pub clients : Clients S.market
  unfolding make_clients
  clients = make_clients S.market l.load_location l.utc l.settings l.found

  -- The engine's collaborators.
  abbrev pub trader_env : Env N
  trader_env = env_of S clients

  -- The clients are new: the battery's has made no request, and the bot's has read no update.
  abbrev pub fresh : World S → World S
  fresh w = record w {
    wire = record (w.wire) { log = [] };
    session = record (w.session) { client = clients.telegram };
  }

  -- `service.New` over the clients.
  unfoldable pub trader : World S → Machine trader_env
  unfolding new_machine clients
  trader w = new_machine trader_env (engine_config N l.settings) (fresh w)
