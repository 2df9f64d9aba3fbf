-- ===== src/Program/Wiring/Readings.antt =====
-- The clients leave the mode of the battery alone, but for the commands of clients/esphome/client.go.
use marstek_energy_trading.Prelude.{◌≡◌, sym, subst, Bool, Option, List, ◌∷◌, String}
use marstek_energy_trading.Platform.{Platform}
use marstek_energy_trading.Service.Types.{Command}
use marstek_energy_trading.Service.Machine.{is_ok}
use marstek_energy_trading.Service.Induction.{Relation, IsKept}
use marstek_energy_trading.Clients.Esphome.Types.{Wire}
use marstek_energy_trading.Clients.Esphome.Control.{perform}
use marstek_energy_trading.Clients.Esphome.Control.Modes.{mode_of}
use marstek_energy_trading.Clients.Esphome.Control.Attempts.{
  connect-KeepsMode, discover-KeepsMode, get_battery_status-KeepsMode, get_es_status-KeepsMode,
  get_battery_power-KeepsMode,
}
use marstek_energy_trading.Program.Start.{Clients}
use marstek_energy_trading.Program.Wiring.{Surroundings, env_of}

-- A property of the commands and of the mode.
abbrev pub ModeRelation : Type 1
ModeRelation = List (Command × Bool) → Option String → Type 0

module _ {N : Platform} (S : Surroundings N) (clients : Clients S.market) (P : ModeRelation) where
  -- The property, in the world of the clients.
  abbrev pub InWorld : Relation (env_of S clients)
  InWorld trades commands w = P commands (mode_of w.wire.log)

  same_mode : (l : List (Command × Bool)) {old new : Option String} → new ≡ old → P l old → P l new
  same_mode l e h = subst (P l) (sym e) h

  -- It is enough to look at the commands.
  pub InWorld-IsKept :
      ((c : Command) (l : List (Command × Bool)) (s : Wire S.battery)
        → P l (mode_of s.log)
        → let (err, s') = perform c s in P ((c, is_ok err) ∷ l) (mode_of s'.log))
      → IsKept (env_of S clients) InWorld
  InWorld-IsKept step = record {
    command = λ c ts l w. step c l w.wire;
    now = record { carry = λ ts l w h. h };
    wall_now = record { carry = λ ts l w h. h };
    context_done = record { carry = λ ts l w h. h };
    get_battery_status = record {
      carry = λ ts l w. same_mode l (get_battery_status-KeepsMode clients.min_soc w.wire);
    };
    get_es_status = record { carry = λ ts l w. same_mode l (get_es_status-KeepsMode w.wire) };
    get_battery_power = record {
      carry = λ ts l w. same_mode l (get_battery_power-KeepsMode w.wire);
    };
    get_active_power = record { carry = λ ts l w h. h };
    ticks_before_deadline = λ timeout interval. record { carry = λ ts l w h. h };
    connect = record { carry = λ ts l w. same_mode l (connect-KeepsMode w.wire) };
    discover = record { carry = λ ts l w. same_mode l (discover-KeepsMode w.wire) };
    fetch_today_prices = record { carry = λ ts l w h. h };
    fetch_tomorrow_prices = record { carry = λ ts l w h. h };
    poll_commands = record { carry = λ ts l w h. h };
    load_trades = λ ts l w h. h;
    record_trade = λ t ts l w h. h;
    send = λ n ts l w h. h;
  }
