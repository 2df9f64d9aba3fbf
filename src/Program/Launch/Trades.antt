-- ===== src/Program/Launch/Trades.antt =====
-- What the process of cmd/trader/main.go keeps of its trades on disk (service/recorder.go).
use marstek_energy_trading.Prelude.{refl, inl, List, Option, String}
use marstek_energy_trading.Platform.{Platform}
use marstek_energy_trading.Recorder.Store.Atomic.{IsFileSystem}
use marstek_energy_trading.Recorder.Store.Prefix.{
  file, IsDurable, save_trades-IsDurable, load_trades-IsDurable,
}
use marstek_energy_trading.Service.Induction.{Relation, IsKept}
use marstek_energy_trading.Service.Loop.{Event, start_up, run}
use marstek_energy_trading.Service.Loop.Kept.{start_up-Keeps, run-Keeps}
use marstek_energy_trading.Program.Wiring.{Surroundings, World, env_of}
use marstek_energy_trading.Program.Start.{Clients}
use marstek_energy_trading.Program.Launch.{Launch, clients, trader}

module _ {N : Platform} (S : Surroundings N) (c : Clients S.market)
    (fs : IsFileSystem S.files) where
  abbrev OnDisk : Option String → Relation (env_of S c)
  OnDisk first ts l w = IsDurable S.files fs c.data_dir first ts w.disk

  OnDisk-IsKept : (first : Option String) → IsKept (env_of S c) (OnDisk first)
  OnDisk-IsKept first = record {
    command = λ c ts l w h. h;
    now = record { carry = λ ts l w h. h };
    wall_now = record { carry = λ ts l w h. h };
    context_done = record { carry = λ ts l w h. h };
    get_battery_status = record { carry = λ ts l w h. h };
    get_es_status = record { carry = λ ts l w h. h };
    get_battery_power = record { carry = λ ts l w h. h };
    get_active_power = record { carry = λ ts l w h. h };
    ticks_before_deadline = λ timeout interval. record { carry = λ ts l w h. h };
    connect = record { carry = λ ts l w h. h };
    discover = record { carry = λ ts l w h. h };
    fetch_today_prices = record { carry = λ ts l w h. h };
    fetch_tomorrow_prices = record { carry = λ ts l w h. h };
    poll_commands = record { carry = λ ts l w h. h };
    load_trades = λ ts l w. load_trades-IsDurable S.files fs c.data_dir first ts w.disk;
    record_trade = λ t ts l w. save_trades-IsDurable S.files fs c.data_dir first t ts w.disk;
    send = λ n ts l w h. h;
  }

module _ {N : Platform} {S : Surroundings N} (l : Launch S) (w : World S)
    (fs : IsFileSystem S.files) where
  -- The whole program over a file system and a codec with the documented laws: at every point of the
  -- main loop, for any events in any order and whatever the other collaborators answer, the file of
  -- trades in the data directory either is as it was before the program started, or holds the
  -- encoding of a beginning of the trades that the recorder has, whichever saves have failed.
  pub trader-IsDurable :
      (events : List Event)
      → let m = (run events (start_up (trader l w)).1).1 in
        IsDurable S.files fs
          (clients l).data_dir
          (file S.files fs (clients l).data_dir w.disk)
          m.trades
          m.world.disk
  unfolding trader
  trader-IsDurable events =
      let k = OnDisk-IsKept S (clients l) fs (file S.files fs (clients l).data_dir w.disk) in
      let m₁ = (start_up (trader l w)).1 in
      (run-Keeps k events).at m₁ ((start_up-Keeps k).at (trader l w) (inl refl))
