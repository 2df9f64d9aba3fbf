-- ===== src/Tests/Whole.antt =====
-- Witnesses for the engine over its clients, with small servers behind each.
use marstek_energy_trading.Prelude.{
  ◌≡◌, refl, ap, true, false, none, some, List, [], ◌∷◌, String, pos, ◌+ℤ◌, arith,
}
use marstek_energy_trading.Service.Types.{ok, failed}
use marstek_energy_trading.Service.Machine.{Machine}
use marstek_energy_trading.Service.Loop.{
  ticker, price_ticker, daily_ticker, cmd_ticker, solar_ticker, start_up, after_connect,
  after_reset, run, start, after_start_up, shut_down, exit_of, Exit,
}
use marstek_energy_trading.Service.Loop.{Event}
use marstek_energy_trading.Service.Control.{stop_battery_on_shutdown}
use marstek_energy_trading.Clients.Esphome.Requests
use marstek_energy_trading.Clients.Esphome.Control.{
  perform, idle, set_select_confirmed, confirm, confirm_loop, is_option,
}
use marstek_energy_trading.Clients.Homewizard.Meter.{Network}
use marstek_energy_trading.Clients.Esphome.Control.Modes.{mode_of}
use marstek_energy_trading.Program.Wiring.{Process, Surroundings, World}
use marstek_energy_trading.Program.Wiring.Modes.{ModeFits}
use marstek_energy_trading.Program.Launch.{Launch, clients, trader_env, trader}
use marstek_energy_trading.Program.Launch.Battery.{trader-ModeFits, process-LeftBy}
use marstek_energy_trading.Program.Launch.Chat.{
  asks_status, polled, handle_telegram_commands-silent,
}
use marstek_energy_trading.Clients.Telegram.{fetch_updates}
use marstek_energy_trading.Clients.Format.{decimal}
use marstek_energy_trading.Service.Status.{handle_telegram_commands}
use marstek_energy_trading.Program.Launch.Trades.{trader-IsDurable}
use marstek_energy_trading.Program.Goroutines.{
  stops, Program, returned, closed, joining, exited, launched, Reach, here, next, signalled,
  engine_returned, may_return, woken, server_returned, shut, joined,
}
use marstek_energy_trading.Program.Goroutines.Finish.{Finishes, finish}
use marstek_energy_trading.Recorder.Store.Prefix.{IsDurable, file}
use marstek_energy_trading.Service.Make.{new_machine}
use marstek_energy_trading.Tests.Start.{chosen}
use marstek_energy_trading.Tests.Numbers.{numbers}
use marstek_energy_trading.Tests.Battery.{device, wire}
use marstek_energy_trading.Tests.Market.{market}
use marstek_energy_trading.Tests.Chat.{bot, seventh, eighth}
use marstek_energy_trading.Tests.Files.{memory, memory-IsFileSystem}

-- The meter answers with a surplus.
abbrev network : Network numbers
network = record {
  World = String;
  exchange = λ url w. (ok (record { status = 200; body = w }), w);
  decode_device_info = λ body. none;
  decode_data = λ body. some (pos 0);
}

abbrev process : Process
process = record {
  World = String;
  now = λ w. (1, w);
  wall_now = λ w. (1, w);
  context_done = λ w. (false, w);
  ticks_before_deadline = λ timeout interval w. (10, w);
}

abbrev surroundings : Surroundings numbers
surroundings = record {
  battery = device;
  meter = network;
  market = market;
  bot = bot;
  files = memory;
  process = process;
}

abbrev launch : Launch surroundings
launch = record {
  load_location = λ name. none;
  utc = "UTC";
  settings = record chosen { data_dir = "data"; charge_power_w = pos 2500 };
  found = failed "no meter";
}

abbrev world : World surroundings
world = record {
  wire = wire;
  meter = "";
  market = "";
  session = record {
    client = record { bot_token = ""; chat_id = ""; enabled = false; last_update_id = pos 0 };
    world = "";
  };
  disk = λ path. none;
  process = "";
}

abbrev events : List Event
events = ticker ∷ solar_ticker ∷ price_ticker ∷ daily_ticker ∷ cmd_ticker ∷ []

started : (start_up (trader launch world)).0 ≡ none
unfolding trader new_machine start_up after_connect Requests.connect after_reset perform idle
    set_select_confirmed Requests.set_select confirm confirm_loop Requests.get_control_value
    is_option
started = refl

ended : (start [] 0 (trader launch world)).0 ≡ Exit.cancelled
unfolding start after_start_up trader new_machine start_up after_connect Requests.connect
    after_reset perform idle set_select_confirmed Requests.set_select confirm confirm_loop
    Requests.get_control_value is_option shut_down exit_of stop_battery_on_shutdown
ended = refl

trader-ModeFits_example :
    let m = (run events (start_up (trader launch world)).1).1 in
    ModeFits m.svc.state (mode_of m.world.wire.log)
trader-ModeFits_example = trader-ModeFits launch world events (omega arith) (omega arith) started

trader-IsDurable_example :
    let m = (run events (start_up (trader launch world)).1).1 in
    IsDurable memory memory-IsFileSystem
      (clients launch).data_dir
      (file memory memory-IsFileSystem (clients launch).data_dir (λ path. none))
      m.trades
      m.world.disk
trader-IsDurable_example = trader-IsDurable launch world memory-IsFileSystem events

-- A signal, the stop of the battery, and the end of the server.
abbrev over : Program (trader_env launch)
over = record {
  server = closed;
  engine = returned (start [] 0 (trader launch world)).0 (start [] 0 (trader launch world)).1;
  cancelled = true;
  released = stops (start [] 0 (trader launch world)).0;
  phase = joining;
}

over-Reach : Reach (trader launch world) true (launched (trader_env launch)) over
over-Reach =
    next
      (next
        (next
          (next (next here (signalled refl refl refl))
            (engine_returned [] 0 refl refl (ap (λ exit. may_return exit true) ended)))
          (woken refl refl))
        (server_returned refl refl))
      (shut refl)

exited-Reach :
    Reach
      (trader launch world)
      true
      (launched (trader_env launch))
      (record over { phase = exited 0 })
exited-Reach = next over-Reach (joined _ _ refl refl refl)

unreleased : stops (start [] 0 (trader launch world)).0 ≡ false
unfolding stops
unreleased = rw ended refl

process-LeftBy_example :
    (m : Machine (trader_env launch)) × ((record over { phase = exited 0 }).engine
      ≡ returned Exit.cancelled m)
    × (mode_of m.world.wire.log ≡ some "stop")
process-LeftBy_example =
    process-LeftBy launch world (record over { phase = exited 0 }) exited-Reach refl unreleased

finish_example : Finishes (trader launch world) over
finish_example = finish (trader launch world) over over-Reach refl refl refl

-- A bot for the chat 99; the server has two updates, from the chats 42 and 13.
abbrev bot_launch : Launch surroundings
bot_launch = record launch {
  settings = record chosen { telegram_bot_token = "token"; telegram_chat_id = "99" };
}

bot_enabled : (clients bot_launch).telegram.enabled ≡ true
unfolding clients
bot_enabled = refl

abbrev asked : Machine (trader_env bot_launch)
asked = trader bot_launch (record world {
  session = record {
    client = record { bot_token = "token"; chat_id = "99"; enabled = true; last_update_id = pos 0 };
    world = "";
  };
})

session_enabled : asked.world.session.client.enabled ≡ true
unfolding trader
session_enabled = refl

strangers : (fetch_updates bot asked.world.session).0 ≡ ok (seventh ∷ eighth ∷ [])
unfolding trader ◌+ℤ◌
strangers = refl

unasked : asks_status asked.world.session.client.chat_id (seventh ∷ eighth ∷ []) ≡ false
unfolding trader decimal
unasked = refl

handle_telegram_commands-silent_example :
    (handle_telegram_commands asked).1 ≡ polled bot_launch asked
handle_telegram_commands-silent_example =
    handle_telegram_commands-silent bot_launch (seventh ∷ eighth ∷ []) asked bot_enabled
      session_enabled strangers unasked
