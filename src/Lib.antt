-- ===== src/Lib.antt =====
-- A model of an energy trader that buys and sells with a home battery.
--
-- The program fetches day-ahead prices in slots of 15 minutes, plans cycles of one charge window and
-- one later discharge window, and runs the battery by that plan; between the windows it charges on
-- solar surplus. Every command to the battery may fail, so each session is verified by the measured
-- power, each stop is retried, and the trades of finished sessions are kept in a book.
--
-- The parts:
--   Platform: what comes from outside the repository: the decimals of shopspring/decimal, float64
--     operations, the local calendar, as a record of operations; `IsDecimal` states the laws of the
--     decimals (an ordered group, and products that keep the order). Times are nanoseconds.
--   Analyzer: service/analyzer.go. Types holds the data, Windows the averages and the sliding search
--     (`windowAverage`, `findBestWindow`, `calculateWindowSize`), Cycles `findBestCycle`, Lookup
--     the queries of a plan, Plan `AnalyzePrices`.
--   Recorder: service/recorder.go. Days is the summary of a day, History is `GetHistory`,
--     `GetTodaySummary`, `GetTotalPnL` and `GetLastChargeTrade`, and Store the file of the trades
--     (`saveTrades`, `LoadTrades`).
--   Service: service/service.go and service/interfaces.go. Types holds the fields of `Service` and the
--     collaborators (`Env`), Machine the state with its monad of actions, Control the battery control,
--     Average and Trades the values of a trade, Grid the sessions on grid prices, Solar those on
--     surplus, Tick and SolarTick the two decisions, Prices and Status the price checks and the
--     reports, Make is `New` and Loop is `Start`. Safety has the invariant of all handlers, Outcomes
--     the results of single steps, and Induction and Loop/Kept the principle by which a relation
--     between the trades, the commands and the world that every collaborator keeps holds on every run.
--   Clients: the folder clients/. Esphome is the HTTP client of the inverter (esphome/client.go) with
--     its confirmed writes, Marstek the JSON-RPC over UDP (marstek/client.go), Homewizard the P1 meter
--     and the search for it (homewizard/), Nordpool the prices (nordpool/client.go) and Telegram the
--     bot and the texts of its messages (telegram/client.go). Wire and Format hold what they share.
--   Handler: handler/handler.go, the answers at /health, /status and /metrics; Routes is the router.
--   Program: internal/config/config.go (Settings) and what cmd/trader/main.go makes of it: Start the
--     clients, Wiring the collaborators of the engine built from the clients (`env_of`), Launch the
--     engine with its settings, and Goroutines the server, the engine and `main` side by side. Plans
--     takes accepted settings through the planning.
--   Tests: a platform of whole numbers, simulated collaborators, and the theorems at concrete inputs.
--
-- A handler of the engine is a function of the whole state. This is faithful because the main loop
-- runs one handler at a time and the HTTP handlers only read; the lock that a handler gives up during
-- a call is taken by no other writer. The collaborators (battery, meter, prices, Telegram, clock,
-- contexts, the file of trades) are operations on an abstract world that may answer anything. The
-- model records the commands to the battery and whether each was accepted; the code reads none of it.
--
-- A client is a set of actions on its own state and on the world of its network. What it takes from
-- outside (the transport, JSON, timers, rendering of numbers and dates) is a record of operations, and
-- the documented laws that a theorem needs are a record of hypotheses: `IsFileSystem`, `IsServer`,
-- `IsFloat`, `IsFloatOrder`. The logs of the inverter's and the battery's clients hold what was exchanged; the code
-- reads none of them. The workers of the network scan are a step relation, so that a statement about
-- the scan holds for every order of their steps.
--
-- Loops run by structural recursion or on the number of rounds that the source's bounds give: the
-- sliding search has length - start - size rounds, the search for a cycle one for each possible
-- charge window, the loop over cycles the configured maximum. The waits (for the power, the retries of
-- the shutdown, the confirmation of a write, the mutex and the packets of the UDP client) run as often
-- as their timer fires before the deadline, a number that the world chooses; what the deadline then
-- gives is written out. The events of the main loop are any list, since Go's `select` fixes no order.
--
-- The clients are put behind the engine's interfaces by `env_of`, over a world with a part for each
-- server, the disk and the process. The goroutines of `main` are a step relation, in which the engine
-- is one step from its start to what `Start` returns: it shares no state with the others but its
-- context, which the step reads and may end. Signals, a failure of the server, `os.Exit` and panics
-- are steps too.
--
-- Not modelled: the matching of routes and the registry of metrics, which are chi and prometheus,
-- `Close` of the ESPHome client, log output, and the libraries behind the parameters. The engine's
-- tests can replace its clock (`SetClock`); the model's clock is the world's. Machine integers are
-- unbounded here, but for `time.Duration`, which saturates as `Time.Sub` does. An error text keeps
-- the part that the collaborator gives; its wrapping by the code is left out.
pub mod Prelude
pub mod Platform
pub mod Analyzer
pub mod Recorder
pub mod Service
pub mod Clients
pub mod Handler
pub mod Program
pub mod Tests
