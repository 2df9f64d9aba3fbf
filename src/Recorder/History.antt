-- ===== src/Recorder/History.antt =====
-- `GetHistory`, `GetTodaySummary`, `GetTotalPnL` and `GetLastChargeTrade` of service/recorder.go.
pub mod Total
pub mod Order
use mathlib.Core.List.{foldl}
use marstek_energy_trading.Prelude.{
  ℕ, zero, suc, ◌||◌, Bool, Option, none, some, List, [], ◌∷◌, ◌++◌, map, length, ◌==◌, ltb,
  if◌then◌else◌,
}
use marstek_energy_trading.Platform.{Time, Platform, before, is_zero_time}
use marstek_energy_trading.Recorder.Types.{
  TradeAction, charge, discharge, solar_charge, Trade, DailySummary, History,
}
use marstek_energy_trading.Recorder.Days.{summarise}

module _ (N : Platform) where
  open N use {Decimal, dec_zero, dec_add, dec_sub, dec_mul, day_key}

  -- The map from days to their trades, as a list of its entries. Go visits a map in no fixed order;
  -- here the order is that of each day's first trade.
  abbrev pub DayTrades : Type 0
  DayTrades = List (ℕ × List (Trade N))

  unfoldable pub add_to_day : ℕ → Trade N → DayTrades → DayTrades
  add_to_day key t [] = (key, t ∷ []) ∷ []
  add_to_day key t ((day, trades) ∷ days) =
      if day == key then (day, trades ++ t ∷ []) ∷ days else (day, trades) ∷ add_to_day key t days

  unfoldable pub group_by_day : List (Trade N) → DayTrades → DayTrades
  unfolding add_to_day
  group_by_day [] days = days
  group_by_day (t ∷ trades) days = group_by_day trades (add_to_day (day_key t.timestamp) t days)

  abbrev pub earlier : Time → Trade N → Time
  earlier first t = if is_zero_time first || before t.timestamp first then t.timestamp else first

  abbrev pub later : Time → Trade N → Time
  later last t = if is_zero_time last || before last t.timestamp then t.timestamp else last

  -- The inner loop of the sort: the entry at `i` against those after it.
  unfoldable pub sift :
      DailySummary N → List (DailySummary N) → DailySummary N × List (DailySummary N)
  sift d [] = (d, [])
  sift d (e ∷ days) =
      let swap = ltb d.date e.date in
      let (top, rest) = sift (if swap then e else d) days in (top, (if swap then d else e) ∷ rest)

  -- The outer loop, with `rounds` positions left: the latest day comes first.
  unfoldable pub sort_days : ℕ → List (DailySummary N) → List (DailySummary N)
  unfolding sift
  sort_days zero days = days
  sort_days (suc rounds) [] = []
  sort_days (suc rounds) (d ∷ days) = let (top, rest) = sift d days in top ∷ sort_days rounds rest

  abbrev pub summarise_day : ℕ × List (Trade N) → DailySummary N
  summarise_day (day, trades) = summarise N day trades

  abbrev pub add_pnl : Decimal → DailySummary N → Decimal
  add_pnl total day = dec_add total day.pnl_eur

  unfoldable pub get_history : List (Trade N) → History N
  unfolding group_by_day sort_days
  get_history [] = record {
    days = [];
    total_pnl = dec_zero;
    total_days = 0;
    first_trade = none;
    last_trade = none;
  }
  get_history (t ∷ trades) =
      let days = map summarise_day (group_by_day (t ∷ trades) []) in
      record {
        days = sort_days (length days) days;
        total_pnl = foldl add_pnl dec_zero days;
        total_days = length days;
        first_trade = some (foldl earlier 0 (t ∷ trades));
        last_trade = some (foldl later 0 (t ∷ trades));
      }

  unfoldable pub find_day : ℕ → List (DailySummary N) → Option (DailySummary N)
  find_day today [] = none
  find_day today (day ∷ days) = if day.date == today then some day else find_day today days

  -- The summary of the day of `now`, or an empty one.
  unfoldable pub get_today_summary : List (Trade N) → Time → DailySummary N
  unfolding find_day
  get_today_summary trades now = elim (find_day (day_key now) (get_history trades).days) [
    | some day ↦ day
    | none ↦ summarise N (day_key now) []
  ]

  -- The revenue and the cost over all trades.
  unfoldable pub sum_trades : List (Trade N) → Decimal → Decimal → Decimal × Decimal
  sum_trades [] total_revenue total_cost = (total_revenue, total_cost)
  sum_trades (t ∷ trades) total_revenue total_cost =
      let amount = dec_mul t.price_eur t.energy_kwh in
      let (revenue, cost) : Decimal × Decimal = elim t.action [
        | charge ↦ (total_revenue, dec_add total_cost amount)
        | discharge ↦ (dec_add total_revenue amount, total_cost)
        | solar_charge ↦ (total_revenue, total_cost)
      ] in
      sum_trades trades revenue cost

  unfoldable pub get_total_pnl : List (Trade N) → Decimal
  unfolding sum_trades
  get_total_pnl trades =
      let (revenue, cost) = sum_trades trades dec_zero dec_zero in dec_sub revenue cost

  -- The most recent grid charge; solar charges are no grid charges.
  unfoldable pub get_last_charge_trade : List (Trade N) → Option (Trade N)
  get_last_charge_trade [] = none
  get_last_charge_trade (t ∷ trades) = elim (get_last_charge_trade trades) [
    | some last ↦ some last
    | none ↦ elim t.action [ charge ↦ some t | _ ↦ none ]
  ]
