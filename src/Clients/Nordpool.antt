-- ===== src/Clients/Nordpool.antt =====
-- The day-ahead prices, clients/nordpool/client.go. The server, the clock, the calendar and the
-- decoders are parameters.
pub mod Prices
use text.Mathlib.Text
use Prim.Native.String.{◌++◌ as ◌<>◌}
use marstek_energy_trading.Prelude.{
  Bool, Option, none, some, List, [], ◌∷◌, String, pos, if◌then◌else◌,
}
use marstek_energy_trading.Platform.{Platform, Time}
use marstek_energy_trading.Analyzer.Types.{Price}
use marstek_energy_trading.Service.Types.{Result, ok, failed}
use marstek_energy_trading.Clients.Wire.{Action, pure, ◌>>=◌, Response, body_of, decoded}

abbrev pub base_url : String
base_url = "https://dataportal-api.nordpoolgroup.com/api/DayAheadPriceIndices"

abbrev pub resolution : String
resolution = "15"

module _ (N : Platform) where
  open N use {Float}

  -- `multiIndexEntry`; `entry_per_area` lists the entries of the map.
  pub record MultiIndexEntry : Type 0 where
    pub delivery_start : String
    pub entry_per_area : List (String × Float)

  -- A time of day is rendered, and a day added, in a location, or in the local one for `none`.
  pub record Market : Type 1 where
    pub World : Type 0
    pub Location : Type 0
    pub now : World → Time × World
    pub format_date : Option Location → Time → String
    pub add_day : Option Location → Time → Time
    pub encode_values : List (String × String) → String
    pub exchange : String → World → Result Response × World
    pub decode_entries : String → Option (List MultiIndexEntry)
    pub parse_rfc3339 : String → Option Time

  unfoldable pub area_price : String → List (String × Float) → Option Float
  area_price area [] = none
  area_price area ((a, price) ∷ m) = if Text.◌==◌ a area then some price else area_price area m

module _ {N : Platform} (M : Market N) where
  open N use {Float, float_div, literal}
  open M use {
    World, Location, now, format_date, add_day, encode_values, exchange, decode_entries,
    parse_rfc3339,
  }

  pub record Client : Type 0 where
    pub area : String
    pub currency : String
    pub loc : Option Location

  unfoldable pub new : String → String → Client
  new area currency = record { area = area; currency = currency; loc = none }

  unfoldable pub new_with_location : String → String → Location → Client
  new_with_location area currency loc = record { area = area; currency = currency; loc = some loc }

  abbrev pub to_kwh : Float → Float
  to_kwh price_per_mwh = float_div price_per_mwh (literal (pos 1000) 1)

  -- The loop over the entries; `prices` are those after this one.
  abbrev pub add_price :
      Option Time → Option Float → Result (List (Price N)) → Result (List (Price N))
  add_price none per_mwh prices = failed "parse time"
  add_price (some t) none prices = failed "no price for area"
  add_price (some t) (some per_mwh) (failed e) = failed e
  add_price (some t) (some per_mwh) (ok prices) =
      ok (record { time = t; value = to_kwh per_mwh } ∷ prices)

  unfoldable pub to_prices : String → List (MultiIndexEntry N) → Result (List (Price N))
  unfolding area_price
  to_prices area [] = ok []
  to_prices area (entry ∷ entries) =
      add_price (parse_rfc3339 entry.delivery_start) (area_price N area entry.entry_per_area)
        (to_prices area entries)

  abbrev pub request_url : Client → Time → String
  request_url c date =
      base_url
      <> "?"
      <> encode_values (
          ("date", format_date c.loc date)
          ∷ ("indexNames", c.area)
          ∷ ("currency", c.currency)
          ∷ ("market", "DayAhead")
          ∷ ("resolutionInMinutes", resolution)
          ∷ [])

  abbrev pub prices_of : String → Result (List (MultiIndexEntry N)) → Result (List (Price N))
  prices_of area (failed e) = failed e
  prices_of area (ok entries) = to_prices area entries

  unfoldable pub fetch_day_ahead_prices : Client → Time → Action World (Result (List (Price N)))
  unfolding body_of decoded to_prices
  fetch_day_ahead_prices c date w =
      let (answer, w') = exchange (request_url c date) w in
      (prices_of c.area (decoded decode_entries (body_of answer)), w')

  unfoldable pub fetch_today_prices : Client → Action World (Result (List (Price N)))
  unfolding fetch_day_ahead_prices
  fetch_today_prices c = do t ← now; fetch_day_ahead_prices c t

  unfoldable pub fetch_tomorrow_prices : Client → Action World (Result (List (Price N)))
  unfolding fetch_day_ahead_prices
  fetch_tomorrow_prices c = do t ← now; fetch_day_ahead_prices c (add_day c.loc t)
