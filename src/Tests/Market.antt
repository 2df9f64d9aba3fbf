-- ===== src/Tests/Market.antt =====
-- Witness for the prices of Nord Pool, over a server that answers with two entries.
use text.Mathlib.Text
use marstek_energy_trading.Prelude.{
  ◌≡◌, ◌↔◌, Option, none, some, List, [], ◌∷◌, String, pos, if◌then◌else◌,
}
use marstek_energy_trading.Platform.{Time}
use marstek_energy_trading.Analyzer.Types.{Price}
use marstek_energy_trading.Service.Types.{ok}
use marstek_energy_trading.Clients.Wire.{body_of, decoded}
use marstek_energy_trading.Clients.Nordpool.{
  MultiIndexEntry, Market, Client, request_url, fetch_day_ahead_prices,
}
use marstek_energy_trading.Clients.Nordpool.Prices.{IsPriced, fetch_day_ahead_prices_iff}
use marstek_energy_trading.Tests.Numbers.{numbers}

abbrev entries : List (MultiIndexEntry numbers)
entries =
    record { delivery_start = "00:00"; entry_per_area = ("NL", pos 80_000) ∷ [] }
    ∷ record {
      delivery_start = "00:15";
      entry_per_area = ("DE", pos 1_000) ∷ ("NL", pos 90_000) ∷ [];
    }
    ∷ []

abbrev time_of : String → Option Time
time_of text =
    if Text.◌==◌ text "00:00" then some 1 else if Text.◌==◌ text "00:15" then some 2 else none

abbrev pub market : Market numbers
market = record {
  World = String;
  Location = String;
  now = λ w. (1, w);
  format_date = λ loc t. "2026-01-01";
  add_day = λ loc t. t;
  encode_values = λ values. "";
  exchange = λ url w. (ok (record { status = 200; body = w }), w);
  decode_entries = λ body. some entries;
  parse_rfc3339 = time_of;
}

abbrev pub client : Client market
client = record { area = "NL"; currency = "EUR"; loc = none }

abbrev prices : List (Price numbers)
prices = record { time = 1; value = pos 80 } ∷ record { time = 2; value = pos 90 } ∷ []

fetch_day_ahead_prices_iff_example :
    ((fetch_day_ahead_prices market client 1 "day").0 ≡ ok prices) ↔ (
      (found : List (MultiIndexEntry numbers)) × (decoded market.decode_entries
          (body_of (market.exchange (request_url market client 1) "day").0)
        ≡ ok found)
      × IsPriced market "NL" found prices)
fetch_day_ahead_prices_iff_example = fetch_day_ahead_prices_iff market client 1 "day" prices
