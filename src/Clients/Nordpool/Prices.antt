-- ===== src/Clients/Nordpool/Prices.antt =====
-- Which prices `FetchDayAheadPrices` of clients/nordpool/client.go makes of the server's entries.
use marstek_energy_trading.Prelude.{◌≡◌, refl, ◌↔◌, Option, none, some, List, [], ◌∷◌, String}
use marstek_energy_trading.Platform.{Platform, Time}
use marstek_energy_trading.Analyzer.Types.{Price}
use marstek_energy_trading.Service.Types.{Result, ok, failed}
use marstek_energy_trading.Clients.Wire.{decoded, body_of}
use marstek_energy_trading.Clients.Nordpool.{
  MultiIndexEntry, Market, area_price, Client, to_kwh, add_price, to_prices, prices_of, request_url,
  fetch_day_ahead_prices,
}

module _ {N : Platform} (M : Market N) where
  open N use {Float}

  -- One price to each entry, in order: at its start, and a thousandth of the price of the area.
  abbrev pub IsPriced : String → List (MultiIndexEntry N) → List (Price N) → Type 0
  IsPriced area [] [] = Unit
  IsPriced area [] (p ∷ prices) = ⊥
  IsPriced area (e ∷ entries) [] = ⊥
  IsPriced area (e ∷ entries) (p ∷ prices) =
      (M.parse_rfc3339 e.delivery_start ≡ some p.time)
      × ((per_mwh : Float) × (area_price N area e.entry_per_area ≡ some per_mwh)
          × (p.value ≡ to_kwh M per_mwh))
      × IsPriced area entries prices

  -- The first entry and the rest.
  IsAdded : Option Time → Option Float → Result (List (Price N)) → List (Price N) → Type 0
  IsAdded time per_mwh rest prices =
      (t : Time) × (v : Float) × (ps : List (Price N)) × (time ≡ some t)
      × (per_mwh ≡ some v)
      × (rest ≡ ok ps)
      × (prices ≡ record { time = t; value = to_kwh M v } ∷ ps)

  add_price-ok :
      (time : Option Time) (per_mwh : Option Float) (rest : Result (List (Price N)))
      (prices : List (Price N))
      → add_price M time per_mwh rest ≡ ok prices
      → IsAdded time per_mwh rest prices
  unfolding IsAdded
  add_price-ok none per_mwh rest prices h = cc
  add_price-ok (some t) none rest prices h = cc
  add_price-ok (some t) (some v) (failed e) prices h = cc
  add_price-ok (some t) (some v) (ok ps) prices h = (t, v, ps, refl, refl, refl, cc)

  to_prices-IsPriced :
      (area : String) (entries : List (MultiIndexEntry N)) (prices : List (Price N))
      → to_prices M area entries ≡ ok prices
      → IsPriced area entries prices
  unfolding to_prices IsAdded
  to_prices-IsPriced area [] [] h = tt
  to_prices-IsPriced area [] (p ∷ prices) h = cc
  to_prices-IsPriced area (e ∷ entries) prices h =
      let (t, v, ps, et, ev, er, same) =
        add_price-ok (M.parse_rfc3339 e.delivery_start) (area_price N area e.entry_per_area)
          (to_prices M area entries) prices h in
      rw same (et, (v, ev, refl), to_prices-IsPriced area entries ps er)

  IsPriced-to_prices :
      (area : String) (entries : List (MultiIndexEntry N)) (prices : List (Price N))
      → IsPriced area entries prices
      → to_prices M area entries ≡ ok prices
  unfolding to_prices
  IsPriced-to_prices area [] [] h = refl
  IsPriced-to_prices area [] (p ∷ prices) h = absurd h
  IsPriced-to_prices area (e ∷ entries) [] h = absurd h
  IsPriced-to_prices area (e ∷ entries) (p ∷ prices) (et, (v, ev, same), rest) =
      rw (et, ev, IsPriced-to_prices area entries prices rest, ← same) refl

  prices_of_iff :
      (area : String) (r : Result (List (MultiIndexEntry N))) (prices : List (Price N))
      → (prices_of M area r ≡ ok prices)
        ↔ ((entries : List (MultiIndexEntry N)) × (r ≡ ok entries) × IsPriced area entries prices)
  prices_of_iff area (failed e) prices = (λ h. cc, λ h. let (entries, q, p) = h in cc)
  prices_of_iff area (ok entries) prices = (
    λ h. (entries, refl, to_prices-IsPriced area entries prices h),
    λ h.
        let (entries', q, p) = h in
        let same : entries ≡ entries' = cc in rw same (IsPriced-to_prices area entries' prices p),
  )

  -- The prices of a day are returned exactly when the answer has status 200 and decodes to entries that
  -- each have a readable start and a price for the area; they are then the entries' prices, one to each
  -- entry and in order, in EUR/kWh.
  pub fetch_day_ahead_prices_iff :
      (c : Client M) (date : Time) (w : M.World) (prices : List (Price N))
      → ((fetch_day_ahead_prices M c date w).0 ≡ ok prices) ↔ (
          (entries : List (MultiIndexEntry N)) × (decoded M.decode_entries
              (body_of (M.exchange (request_url M c date) w).0)
            ≡ ok entries)
          × IsPriced c.area entries prices)
  unfolding fetch_day_ahead_prices
  fetch_day_ahead_prices_iff c date w prices =
      prices_of_iff c.area
        (decoded M.decode_entries (body_of (M.exchange (request_url M c date) w).0)) prices
