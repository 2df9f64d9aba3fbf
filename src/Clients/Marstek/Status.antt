-- ===== src/Clients/Marstek/Status.antt =====
-- The status of the battery with its retry and its fallback: `GetBatteryStatusContext` of
-- clients/marstek/client.go.
use marstek_energy_trading.Prelude.{
  ◌≡◌, refl, ◌⊎◌, true, false, Bool-cases, inl, inr, String, pos, ltb_ℤ,
}
use marstek_energy_trading.Platform.{Platform}
use marstek_energy_trading.Service.Types.{Result, ok, failed, succeeded}
use marstek_energy_trading.Clients.Marstek.Types.{
  BatteryStatus, EsStatus, bat_get_status, Udp, Socket,
}
use marstek_energy_trading.Clients.Marstek.Requests.{
  request, permit_below_full, get_es_status, status_from_es, try_status, get_battery_status,
}

module _ {N : Platform} where
  -- A status that agrees with the battery's answer in every field but the permission to charge, which
  -- it never takes away, and which it keeps from a full battery on.
  abbrev pub IsGiven : BatteryStatus N → BatteryStatus N → Type 0
  IsGiven answer status =
      (record status { charging_flag = answer.charging_flag } ≡ answer)
      × (answer.charging_flag ≡ true → status.charging_flag ≡ true)
      × (ltb_ℤ answer.soc (pos 100) ≡ false → status.charging_flag ≡ answer.charging_flag)

  permit_below_full-IsGiven : (answer : BatteryStatus N) → IsGiven answer (permit_below_full answer)
  permit_below_full-IsGiven answer = elim (Bool-cases (ltb_ℤ answer.soc (pos 100))) [
    | inl low ↦ rw low (refl, λ h. refl, λ h. cc)
    | inr full ↦ rw full (refl, λ h. h, λ h. refl)
  ]

module _ {N : Platform} {U : Udp N} where
  -- The first and the second request for the status, and the request of the fallback, each in the state
  -- that the one before leaves.
  abbrev pub first : Socket U → Result (BatteryStatus N) × Socket U
  first = request U.decode_battery_status bat_get_status

  abbrev pub second : Socket U → Result (BatteryStatus N) × Socket U
  second s = request U.decode_battery_status bat_get_status (first s).1

  abbrev pub fallback : Socket U → Result (EsStatus N) × Socket U
  fallback s = get_es_status (second s).1

  -- Where a status comes from: the first request, the second after the first failed, or the fallback
  -- after both failed, which takes the state of charge over and permits both directions.
  abbrev pub IsSourced : Socket U → BatteryStatus N → Type 0
  IsSourced s status =
      ((answer : BatteryStatus N) × ((first s).0 ≡ ok answer) × IsGiven answer status)
      ⊎ (((answer : BatteryStatus N) × (succeeded (first s).0 ≡ false)
            × ((second s).0 ≡ ok answer)
            × IsGiven answer status)
          ⊎ ((es : EsStatus N) × (succeeded (first s).0 ≡ false)
              × (succeeded (second s).0 ≡ false)
              × ((fallback s).0 ≡ ok es)
              × (status.soc ≡ es.battery_soc)
              × (status.charging_flag ≡ true)
              × (status.discharg_flag ≡ true)))

  -- An error is that of the second request, and all three requests failed.
  abbrev pub IsReported : Socket U → Result (BatteryStatus N) → Type 0
  IsReported s (ok status) = IsSourced s status
  IsReported s (failed e) =
      (succeeded (first s).0 ≡ false)
      × ((second s).0 ≡ failed e)
      × (succeeded (fallback s).0 ≡ false)

  status_from_es-IsReported :
      (s : Socket U) (e : String) (es : Result (EsStatus N))
      → succeeded (first s).0 ≡ false
      → (second s).0 ≡ failed e
      → (fallback s).0 ≡ es
      → IsReported s (status_from_es e (second s).1).0
  unfolding status_from_es
  status_from_es-IsReported s e (ok st) p q h =
      rw (h, status_from_es) (inr (inr (st, p, rw q refl, h, refl, refl, refl)))
  status_from_es-IsReported s e (failed e') p q h = rw (h, status_from_es) (p, q, rw h refl)

  second-IsReported :
      (s : Socket U) (e : String) (r : Result (BatteryStatus N))
      → succeeded (first s).0 ≡ false
      → (second s).0 ≡ r
      → IsReported s (try_status 1 e (first s).1).0
  unfolding try_status
  second-IsReported s e (ok status) p q =
      rw (q, try_status) (inr (inl (status, p, q, permit_below_full-IsGiven status)))
  second-IsReported s e (failed e') p q =
      rw (q, try_status) (status_from_es-IsReported s e' _ p q refl)

  first-IsReported :
      (s : Socket U) (r : Result (BatteryStatus N))
      → (first s).0 ≡ r
      → IsReported s (get_battery_status s).0
  unfolding get_battery_status try_status
  first-IsReported s (ok status) q =
      rw (q, get_battery_status, try_status) (inl (status, q, permit_below_full-IsGiven status))
  first-IsReported s (failed e) q =
      rw (q, get_battery_status, try_status) (second-IsReported s e _ (rw q refl) refl)

  -- A reported status is the answer to the first request, or to the second where the first failed, in
  -- every field but the permission to charge: a permission that the battery gives is kept, and from a
  -- full battery on it is as the battery says. Where both requests failed, the status has the state of
  -- charge of the fallback's answer and permits both directions. An error is that of the second
  -- request, and then both requests and the fallback failed.
  pub get_battery_status-IsReported : (s : Socket U) → IsReported s (get_battery_status s).0
  get_battery_status-IsReported s = first-IsReported s _ refl
