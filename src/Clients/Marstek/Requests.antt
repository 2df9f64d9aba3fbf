-- ===== src/Clients/Marstek/Requests.antt =====
-- The operations of clients/marstek/client.go.
use marstek_energy_trading.Prelude.{
  ℕ, zero, suc, Bool, true, false, Option, none, some, String, ℤ, pos, neg, ltb_ℤ, if◌then◌else◌,
}
use marstek_energy_trading.Platform.{Platform}
use marstek_energy_trading.Service.Types.{Result, ok, failed, Command}
use marstek_energy_trading.Clients.Wire.{Action, pure, ◌>>=◌, decoded}
use marstek_energy_trading.Clients.Marstek.Types.{
  Response, DeviceInfo, BatteryStatus, EsStatus, EsMode, Method, get_device, bat_get_status,
  es_get_status, es_get_mode, set_passive, set_auto, Udp, Socket,
}
use marstek_energy_trading.Clients.Marstek.Socket.{send_context}

-- The raw result of a response.
abbrev pub result_of : Result Response → Result String
result_of (failed e) = failed e
result_of (ok resp) = ok resp.result

-- The error of a change of the mode: none only for the answer `true`.
abbrev pub set_error : Result Bool → Option String
set_error (failed e) = some e
set_error (ok true) = none
set_error (ok false) = some "set mode failed"

module _ {N : Platform} where
  open N use {literal}

  -- Firmware that leaves the flag out is read as permitting.
  abbrev pub permit_below_full : BatteryStatus N → BatteryStatus N
  permit_below_full status =
      if ltb_ℤ status.soc (pos 100) then record status { charging_flag = true } else status

  abbrev pub minimal_status : EsStatus N → BatteryStatus N
  minimal_status es = record {
    id = pos 0;
    soc = es.battery_soc;
    charging_flag = true;
    discharg_flag = true;
    temperature = literal (pos 0) 1;
    capacity = literal (pos 0) 1;
    rated_capacity = literal (pos 0) 1;
  }

module _ {N : Platform} {U : Udp N} where
  open N use {Float}

  unfoldable pub request :
      {A : Type 0} → (String → Option A) → Method → Action (Socket U) (Result A)
  unfolding send_context decoded
  request decode method = do resp ← send_context method; pure (decoded decode (result_of resp))

  unfoldable pub discover : Action (Socket U) (Result DeviceInfo)
  unfolding request
  discover = request U.decode_device_info get_device

  unfoldable pub get_es_status : Action (Socket U) (Result (EsStatus N))
  unfolding request
  get_es_status = request U.decode_es_status es_get_status

  unfoldable pub get_battery_power : Action (Socket U) (Result Float)
  unfolding get_es_status
  get_battery_power = do
    status ← get_es_status
    pure (elim status [ failed e ↦ failed e | ok st ↦ ok st.battery_power ])

  unfoldable pub get_es_mode : Action (Socket U) (Result (EsMode N))
  unfolding request
  get_es_mode = request U.decode_es_mode es_get_mode

  -- The fallback; its own error is dropped for the last one.
  unfoldable pub status_from_es : String → Action (Socket U) (Result (BatteryStatus N))
  unfolding get_es_status
  status_from_es last_err = do
    es ← get_es_status
    pure (elim es [ failed e ↦ failed last_err | ok st ↦ ok (minimal_status st) ])

  abbrev pub status_on :
      (String → Action (Socket U) (Result (BatteryStatus N)))
      → Result (BatteryStatus N)
      → Action (Socket U) (Result (BatteryStatus N))
  status_on next (failed e) = next e
  status_on next (ok status) = pure (ok (permit_below_full status))

  -- The attempts left, and the error of the last one.
  unfoldable pub try_status : ℕ → String → Action (Socket U) (Result (BatteryStatus N))
  unfolding request status_from_es
  try_status zero last_err = status_from_es last_err
  try_status (suc attempts) last_err = do
    status ← request U.decode_battery_status bat_get_status
    status_on (λ e. try_status attempts e) status

  unfoldable pub get_battery_status : Action (Socket U) (Result (BatteryStatus N))
  unfolding try_status
  get_battery_status = try_status 2 ""

  unfoldable pub set_mode : Method → Action (Socket U) (Option String)
  unfolding request
  set_mode method = do result ← request U.decode_set_result method; pure (set_error result)

  unfoldable pub set_passive_mode : ℤ → ℤ → Action (Socket U) (Option String)
  unfolding set_mode
  set_passive_mode power cd_time = set_mode (set_passive power cd_time)

  unfoldable pub set_auto_mode : Action (Socket U) (Option String)
  unfolding set_mode
  set_auto_mode = set_mode set_auto

  unfoldable pub charge : ℤ → ℤ → Action (Socket U) (Option String)
  unfolding set_passive_mode
  charge power_w timeout_s = set_passive_mode (neg power_w) timeout_s

  unfoldable pub discharge : ℤ → ℤ → Action (Socket U) (Option String)
  unfolding set_passive_mode
  discharge power_w timeout_s = set_passive_mode power_w timeout_s

  unfoldable pub idle : Action (Socket U) (Option String)
  unfolding set_auto_mode
  idle = set_auto_mode

  -- The commands of the engine.
  unfoldable pub perform : Command → Action (Socket U) (Option String)
  unfolding charge discharge set_passive_mode idle
  perform (Command.charge power_w timeout_s) = charge power_w timeout_s
  perform (Command.discharge power_w timeout_s) = discharge power_w timeout_s
  perform (Command.set_passive_mode power_w timeout_s) = set_passive_mode power_w timeout_s
  perform Command.stop = idle
