-- ===== src/Handler.antt =====
-- handler/handler.go: the answers of the HTTP server. The router, the encoding of the bodies and the
-- registry of the metrics are libraries; a gauge that is NaN is `none`.
pub mod Reports
pub mod Routes
use marstek_energy_trading.Prelude.{ℕ, Option, none, some, List, [], ◌∷◌, String, ℤ, if◌then◌else◌}
use marstek_energy_trading.Platform.{Platform}
use marstek_energy_trading.Recorder.Types.{History}
use marstek_energy_trading.Recorder.History.{get_history, get_total_pnl}
use marstek_energy_trading.Service.Types.{State, CurrentStatus, Env}
use marstek_energy_trading.Service.Machine.{Machine}
use marstek_energy_trading.Service.Status.{get_current_status}

module _ (N : Platform) where
  open N use {Float}

  pub record StatusResponse : Type 0 where
    pub current : CurrentStatus N
    pub history : History N

  -- The three gauges.
  pub record Gauges : Type 0 where
    pub battery_soc : Option ℤ
    pub trader_state : List (State × ℕ)
    pub trader_pnl : Float

  pub data Body : Type 0 where
    plain : String → Body
    json_error : String → Body
    json_status : StatusResponse → Body
    metrics : Gauges → Body

  pub record Reply : Type 0 where
    pub code : ℕ
    pub content_type : String
    pub content : Body

  unfoldable pub health_handler : Reply
  health_handler = record { code = 200; content_type = "text/plain"; content = plain "ok" }

  unfoldable pub write_json : ℕ → Body → Reply
  write_json status content = record {
    code = status;
    content_type = "application/json";
    content = content;
  }

module _ {N : Platform} {E : Env N} where
  open N use {float_of_dec}

  -- The handler may have no service.
  unfoldable pub status_handler : Option (Machine E) → Reply N × Option (Machine E)
  unfolding write_json
  status_handler none = (write_json N 503 (json_error "service not ready"), none)
  status_handler (some m) =
      let (current, m') = get_current_status m in
      let response : StatusResponse N = record {
        current = current;
        history = get_history N m'.trades;
      } in
      (write_json N 200 (json_status response), some m')

  -- The label of the state is the only one after a reset.
  unfoldable pub update_metrics : Option (Machine E) → Gauges N → Gauges N × Option (Machine E)
  update_metrics none g = (g, none)
  update_metrics (some m) g =
      let (status, m') = get_current_status m in
      (
        record {
          battery_soc = if status.battery_available then some status.battery_soc else none;
          trader_state = (m.svc.state, 1) ∷ [];
          trader_pnl = float_of_dec (get_total_pnl N m.trades);
        },
        some m',
      )
