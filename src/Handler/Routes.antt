-- ===== src/Handler/Routes.antt =====
-- The router of handler/handler.go. chi is a library: it chooses the route of a request, and answers
-- itself where there is none.
use marstek_energy_trading.Prelude.{Option, none, some, List, [], ◌∷◌, String}
use marstek_energy_trading.Platform.{Platform}
use marstek_energy_trading.Service.Types.{Env}
use marstek_energy_trading.Service.Machine.{Machine}
use marstek_energy_trading.Handler.{Reply, Gauges, health_handler, status_handler, update_metrics}

pub data Endpoint : Type 0 where
  health metrics_page status : Endpoint

pub record Route : Type 0 where
  pub method : String
  pub path : String
  pub endpoint : Endpoint

-- `NewRouter`.
abbrev pub new_router : List Route
new_router =
    record { method = "GET"; path = "/health"; endpoint = health }
    ∷ record { method = "GET"; path = "/metrics"; endpoint = metrics_page }
    ∷ record { method = "GET"; path = "/status"; endpoint = status }
    ∷ []

pub record Request : Type 0 where
  pub method : String
  pub path : String

module _ (N : Platform) where
  -- chi, and the answer of promhttp for the gauges.
  pub record Mux : Type 0 where
    pub find : List Route → Request → Option Endpoint
    pub refuse : Request → Reply N
    pub serve_metrics : Gauges N → Reply N

module _ {N : Platform} (E : Env N) where
  -- The handler's service and the registered gauges.
  pub record Server : Type 0 where
    pub svc : Option (Machine E)
    pub gauges : Gauges N

module _ {N : Platform} {E : Env N} (X : Mux N) where
  -- `metricsHandler`.
  unfoldable pub metrics_handler : Server E → Reply N × Server E
  metrics_handler s =
      let (gauges, svc) = update_metrics s.svc s.gauges in
      (X.serve_metrics gauges, record { svc = svc; gauges = gauges })

  abbrev pub answer : Option Endpoint → Request → Server E → Reply N × Server E
  answer none r s = (X.refuse r, s)
  answer (some health) r s = (health_handler N, s)
  answer (some metrics_page) r s = metrics_handler s
  answer (some status) r s =
      let (reply, svc) = status_handler s.svc in (reply, record s { svc = svc })

  unfoldable pub serve : Request → Server E → Reply N × Server E
  unfolding metrics_handler
  serve r s = answer (X.find new_router r) r s
