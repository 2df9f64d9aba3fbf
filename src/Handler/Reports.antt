-- ===== src/Handler/Reports.antt =====
-- What handler/handler.go reports of the engine at `/status` and `/metrics`.
use marstek_energy_trading.Prelude.{◌≡◌, refl, ap, sym, Option, none, some, [], ◌∷◌, if◌then◌else◌}
use marstek_energy_trading.Platform.{Time, Platform, IsDecimal}
use marstek_energy_trading.Recorder.History.{get_history}
use marstek_energy_trading.Recorder.History.Total.{total_pnl-eq-get_total_pnl}
use marstek_energy_trading.Service.Types.{Result, ok, failed, State, EsStatus, Service, Env}
use marstek_energy_trading.Service.Machine.{Machine}
use marstek_energy_trading.Service.Status.{status_at, get_current_status}
use marstek_energy_trading.Handler.{
  StatusResponse, Gauges, json_status, status_handler, update_metrics,
}

module _ {N : Platform} where
  status_at-state :
      (s : Service N) (answer : Result (EsStatus N)) (t : Time)
      → (status_at N s answer t).state ≡ s.state
  unfolding status_at
  status_at-state s (ok es) t = refl
  status_at-state s (failed e) t = refl

module _ {N : Platform} {E : Env N} where
  open N use {float_of_dec}

  -- The answer of `/status` and the gauges say the same of the state, the battery and the profit, and
  -- the engine is left as it was.
  pub record Agree (m : Machine E) (r : StatusResponse N) (g : Gauges N) : Type 0 where
    pub state : g.trader_state ≡ (r.current.state, 1) ∷ []
    pub battery :
        g.battery_soc ≡ (if r.current.battery_available then some r.current.battery_soc else none)
    pub pnl : g.trader_pnl ≡ float_of_dec r.history.total_pnl

  -- An engine that is read only.
  pub record IsRead (m : Machine E) (o : Option (Machine E)) : Type 0 where
    pub read : Machine E
    pub same : o ≡ some read
    pub svc : read.svc ≡ m.svc
    pub trades : read.trades ≡ m.trades
    pub commands : read.commands ≡ m.commands

  -- For a lawful decimal type and an engine in any state: `/status` answers 200 and `/metrics` agrees
  -- with it on the state, on the charge of the battery (which is not shown when the battery gives no
  -- answer) and on the total profit, which `/status` sums by day and `/metrics` over all trades;
  -- neither changes the engine, its trades or the commands that were sent.
  pub status_handler-update_metrics :
      (laws : IsDecimal N) (m : Machine E) (g : Gauges N)
      → (r : StatusResponse N) × ((status_handler (some m)).0.content ≡ json_status r)
        × ((status_handler (some m)).0.code ≡ 200)
        × Agree m r (update_metrics (some m) g).0
        × IsRead m (status_handler (some m)).1
        × IsRead m (update_metrics (some m) g).1
  unfolding status_handler update_metrics get_current_status
  status_handler-update_metrics laws m g =
      let (current, m') = get_current_status m in
      let r : StatusResponse N = record { current = current; history = get_history N m'.trades } in
      let kept : IsRead m (some m') = record {
        read = m';
        same = refl;
        svc = refl;
        trades = refl;
        commands = refl;
      } in
      (
        r,
        refl,
        refl,
        record {
          state =
              ap (λ (x : State). (x, 1) ∷ [])
                (sym (
                  status_at-state m.svc (E.get_es_status m.world).0
                    (E.now (E.get_es_status m.world).1).0));
          battery = refl;
          pnl = ap float_of_dec (sym (total_pnl-eq-get_total_pnl N laws m.trades));
        },
        kept,
        kept,
      )
