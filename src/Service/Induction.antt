-- ===== src/Service/Induction.antt =====
-- An induction principle for the handlers of service/service.go: what every call of a collaborator
-- keeps, every handler keeps.
pub mod Steps
pub mod Sessions
pub mod Reports
pub mod Ticks
use marstek_energy_trading.Prelude.{
  Bool, true, false, Option, none, some, List, [], ◌∷◌, ◌++◌, ◌≡◌, refl, if◌then◌else◌, String,
}
use marstek_energy_trading.Platform.{Time, Duration, Platform}
use marstek_energy_trading.Recorder.Types.{Trade}
use marstek_energy_trading.Service.Types.{Command, Service, Notification, Env, Result, ok, failed}
use marstek_energy_trading.Service.Machine.{
  Machine, Action, pure, ◌>>=◌, skip, gets, modify, ask, command, send, notify, record_trade, is_ok,
}

module _ {N : Platform} (E : Env N) where
  -- A property of the recorded trades, of the commands that were sent and of the world.
  abbrev pub Relation : Type 1
  Relation = List (Trade N) → List (Command × Bool) → Env.World E → Type 0

  -- A call that sends no command keeps the relation.
  pub record Carries {A : Type 0} (P : Relation) (f : Env.World E → A × Env.World E) : Type 0 where
    pub carry :
        (ts : List (Trade N)) (l : List (Command × Bool)) (w : Env.World E)
        → P ts l w
        → P ts l (f w).1

  -- Every collaborator keeps the relation, a command by its own step.
  pub record IsKept (P : Relation) : Type 0 where
    pub command :
        (c : Command) (ts : List (Trade N)) (l : List (Command × Bool)) (w : Env.World E)
        → P ts l w
        → let (r, w') = E.command c w in P ts ((c, is_ok r) ∷ l) w'
    pub now : Carries P E.now
    pub wall_now : Carries P E.wall_now
    pub context_done : Carries P E.context_done
    pub get_battery_status : Carries P E.get_battery_status
    pub get_es_status : Carries P E.get_es_status
    pub get_battery_power : Carries P E.get_battery_power
    pub get_active_power : Carries P E.get_active_power
    pub ticks_before_deadline :
        (timeout interval : Duration) → Carries P (E.ticks_before_deadline timeout interval)
    pub connect : Carries P E.connect
    pub discover : Carries P E.discover
    pub fetch_today_prices : Carries P E.fetch_today_prices
    pub fetch_tomorrow_prices : Carries P E.fetch_tomorrow_prices
    pub poll_commands : Carries P E.poll_commands
    pub load_trades :
        (ts : List (Trade N)) (l : List (Command × Bool)) (w : Env.World E)
        → P ts l w
        → let ((ts', err), w') = E.load_trades ts w in P ts' l w'
    pub record_trade :
        (t : Trade N) (ts : List (Trade N)) (l : List (Command × Bool)) (w : Env.World E)
        → P ts l w
        → P (ts ++ t ∷ []) l (E.save_trades (ts ++ t ∷ []) w).1
    pub send :
        (n : Notification N) (ts : List (Trade N)) (l : List (Command × Bool)) (w : Env.World E)
        → P ts l w
        → P ts l (E.send n w)

module _ {N : Platform} {E : Env N} where
  pub record Keeps {A : Type 0} (P : Relation E) (act : Action E A) : Type 0 where
    pub at :
        (m : Machine E)
        → P m.trades m.commands m.world
        → P (act m).1.trades (act m).1.commands (act m).1.world

  module _ {P : Relation E} where
    pub Keeps-pure : {A : Type 0} (a : A) → Keeps P (pure a)
    Keeps-pure a = record { at = λ m h. h }

    pub Keeps-gets : {A : Type 0} (f : Service N → A) → Keeps P (gets f)
    Keeps-gets f = record { at = λ m h. h }

    pub Keeps-modify : (f : Service N → Service N) → Keeps P (modify f)
    Keeps-modify f = record { at = λ m h. h }

    -- A reading of the recorder.
    pub Keeps-read : {A : Type 0} (f : Machine E → A) → Keeps P (λ m. (f m, m))
    Keeps-read f = record { at = λ m h. h }

    pub Keeps-ask :
        {A : Type 0} (f : Env.World E → A × Env.World E) → Carries E P f → Keeps P (ask f)
    Keeps-ask f k = record { at = λ m h. k.carry m.trades m.commands m.world h }

    pub Keeps-if :
        {A : Type 0} (b : Bool) (yes_act no_act : Action E A)
        → Keeps P yes_act
        → Keeps P no_act
        → Keeps P (if b then yes_act else no_act)
    Keeps-if true y n k l = k
    Keeps-if false y n k l = l

    pub Keeps-bind :
        {A B : Type 0} (act : Action E A) (f : A → Action E B)
        → Keeps P act
        → ((a : A) → Keeps P (f a))
        → Keeps P (act >>= f)
    Keeps-bind act f k l = record { at = λ m h. (l (act m).0).at (act m).1 (k.at m h) }

    Keeps-at-option :
        {A B : Type 0} (f : Option A → Action E B)
        → Keeps P (f none)
        → ((a : A) → Keeps P (f (some a)))
        → (o : Option A) → Keeps P (f o)
    Keeps-at-option f k l none = k
    Keeps-at-option f k l (some a) = l a

    pub Keeps-bind-option :
        {A B : Type 0} (act : Action E (Option A)) (f : Option A → Action E B)
        → Keeps P act
        → Keeps P (f none)
        → ((a : A) → Keeps P (f (some a)))
        → Keeps P (act >>= f)
    Keeps-bind-option act f k l n = Keeps-bind act f k (Keeps-at-option f l n)

    Keeps-at-result :
        {A B : Type 0} (f : Result A → Action E B)
        → ((a : A) → Keeps P (f (ok a)))
        → ((e : String) → Keeps P (f (failed e)))
        → (r : Result A) → Keeps P (f r)
    Keeps-at-result f k l (ok a) = k a
    Keeps-at-result f k l (failed e) = l e

    pub Keeps-bind-result :
        {A B : Type 0} (act : Action E (Result A)) (f : Result A → Action E B)
        → Keeps P act
        → ((a : A) → Keeps P (f (ok a)))
        → ((e : String) → Keeps P (f (failed e)))
        → Keeps P (act >>= f)
    Keeps-bind-result act f k l n = Keeps-bind act f k (Keeps-at-result f l n)

    module _ (k : IsKept E P) where
      pub Keeps-command : (c : Command) → Keeps P (command {E = E} c)
      Keeps-command c = record { at = λ m h. k.command c m.trades m.commands m.world h }

      pub Keeps-send : (n : Notification N) → Keeps P (send {E = E} n)
      Keeps-send n = record { at = λ m h. k.send n m.trades m.commands m.world h }

      pub Keeps-now : Keeps P (ask E.now)
      Keeps-now = Keeps-ask _ k.now

      pub Keeps-wall_now : Keeps P (ask E.wall_now)
      Keeps-wall_now = Keeps-ask _ k.wall_now

      pub Keeps-context_done : Keeps P (ask E.context_done)
      Keeps-context_done = Keeps-ask _ k.context_done

      pub Keeps-get_battery_status : Keeps P (ask E.get_battery_status)
      Keeps-get_battery_status = Keeps-ask _ k.get_battery_status

      pub Keeps-get_es_status : Keeps P (ask E.get_es_status)
      Keeps-get_es_status = Keeps-ask _ k.get_es_status

      pub Keeps-get_battery_power : Keeps P (ask E.get_battery_power)
      Keeps-get_battery_power = Keeps-ask _ k.get_battery_power

      pub Keeps-get_active_power : Keeps P (ask E.get_active_power)
      Keeps-get_active_power = Keeps-ask _ k.get_active_power

      pub Keeps-connect : Keeps P (ask E.connect)
      Keeps-connect = Keeps-ask _ k.connect

      pub Keeps-discover : Keeps P (ask E.discover)
      Keeps-discover = Keeps-ask _ k.discover

      pub Keeps-fetch_today_prices : Keeps P (ask E.fetch_today_prices)
      Keeps-fetch_today_prices = Keeps-ask _ k.fetch_today_prices

      pub Keeps-fetch_tomorrow_prices : Keeps P (ask E.fetch_tomorrow_prices)
      Keeps-fetch_tomorrow_prices = Keeps-ask _ k.fetch_tomorrow_prices

      pub Keeps-poll_commands : Keeps P (ask E.poll_commands)
      Keeps-poll_commands = Keeps-ask _ k.poll_commands

      pub Keeps-ticks :
          (timeout interval : Duration) → Keeps P (ask (E.ticks_before_deadline timeout interval))
      Keeps-ticks timeout interval = Keeps-ask _ (k.ticks_before_deadline timeout interval)

      pub Keeps-notify : (n : Notification N) → Keeps P (notify {E = E} n)
      Keeps-notify n = Keeps-if E.telegram_enabled _ _ (Keeps-send n) (Keeps-pure tt)

      pub Keeps-record_trade : (t : Trade N) → Keeps P (record_trade {E = E} t)
      unfolding record_trade
      Keeps-record_trade t = record { at = λ m h. k.record_trade t m.trades m.commands m.world h }

pub ruleset keeps_rules = (
  Keeps-pure, Keeps-gets, Keeps-modify, Keeps-if, Keeps-bind, Keeps-bind-option, Keeps-bind-result,
  Keeps-command, Keeps-send, Keeps-notify, Keeps-record_trade, Keeps-ticks, Keeps-now,
  Keeps-wall_now, Keeps-context_done, Keeps-get_battery_status, Keeps-get_es_status,
  Keeps-get_battery_power, Keeps-get_active_power, Keeps-connect, Keeps-discover,
  Keeps-fetch_today_prices, Keeps-fetch_tomorrow_prices, Keeps-poll_commands,
)
