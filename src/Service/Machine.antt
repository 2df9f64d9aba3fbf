-- ===== src/Service/Machine.antt =====
-- The state that the handlers of service/service.go act on, and the actions that they are made of.
--
-- The main loop of `Start` runs one handler at a time, and the HTTP handlers only read, so the lock
-- that a handler gives up during a call of a collaborator is taken by no other writer: a handler is a
-- function of the whole state. `commands` records what was sent to the battery, the latest first, and
-- whether the call succeeded; the code reads none of it.
use marstek_energy_trading.Prelude.{
  Bool, true, false, Option, none, some, List, [], ◌∷◌, ◌++◌, String, if◌then◌else◌,
}
use marstek_energy_trading.Platform.{Time, Platform}
use marstek_energy_trading.Recorder.Types.{Trade}
use marstek_energy_trading.Service.Types.{Command, Service, Notification, Env}

abbrev pub is_ok : Option String → Bool
is_ok none = true
is_ok (some e) = false

module _ {N : Platform} (E : Env N) where
  pub record Machine : Type 0 where
    pub svc : Service N
    pub trades : List (Trade N)
    pub commands : List (Command × Bool)
    pub world : Env.World E

  abbrev pub Action : Type 0 → Type 0
  Action A = Machine → A × Machine

module _ {N : Platform} {E : Env N} where
  abbrev pub pure : {A : Type 0} → A → Action E A
  pure a m = (a, m)

  infixl 5 ◌>>=◌ ◌>>◌
  abbrev pub ◌>>=◌ : {A B : Type 0} → Action E A → (A → Action E B) → Action E B
  ◌>>=◌ act f m = let (a, m') = act m in f a m'

  abbrev pub ◌>>◌ : {A B : Type 0} → Action E A → Action E B → Action E B
  act >> next = act >>= λ _. next

  abbrev pub skip : Action E (Unit {0})
  skip = pure tt

  abbrev pub gets : {A : Type 0} → (Service N → A) → Action E A
  gets f m = (f m.svc, m)

  abbrev pub modify : (Service N → Service N) → Action E (Unit {0})
  modify f m = (tt, record m { svc = f m.svc })

  -- A call of a collaborator that does not control the battery.
  abbrev pub ask : {A : Type 0} → (Env.World E → A × Env.World E) → Action E A
  ask f m = let (a, w) = f m.world in (a, record m { world = w })

  abbrev pub now : Action E Time
  now = ask E.now

  abbrev pub command : Command → Action E (Option String)
  command c m =
      let (r, w) = E.command c m.world in
      (r, record m { commands = (c, is_ok r) ∷ m.commands; world = w })

  abbrev pub send : Notification N → Action E (Unit {0})
  send n m = (tt, record m { world = E.send n m.world })

  -- A notification that is skipped when Telegram is not configured; a failure is only logged.
  abbrev pub notify : Notification N → Action E (Unit {0})
  notify n = if E.telegram_enabled then send n else skip

  -- `RecordTrade`; the callers only log its error.
  unfoldable pub record_trade : Trade N → Action E (Option String)
  record_trade trade m =
      let trades = m.trades ++ trade ∷ [] in
      let (r, w) = E.save_trades trades m.world in (r, record m { trades = trades; world = w })
