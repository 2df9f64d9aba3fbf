-- ===== src/Program/Launch/Chat.antt =====
-- Who can make the process of cmd/trader/main.go answer over Telegram.
use text.Mathlib.Text
use marstek_energy_trading.Prelude.{
  ◌≡◌, refl, ap, ◌∙◌, ◌&&◌, ◌||◌, Bool, true, false, List, [], ◌∷◌, String, arith, ℤ,
}
use marstek_energy_trading.Platform.{Platform}
use marstek_energy_trading.Service.Types.{ok, Env}
use marstek_energy_trading.Service.Machine.{Machine}
use marstek_energy_trading.Service.Status.{answer_commands, handle_telegram_commands}
use marstek_energy_trading.Clients.Telegram.{
  Update, Bot, Session, is_command, take_updates, fetch_updates, commands_in, poll_commands,
  poll_if_enabled,
}
use marstek_energy_trading.Clients.Format.{decimal}
use marstek_energy_trading.Program.Wiring.{Surroundings}
use marstek_energy_trading.Program.Launch.{Launch, clients, trader_env}

-- A request for the status from the configured chat is among the updates.
abbrev pub asks_status : String → List Update → Bool
asks_status chat_id [] = false
asks_status chat_id (u ∷ updates) =
    Text.◌==◌ (decimal u.message_chat_id) chat_id && Text.◌==◌ u.message_text "/status"
    || asks_status chat_id updates

abbrev has_status : List String → Bool
has_status [] = false
has_status (c ∷ commands) = Text.◌==◌ c "/status" || has_status commands

take_updates-silent :
    (chat_id : String) (last : ℤ) (updates : List Update)
    → asks_status chat_id updates ≡ false
    → has_status (take_updates chat_id last updates).1 ≡ false
unfolding take_updates is_command
take_updates-silent chat_id last [] h = refl
take_updates-silent chat_id last (u ∷ updates) h =
    ground (arith, take_updates-silent chat_id u.update_id updates)

module _ {N : Platform} {E : Env N} where
  answer_commands-silent :
      (commands : List String) (m : Machine E)
      → has_status commands ≡ false
      → (answer_commands commands m).1 ≡ m
  unfolding answer_commands
  answer_commands-silent [] m h = refl
  answer_commands-silent (c ∷ commands) m h = ground (arith, answer_commands-silent commands m)

  handle-silent :
      (commands : List String) (m : Machine E)
      → E.telegram_enabled ≡ true
      → (E.poll_commands m.world).0 ≡ ok commands
      → has_status commands ≡ false
      → (handle_telegram_commands m).1 ≡ record m { world = (E.poll_commands m.world).1 }
  unfolding handle_telegram_commands
  handle-silent commands m on got silent = ground (
    arith,
    answer_commands-silent commands (record m { world = (E.poll_commands m.world).1 }) silent,
  )

module _ {N : Platform} (B : Bot N) where
  poll_commands-taken :
      (updates : List Update) (s : Session B)
      → s.client.enabled ≡ true
      → (fetch_updates B s).0 ≡ ok updates
      → (poll_commands B s).0 ≡ ok (take_updates s.client.chat_id s.client.last_update_id updates).1
  unfolding poll_commands
  poll_commands-taken updates s enabled got =
      ap (λ b. (poll_if_enabled B b s).0) enabled
      ∙ ap (λ r. (commands_in B s.client (fetch_updates B s).1 r).0) got

module _ {N : Platform} {S : Surroundings N} (l : Launch S) where
  -- A poll.
  abbrev pub polled : Machine (trader_env l) → Machine (trader_env l)
  polled m = record m { world = (Env.poll_commands (trader_env l) m.world).1 }

  -- Where the bot is configured and the updates that it gets hold no request for the status from the
  -- configured chat, whatever other chats ask, the handler of Telegram commands does nothing but the
  -- poll: it posts no message, reads no battery, and changes no state.
  pub handle_telegram_commands-silent :
      (updates : List Update) (m : Machine (trader_env l))
      → (clients l).telegram.enabled ≡ true
      → m.world.session.client.enabled ≡ true
      → (fetch_updates S.bot m.world.session).0 ≡ ok updates
      → asks_status m.world.session.client.chat_id updates ≡ false
      → (handle_telegram_commands m).1 ≡ polled m
  handle_telegram_commands-silent updates m on enabled got silent =
      let c = m.world.session.client in
      handle-silent (take_updates c.chat_id c.last_update_id updates).1 m on
        (poll_commands-taken S.bot updates m.world.session enabled got)
        (take_updates-silent c.chat_id c.last_update_id updates silent)
