-- ===== src/Clients/Telegram.antt =====
-- The bot, clients/telegram/client.go: the client, `SendMessage` and `PollCommands`; the messages are
-- in Messages. The server, encoding/json and the rendering of dates and float64 numbers are parameters.
pub mod Messages
pub mod Delivery
use text.Mathlib.Text
use Prim.Native.String.{◌++◌ as ◌<>◌}
use marstek_energy_trading.Prelude.{
  ◌&&◌, ℕ, Bool, true, false, not, Option, none, some, List, [], ◌∷◌, String, ℤ, pos, ◌+ℤ◌, ◌==◌,
  if◌then◌else◌,
}
use marstek_energy_trading.Platform.{Platform, Time}
use marstek_energy_trading.Service.Types.{Result, ok, failed}
use marstek_energy_trading.Clients.Wire.{Action, Response, body_of, decoded, error_of}
use marstek_energy_trading.Clients.Format.{decimal}

-- `Update`, with the chat and the text of its message.
pub record Update : Type 0 where
  pub update_id : ℤ
  pub message_chat_id : ℤ
  pub message_text : String

pub record SendMessageRequest : Type 0 where
  pub chat_id : String
  pub text : String
  pub parse_mode : String

pub record Client : Type 0 where
  pub bot_token : String
  pub chat_id : String
  pub enabled : Bool
  pub last_update_id : ℤ

unfoldable pub new : String → String → Client
new bot_token chat_id = record {
  bot_token = bot_token;
  chat_id = chat_id;
  enabled = not (Text.◌==◌ bot_token "") && not (Text.◌==◌ chat_id "");
  last_update_id = pos 0;
}

module _ (N : Platform) where
  open N use {Float}

  -- `post` is by URL and body; `get_updates` is the GET of getUpdates by the token and the offset in its
  -- URL, with `timeout=1`. `fixed d x` is `%.df` of x; `clock` and `calendar_day` are the layouts "15:04" and "02 Jan 2006".
  pub record Bot : Type 1 where
    pub World : Type 0
    pub post : String → String → World → Result Response × World
    pub get_updates : String → ℤ → World → Result Response × World
    pub marshal : SendMessageRequest → Result String
    pub decode_updates : String → Option (List Update)
    pub fixed : ℕ → Float → String
    pub clock : Time → String
    pub calendar_day : Time → String

abbrev pub send_message_url : String → String
send_message_url token = "https://api.telegram.org/bot" <> token <> "/sendMessage"

-- Whether an update is a command from the configured chat.
unfoldable pub is_command : String → Update → Bool
unfolding decimal
is_command chat_id u =
    Text.◌==◌ (decimal u.message_chat_id) chat_id && Text.starts_with u.message_text "/"

-- The loop over the updates: the last id, and the commands.
unfoldable pub take_updates : String → ℤ → List Update → ℤ × List String
unfolding is_command
take_updates chat_id last [] = (last, [])
take_updates chat_id last (u ∷ updates) =
    let (last', commands) = take_updates chat_id u.update_id updates in
    (last', if is_command chat_id u then u.message_text ∷ commands else commands)

module _ {N : Platform} (B : Bot N) where
  pub record Session : Type 0 where
    pub client : Client
    pub world : Bot.World B

  -- The answer to a message that was marshalled.
  abbrev pub post_message : String → Result String → Bot.World B → Option String × Bot.World B
  post_message token (failed e) w = (some e, w)
  post_message token (ok data_text) w =
      let (answer, w') = B.post (send_message_url token) data_text w in
      (error_of (body_of answer), w')

  unfoldable pub send_message : String → Action Session (Option String)
  unfolding body_of
  send_message text s = elim s.client.enabled [
    | false ↦ (none, s)
    | true ↦
        let request : SendMessageRequest = record {
          chat_id = s.client.chat_id;
          text = text;
          parse_mode = "HTML";
        } in
        let (err, w) = post_message s.client.bot_token (B.marshal request) s.world in
        (err, record s { world = w })
  ]

  -- The updates in an answer; its status is not read.
  abbrev pub decode_answer : Result Response → Result (List Update)
  decode_answer (failed e) = failed e
  decode_answer (ok r) = elim (B.decode_updates r.body) [
    | none ↦ failed "decode response"
    | some updates ↦ ok updates
  ]

  -- The request for the updates after the last one.
  abbrev pub fetch_updates : Session → Result (List Update) × Bot.World B
  fetch_updates s =
      let (answer, w) =
        B.get_updates s.client.bot_token (s.client.last_update_id +ℤ pos 1) s.world in
      (decode_answer answer, w)

  abbrev pub commands_in :
      Client → Bot.World B → Result (List Update) → Result (List String) × Session
  commands_in c w (failed e) = (failed e, record { client = c; world = w })
  commands_in c w (ok updates) =
      let (last, commands) = take_updates c.chat_id c.last_update_id updates in
      (ok commands, record { client = record c { last_update_id = last }; world = w })

  abbrev pub poll_if_enabled : Bool → Action Session (Result (List String))
  poll_if_enabled false s = (ok [], s)
  poll_if_enabled true s = let (updates, w) = fetch_updates s in commands_in s.client w updates

  unfoldable pub poll_commands : Action Session (Result (List String))
  unfolding take_updates
  poll_commands s = poll_if_enabled s.client.enabled s
