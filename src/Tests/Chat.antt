-- ===== src/Tests/Chat.antt =====
-- Witness for the polls of the bot, over a server that holds three updates.
use text.Mathlib.Text
use marstek_energy_trading.Prelude.{
  ◌≡◌, refl, subst, true, Bool-cases, inl, inr, Option, some, List, [], ◌∷◌, String, ℤ, pos, leb_ℤ,
  ◌+ℤ◌, if◌then◌else◌, arith,
}
use marstek_energy_trading.Service.Types.{ok}
use marstek_energy_trading.Clients.Telegram.{
  Update, Bot, Session, decode_answer, fetch_updates, poll_commands,
}
use marstek_energy_trading.Clients.Telegram.Delivery.{
  IsFrom, IsServer, updates_at, ArePrior, commands_of, poll_commands_once,
}
use marstek_energy_trading.Tests.Numbers.{numbers}

abbrev pub seventh : Update
seventh = record { update_id = pos 7; message_chat_id = pos 42; message_text = "/status" }

abbrev pub eighth : Update
eighth = record { update_id = pos 8; message_chat_id = pos 13; message_text = "/status" }

abbrev ninth : Update
ninth = record { update_id = pos 9; message_chat_id = pos 42; message_text = "hello" }

-- The server renders two updates at once, or the third.
abbrev body_from : ℤ → String
body_from offset =
    if leb_ℤ offset (pos 7) then "two" else if leb_ℤ offset (pos 9) then "one" else "none"

abbrev updates_in : String → Option (List Update)
updates_in body =
    if Text.◌==◌ body "two"
    then some (seventh ∷ eighth ∷ [])
    else if Text.◌==◌ body "one"
    then some (ninth ∷ [])
    else some []

abbrev pub bot : Bot numbers
bot = record {
  World = String;
  post = λ url body w. (ok (record { status = 200; body = "" }), w);
  get_updates = λ token offset w. (ok (record { status = 200; body = body_from offset }), w);
  marshal = λ request. ok request.text;
  decode_updates = updates_in;
  fixed = λ digits x. "";
  clock = λ t. "";
  calendar_day = λ t. "";
}

bot-IsFrom :
    (token : String) (offset : ℤ) (w : String) (updates : List Update)
    → decode_answer bot (bot.get_updates token offset w).0 ≡ ok updates
    → IsFrom offset updates
unfolding ◌+ℤ◌
bot-IsFrom token offset w updates h = elim (Bool-cases (leb_ℤ offset (pos 7))) [
  | inl low ↦
      let e : seventh ∷ eighth ∷ [] ≡ updates = cc (rw low at h) in
      subst (IsFrom offset) e (ground arith, (omega arith, tt))
  | inr high ↦ elim (Bool-cases (leb_ℤ offset (pos 9))) [
    | inl low ↦
        let e : ninth ∷ [] ≡ updates = cc (rw (high, low) at h) in
        subst (IsFrom offset) e (ground arith, tt)
    | inr past ↦ let e : [] ≡ updates = cc (rw (high, past) at h) in subst (IsFrom offset) e tt
  ]
]

abbrev session : Session bot
session = record {
  client = record { bot_token = "token"; chat_id = "42"; enabled = true; last_update_id = pos 0 };
  world = "";
}

bot-IsServer : IsServer bot
bot-IsServer = record { from_offset = bot-IsFrom }

-- The poll that follows a first one.
abbrev next_session : Session bot
next_session = record { client = (poll_commands bot session).1.client; world = "later" }

poll_commands_once_example :
    ((poll_commands bot session).0 ≡ commands_of bot "42" (fetch_updates bot session).0)
    × ArePrior bot (updates_at bot session) (updates_at bot next_session)
poll_commands_once_example = poll_commands_once bot bot-IsServer session "later" refl

-- The first poll returns one command, and the next one none.
polled :
    ((poll_commands bot session).0 ≡ ok ("/status" ∷ []))
    × ((poll_commands bot next_session).0 ≡ ok [])
unfolding poll_commands ◌+ℤ◌
polled = (refl, refl)
