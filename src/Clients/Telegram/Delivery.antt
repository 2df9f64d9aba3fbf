-- ===== src/Clients/Telegram/Delivery.antt =====
-- Which updates `PollCommands` of clients/telegram/client.go sees in one poll and in the next.
use marstek_energy_trading.Prelude.{
  ◌≡◌, refl, ap, subst, ◌∙◌, inl, inr, Bool-cases, Bool, true, List, [], ◌∷◌, map, All, String, ℤ,
  pos, ◌+ℤ◌, ◌≤ℤ◌, ◌<ℤ◌, int_laws, arith, if◌then◌else◌,
}
use marstek_energy_trading.Platform.{Platform}
use marstek_energy_trading.Service.Types.{Result, ok, failed}
use marstek_energy_trading.Clients.Telegram.{
  Update, Client, Bot, is_command, take_updates, Session, decode_answer, fetch_updates, commands_in,
  poll_if_enabled, poll_commands,
}

-- Identifiers that grow from `offset` on.
abbrev pub IsFrom : ℤ → List Update → Type 0
IsFrom offset [] = Unit
IsFrom offset (u ∷ updates) = (offset ≤ℤ u.update_id) × IsFrom (u.update_id +ℤ pos 1) updates

abbrev pub AreUpTo : ℤ → List Update → Type 0
AreUpTo last = All (λ (u : Update). u.update_id ≤ℤ last)

last-le :
    (chat_id : String) (last : ℤ) (updates : List Update)
    → IsFrom (last +ℤ pos 1) updates
    → last ≤ℤ (take_updates chat_id last updates).0
unfolding take_updates
last-le chat_id last [] h = omega arith
last-le chat_id last (u ∷ updates) (h, hs) =
    let ih = last-le chat_id u.update_id updates hs in omega int_laws

take_updates-AreUpTo :
    (chat_id : String) (last : ℤ) (updates : List Update)
    → IsFrom (last +ℤ pos 1) updates
    → AreUpTo (take_updates chat_id last updates).0 updates
unfolding take_updates
take_updates-AreUpTo chat_id last [] h = tt
take_updates-AreUpTo chat_id last (u ∷ updates) (h, hs) =
    (last-le chat_id u.update_id updates hs, take_updates-AreUpTo chat_id u.update_id updates hs)

-- A later poll sees greater identifiers only.
AreAfter : ℤ → List Update → Type 0
AreAfter last = All (λ (v : Update). last <ℤ v.update_id)

IsFrom-AreAfter :
    (last offset : ℤ) (updates : List Update)
    → last <ℤ offset
    → IsFrom offset updates
    → AreAfter last updates
unfolding AreAfter
IsFrom-AreAfter last offset [] lt h = tt
IsFrom-AreAfter last offset (u ∷ updates) lt (h, hs) =
    (omega arith, IsFrom-AreAfter last (u.update_id +ℤ pos 1) updates (omega int_laws) hs)

abbrev pub filter : {A : Type 0} → (A → Bool) → List A → List A
filter p [] = []
filter p (x ∷ xs) = let rest = filter p xs in if p x then x ∷ rest else rest

take_updates-commands :
    (chat_id : String) (last : ℤ) (updates : List Update)
    → (take_updates chat_id last updates).1
      ≡ map (λ (u : Update). u.message_text) (filter (is_command chat_id) updates)
unfolding take_updates
take_updates-commands chat_id last [] = refl
take_updates-commands chat_id last (u ∷ updates) = elim (Bool-cases (is_command chat_id u)) [
  | inl yes' ↦
      rw yes' (ap (λ l. u.message_text ∷ l) (take_updates-commands chat_id u.update_id updates))
  | inr no' ↦ rw no' (take_updates-commands chat_id u.update_id updates)
]

module _ {N : Platform} (B : Bot N) where
  -- The documented answer to `getUpdates`: the updates from the offset on, by growing identifier.
  pub record IsServer : Type 0 where
    pub from_offset :
        (token : String) (offset : ℤ) (w : Bot.World B) (updates : List Update)
        → decode_answer B (B.get_updates token offset w).0 ≡ ok updates
        → IsFrom offset updates

  -- The updates that the next poll gets.
  abbrev pub updates_or_none : Result (List Update) → List Update
  updates_or_none (ok updates) = updates
  updates_or_none (failed e) = []

  abbrev pub updates_at : Session B → List Update
  updates_at s = updates_or_none (fetch_updates B s).0

  -- Every update of `first` has a smaller identifier than every one of `second`.
  abbrev pub ArePrior : List Update → List Update → Type 0
  ArePrior first second =
      All (λ (u : Update). All (λ (v : Update). u.update_id <ℤ v.update_id) second) first

  AreUpTo-ArePrior :
      (last : ℤ) (first second : List Update)
      → AreUpTo last first
      → AreAfter last second
      → ArePrior first second
  unfolding AreAfter
  AreUpTo-ArePrior last [] second h k = tt
  AreUpTo-ArePrior last (u ∷ first) second (h, hs) k =
      (later second k, AreUpTo-ArePrior last first second hs k)
    where
      later :
          (l : List Update)
          → All (λ (v : Update). last <ℤ v.update_id) l
          → All (λ (v : Update). u.update_id <ℤ v.update_id) l
      later [] p = tt
      later (v ∷ l) (p, ps) = (omega arith, later l ps)

  -- The commands of a poll, by the answer of the server.
  abbrev pub commands_of : String → Result (List Update) → Result (List String)
  commands_of chat_id (failed e) = failed e
  commands_of chat_id (ok updates) =
      ok (map (λ (u : Update). u.message_text) (filter (is_command chat_id) updates))

  -- The updates that a next poll may get, after those of the poll before it.
  abbrev pub AreFrom : ℤ → Result (List Update) → Type 0
  AreFrom last r = IsFrom (last +ℤ pos 1) (updates_or_none r)

  commands_in-commands :
      (c : Client) (w : Bot.World B) (r : Result (List Update))
      → (commands_in B c w r).0 ≡ commands_of c.chat_id r
  commands_in-commands c w (failed e) = refl
  commands_in-commands c w (ok us) = ap ok (take_updates-commands c.chat_id c.last_update_id us)

  commands_in-ArePrior :
      (c : Client) (w : Bot.World B) (r r' : Result (List Update))
      → AreFrom c.last_update_id r
      → AreFrom (commands_in B c w r).1.client.last_update_id r'
      → ArePrior (updates_or_none r) (updates_or_none r')
  commands_in-ArePrior c w (failed e) r' h h' = tt
  commands_in-ArePrior c w (ok us) r' h h' =
      let last = (take_updates c.chat_id c.last_update_id us).0 in
      AreUpTo-ArePrior last us (updates_or_none r')
        (take_updates-AreUpTo c.chat_id c.last_update_id us h)
        (IsFrom-AreAfter last (last +ℤ pos 1) (updates_or_none r') (omega int_laws) h')

  fetch_updates-AreFrom :
      (server : IsServer) (s : Session B) → AreFrom s.client.last_update_id (fetch_updates B s).0
  fetch_updates-AreFrom server s = answer-AreFrom (fetch_updates B s).0 refl
    where
      answer-AreFrom :
          (r : Result (List Update)) → (fetch_updates B s).0 ≡ r → AreFrom s.client.last_update_id r
      answer-AreFrom (failed e) h = tt
      answer-AreFrom (ok updates) h =
          server.from_offset s.client.bot_token (s.client.last_update_id +ℤ pos 1) s.world updates h

  poll_commands-enabled :
      (s : Session B)
      → s.client.enabled ≡ true
      → poll_commands B s ≡ commands_in B s.client (fetch_updates B s).1 (fetch_updates B s).0
  unfolding poll_commands
  poll_commands-enabled s on = ap (λ (b : Bool). poll_if_enabled B b s) on

  -- With a bot that is enabled and a server that keeps to its documentation, a poll returns the commands
  -- among the updates of its answer, in their order, or the error of the answer; and every update of
  -- its answer has a smaller identifier than every update that the next poll gets, whatever happens in
  -- between, so that no command is returned twice.
  pub poll_commands_once :
      (server : IsServer) (s : Session B) (w : Bot.World B)
      → s.client.enabled ≡ true
      → let next : Session B = record { client = (poll_commands B s).1.client; world = w } in
        ((poll_commands B s).0 ≡ commands_of s.client.chat_id (fetch_updates B s).0)
        × ArePrior (updates_at s) (updates_at next)
  poll_commands_once server s w on =
      let next : Session B = record { client = (poll_commands B s).1.client; world = w } in
      let (answer, w') = fetch_updates B s in
      let e = poll_commands-enabled s on in
      let from =
        subst
          (λ (t : Result (List String) × Session B).
            AreFrom t.1.client.last_update_id (fetch_updates B next).0)
          e (fetch_updates-AreFrom server next) in
      (
        ap (λ (t : Result (List String) × Session B). t.0) e
            ∙ commands_in-commands s.client w' answer,
        commands_in-ArePrior s.client w' answer (fetch_updates B next).0
            (fetch_updates-AreFrom server s) from,
      )
