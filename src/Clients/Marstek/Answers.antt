-- ===== src/Clients/Marstek/Answers.antt =====
-- What `sendContext` of clients/marstek/client.go takes for the answer to its request, and what that
-- makes of the commands.
use mathlib.Core.List.{append_assoc}
use marstek_energy_trading.Prelude.{
  ℕ, zero, suc, ◌+◌, ◌≡◌, ◌≢◌, refl, ◌∙◌, ap, sym, subst, Bool, true, false, Bool-cases, inl, inr,
  Option, none, some, Option-cases, List, [], ◌∷◌, ◌++◌, String, neg, All, All-append,
}
use marstek_energy_trading.Platform.{Platform}
use marstek_energy_trading.Service.Types.{Result, ok, failed, Command}
use marstek_energy_trading.Clients.Wire.{Action, decoded}
use marstek_energy_trading.Clients.Marstek.Types.{
  RpcError, Response, Method, set_passive, set_auto, Event, sent, received, Udp, Socket,
}
use marstek_energy_trading.Clients.Marstek.Socket.{
  answer_to, outcome, ask, note, read_failed, read_on, read_loop, unless_failed, or_fail,
  read_answer, transmit, exchange_if_connected, lock_loop, lock_context, locked_exchange,
  send_context,
}
use marstek_energy_trading.Clients.Marstek.Packets.{
  IsAnswer, IsOther, answer_to-IsAnswer, answer_to-IsOther,
}
use marstek_energy_trading.Clients.Marstek.Requests.{
  result_of, set_error, request, set_mode, perform,
}

module _ {N : Platform} (U : Udp N) where
  -- A packet that is no answer to request `id`.
  abbrev IsSkipped : ℕ → Event → Type 0
  IsSkipped id event = (packet : String) × (event ≡ received packet) × IsOther U id packet

  -- From the log `old` the packets that are no answer were read, and then the answer `resp`.
  pub record IsRead (id : ℕ) (resp : Response) (old new : List Event) : Type 0 where
    pub packet : String
    pub skipped : List Event
    pub answer : IsAnswer U id packet resp
    pub fine : resp.error ≡ none
    pub skips : All (IsSkipped id) skipped
    pub log-eq : new ≡ received packet ∷ skipped ++ old

  -- The request went out under `id`, and `resp` was read as its answer.
  abbrev pub IsAnswered : ℕ → Method → Response → List Event → List Event → Type 0
  IsAnswered id method resp old new = IsRead id resp (sent id method ∷ old) new

outcome-ok :
    (r resp : Response) (e : Option RpcError)
    → r.error ≡ e
    → outcome r e ≡ ok resp
    → (r ≡ resp) × (resp.error ≡ none)
outcome-ok r resp none p h =
    let q : r ≡ resp = cc h in (q, subst (λ (t : Response). t.error ≡ none) q p)
outcome-ok r resp (some e) p h = cc

-- The mode that a command asks for.
abbrev pub mode_of : Command → Method
mode_of (Command.charge power_w timeout_s) = set_passive (neg power_w) timeout_s
mode_of (Command.discharge power_w timeout_s) = set_passive power_w timeout_s
mode_of (Command.set_passive_mode power_w timeout_s) = set_passive power_w timeout_s
mode_of Command.stop = set_auto

decoded-ok :
    {A : Type 0} (decode : String → Option A) (r : Result Response) (a : A)
    → decoded decode (result_of r) ≡ ok a
    → (resp : Response) × (r ≡ ok resp) × (decode resp.result ≡ some a)
unfolding decoded
decoded-ok decode (failed e) a h = cc
decoded-ok decode (ok resp) a h = elim (Option-cases (decode resp.result)) [
  | inl bad ↦ cc (rw (bad, decoded) at h)
  | inr (b, e) ↦ (resp, refl, e ∙ ap some (let q : b ≡ a = cc (rw (e, decoded) at h) in q))
]

set_error-none : (r : Result Bool) → set_error r ≡ none → r ≡ ok true
set_error-none (failed e) h = cc
set_error-none (ok true) h = refl
set_error-none (ok false) h = cc

module _ {N : Platform} {U : Udp N} where
  read_failed-ne : (e : String) (s : Socket U) (resp : Response) → (read_failed e s).0 ≢ ok resp
  unfolding read_failed
  read_failed-ne e s resp h = elim (Option-cases (U.context_err s.world).0) [
    | inl live ↦ cc (rw live at h)
    | inr (c, done) ↦ cc (rw done at h)
  ]

  -- One more packet that is no answer.
  IsRead-skip :
      (id : ℕ) (packet : String) (resp : Response) (old new : List Event)
      → answer_to U id packet ≡ none
      → IsRead U id resp (received packet ∷ old) new
      → IsRead U id resp old new
  IsRead-skip id packet resp old new no_answer r = record {
    packet = r.packet;
    skipped = r.skipped ++ received packet ∷ [];
    answer = r.answer;
    fine = r.fine;
    skips =
        All-append (IsSkipped U id) r.skipped (received packet ∷ []) r.skips
          ((packet, refl, answer_to-IsOther U id packet no_answer), tt);
    log-eq =
        r.log-eq
        ∙ ap (λ l. received r.packet ∷ l) (sym (append_assoc r.skipped (received packet ∷ []) old));
  }

  read_on-IsRead :
      (next : Action (Socket U) (Result Response)) (id : ℕ) (r : Result String) (s : Socket U)
      (resp : Response)
      → ((t : Socket U) → (next t).0 ≡ ok resp → IsRead U id resp t.log (next t).1.log)
      → (read_on id next r s).0 ≡ ok resp
      → IsRead U id resp s.log (read_on id next r s).1.log
  read_on-IsRead next id (failed e) s resp ih h = absurd (read_failed-ne e s resp h)
  read_on-IsRead next id (ok packet) s resp ih h = elim (Option-cases (answer_to U id packet)) [
    | inl no_answer ↦
        rw (no_answer, read_on)
          (IsRead-skip id packet resp s.log _ no_answer
            (ih (note (received packet) s) (rw (no_answer, read_on) at h)))
    | inr (r, answer) ↦
        let (same, fine) = outcome-ok r resp r.error refl (rw (answer, read_on) at h) in
        rw (answer, read_on)
          (record {
            packet = packet;
            skipped = [];
            answer = answer_to-IsAnswer U id packet resp (answer ∙ ap some same);
            fine = fine;
            skips = tt;
            log-eq = refl;
          })
  ]

  read_loop-IsRead :
      (packets id : ℕ) (s : Socket U) (resp : Response)
      → (read_loop packets id s).0 ≡ ok resp
      → IsRead U id resp s.log (read_loop packets id s).1.log
  unfolding read_loop
  read_loop-IsRead zero id s resp h = absurd (read_failed-ne U.deadline_error s resp h)
  read_loop-IsRead (suc packets) id s resp h =
      let (packet, t) = ask U.read_from_udp s in
      read_on-IsRead (read_loop packets id) id packet t resp
        (λ u. read_loop-IsRead packets id u resp) h

  unless_failed-ok :
      {A : Type 0} (err : Option String) (next : Action (Socket U) (Result A)) (s : Socket U)
      (a : A)
      → (unless_failed err next s).0 ≡ ok a
      → unless_failed err next s ≡ next s
  unless_failed-ok (some e) next s a h = cc
  unless_failed-ok none next s a h = refl

  -- A step that may fail has not, where the whole has not.
  or_fail-ok :
      {A : Type 0} (step : Udp.World U → Option String × Udp.World U)
      (next : Action (Socket U) (Result A)) (s : Socket U) (a : A)
      → (or_fail step next s).0 ≡ ok a
      → or_fail step next s ≡ next (ask step s).1
  or_fail-ok step next s a h = let (err, t) = ask step s in unless_failed-ok err next t a h

  read_answer-IsRead :
      (id : ℕ) (s : Socket U) (resp : Response)
      → (read_answer id s).0 ≡ ok resp
      → IsRead U id resp s.log (read_answer id s).1.log
  unfolding read_answer
  read_answer-IsRead id s resp h =
      let (packets, t) = ask U.packets s in read_loop-IsRead packets id t resp h

  transmit-IsAnswered :
      (method : Method) (id : ℕ) (m : Option String) (s : Socket U) (resp : Response)
      → (transmit method id m s).0 ≡ ok resp
      → IsAnswered U id method resp s.log (transmit method id m s).1.log
  unfolding transmit
  transmit-IsAnswered method id (some e) s resp h = cc
  transmit-IsAnswered method id none s resp h =
      let third = or_fail {U = U} U.set_read_deadline (read_answer id) in
      let second = λ (t : Socket U). third (note (sent id method) t) in
      let first = or_fail {U = U} (U.write_to_udp id method) second in
      let s₁ = (ask U.resolve_udp_addr s).1 in
      let s₂ = (ask (U.write_to_udp id method) s₁).1 in
      let s₃ = note (sent id method) s₂ in
      let s₄ = (ask U.set_read_deadline s₃).1 in
      let e₁ = or_fail-ok U.resolve_udp_addr first s resp h in
      let h₁ : (first s₁).0 ≡ ok resp = rw e₁ at h in
      let e₂ = or_fail-ok (U.write_to_udp id method) second s₁ resp h₁ in
      let h₂ : (third s₃).0 ≡ ok resp = rw e₂ at h₁ in
      let e₃ = or_fail-ok U.set_read_deadline (read_answer id) s₃ resp h₂ in
      rw (e₁ ∙ e₂ ∙ e₃) (read_answer-IsRead id s₄ resp (rw e₃ at h₂))

  exchange_if_connected-IsAnswered :
      (method : Method) (b : Bool) (s : Socket U) (resp : Response)
      → (exchange_if_connected method b s).0 ≡ ok resp
      → IsAnswered U (s.request_id + 1) method resp s.log (exchange_if_connected method b s).1.log
  unfolding exchange_if_connected
  exchange_if_connected-IsAnswered method false s resp h = cc
  exchange_if_connected-IsAnswered method true s resp h =
      let id = s.request_id + 1 in
      transmit-IsAnswered method id (U.marshal id method) (record s { request_id = id }) resp h

  locked_exchange-IsAnswered :
      (method : Method) (s : Socket U) (resp : Response)
      → (locked_exchange method s).0 ≡ ok resp
      → IsAnswered U (s.request_id + 1) method resp s.log (locked_exchange method s).1.log
  unfolding locked_exchange
  locked_exchange-IsAnswered method s resp h =
      let next = λ (t : Socket U). exchange_if_connected method t.connected t in
      let e = or_fail-ok U.context_err next s resp h in
      let t = (ask U.context_err s).1 in
      rw e (exchange_if_connected-IsAnswered method t.connected t resp (rw e at h))

  -- The wait for the mutex touches the world only.
  lock_loop-keeps :
      (waits : ℕ) (s : Socket U)
      → ((lock_loop waits s).1.log ≡ s.log) × ((lock_loop waits s).1.request_id ≡ s.request_id)
  unfolding lock_loop
  lock_loop-keeps zero s = elim (Bool-cases (U.try_lock s.world).0) [
    | inl locked ↦ rw (locked, lock_loop) (refl, refl)
    | inr busy ↦ rw (busy, lock_loop) (refl, refl)
  ]
  lock_loop-keeps (suc waits) s = elim (Bool-cases (U.try_lock s.world).0) [
    | inl locked ↦ rw (locked, lock_loop) (refl, refl)
    | inr busy ↦ rw (busy, lock_loop) (lock_loop-keeps waits (ask U.try_lock s).1)
  ]

  IsAnswered-eq :
      (method : Method) (resp : Response) (id id' : ℕ) (old old' new : List Event)
      → old' ≡ old
      → id' ≡ id
      → IsAnswered U (id' + 1) method resp old' new
      → IsAnswered U (id + 1) method resp old new
  IsAnswered-eq method resp id id' old old' new e f r =
      subst (λ (n : ℕ). IsAnswered U (n + 1) method resp old new) f
        (subst (λ (l : List Event). IsAnswered U (id' + 1) method resp l new) e r)

  -- A response that `sendContext` returns was read after the request went out under the next id: it
  -- carries that id, a source and no error, and every packet read before it held no response, one
  -- with another id, or one without a source.
  pub send_context-IsAnswered :
      (method : Method) (s : Socket U) (resp : Response)
      → (send_context method s).0 ≡ ok resp
      → IsAnswered U (s.request_id + 1) method resp s.log (send_context method s).1.log
  unfolding send_context lock_context
  send_context-IsAnswered method s resp h =
      let (waits, t) = ask U.lock_waits s in
      let (err, u) = lock_loop waits t in
      let (log_same, id_same) = lock_loop-keeps waits t in
      let e = unless_failed-ok err (locked_exchange method) u resp h in
      let h' : (locked_exchange method u).0 ≡ ok resp = rw e at h in
      let r = locked_exchange-IsAnswered method u resp h' in
      rw e (IsAnswered-eq method resp _ _ _ _ _ log_same id_same r)

  -- The answer to a request that succeeds.
  pub request-IsAnswered :
      {A : Type 0} (decode : String → Option A) (method : Method) (s : Socket U) (a : A)
      → (request decode method s).0 ≡ ok a
      → (resp : Response) × IsAnswered U
          (s.request_id + 1)
          method
          resp
          s.log
          (request decode method s).1.log
        × (decode resp.result ≡ some a)
  unfolding request
  request-IsAnswered decode method s a h =
      let (resp, e, d) = decoded-ok decode (send_context method s).0 a h in
      (resp, send_context-IsAnswered method s resp e, d)

  set_mode-IsAnswered :
      (method : Method) (s : Socket U)
      → (set_mode method s).0 ≡ none
      → (resp : Response) × IsAnswered U
          (s.request_id + 1)
          method
          resp
          s.log
          (set_mode method s).1.log
        × (U.decode_set_result resp.result ≡ some true)
  unfolding set_mode
  set_mode-IsAnswered method s h =
      request-IsAnswered U.decode_set_result method s true
        (set_error-none (request U.decode_set_result method s).0 h)

  -- A command that succeeds sent one request, the mode of the command (a charge is a negative power),
  -- and the answer to this request says that the mode was set.
  pub perform-IsAnswered :
      (c : Command) (s : Socket U)
      → (perform c s).0 ≡ none
      → (resp : Response) × IsAnswered U
          (s.request_id + 1)
          (mode_of c)
          resp
          s.log
          (perform c s).1.log
        × (U.decode_set_result resp.result ≡ some true)
  unfolding perform
  perform-IsAnswered (Command.charge p t) s h = set_mode-IsAnswered (set_passive (neg p) t) s h
  perform-IsAnswered (Command.discharge p t) s h = set_mode-IsAnswered (set_passive p t) s h
  perform-IsAnswered (Command.set_passive_mode p t) s h = set_mode-IsAnswered (set_passive p t) s h
  perform-IsAnswered Command.stop s h = set_mode-IsAnswered set_auto s h
