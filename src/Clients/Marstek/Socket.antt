-- ===== src/Clients/Marstek/Socket.antt =====
-- The exchange of one request: `Connect`, `Close`, `sendContext` and `lockContext` of
-- clients/marstek/client.go. The context and the deadline of the read are the socket's parameters.
use text.Mathlib.Text
use marstek_energy_trading.Prelude.{
  ℕ, zero, suc, ◌+◌, ◌&&◌, Bool, true, false, not, Option, none, some, ◌∷◌, String, ℤ, pos, negsuc,
  ◌==◌, if◌then◌else◌,
}
use marstek_energy_trading.Platform.{Platform}
use marstek_energy_trading.Service.Types.{Result, ok, failed}
use marstek_energy_trading.Clients.Wire.{Action, pure, ◌>>=◌}
use marstek_energy_trading.Clients.Marstek.Types.{
  RpcError, Response, Method, Event, sent, received, Udp, Socket,
}

abbrev pub is_id : ℤ → ℕ → Bool
is_id (pos n) id = n == id
is_id (negsuc n) id = false

-- Whether the response is to request `id`: an echo of a request has no source.
abbrev pub answers : ℕ → Response → Bool
answers id resp = is_id resp.id id && not (Text.◌==◌ resp.src "")

-- The end of `sendContext` on such a response.
abbrev pub outcome : Response → Option RpcError → Result Response
outcome resp none = ok resp
outcome resp (some e) = failed e.message

module _ {N : Platform} (U : Udp N) where
  -- The response in a packet, if it is one to request `id`.
  unfoldable pub answer_to : ℕ → String → Option Response
  answer_to id packet = elim (U.decode_response packet) [
    | none ↦ none
    | some resp ↦ if answers id resp then some resp else none
  ]

module _ {N : Platform} {U : Udp N} where
  abbrev pub ask : {A : Type 0} → (Udp.World U → A × Udp.World U) → Action (Socket U) A
  ask f s = let (a, w) = f s.world in (a, record s { world = w })

  abbrev pub note : Event → Socket U → Socket U
  note event s = record s { log = event ∷ s.log }

  -- What a failed read returns: the error of a context that is done comes first.
  unfoldable pub read_failed : String → Action (Socket U) (Result Response)
  read_failed e = do
    cancelled ← ask (Udp.context_err U)
    pure (elim cancelled [ some c ↦ failed c | none ↦ failed e ])

  -- What follows a read.
  abbrev pub read_on :
      ℕ → Action (Socket U) (Result Response) → Result String → Action (Socket U) (Result Response)
  read_on id next (failed e) s = read_failed e s
  read_on id next (ok packet) s = elim (answer_to U id packet) [
    | none ↦ next (note (received packet) s)
    | some resp ↦ (outcome resp resp.error, note (received packet) s)
  ]

  -- The reads until a response to the request, with `packets` more packets before the deadline.
  unfoldable pub read_loop : ℕ → ℕ → Action (Socket U) (Result Response)
  unfolding read_failed
  read_loop zero id = read_failed U.deadline_error
  read_loop (suc packets) id = do
    packet ← ask U.read_from_udp
    read_on id (read_loop packets id) packet

  -- The rest, unless an error came first.
  abbrev pub unless_failed :
      {A : Type 0} → Option String → Action (Socket U) (Result A) → Action (Socket U) (Result A)
  unless_failed (some e) next s = (failed e, s)
  unless_failed none next s = next s

  -- A step that may fail, before the rest.
  abbrev pub or_fail :
      {A : Type 0}
      → (Udp.World U → Option String × Udp.World U)
      → Action (Socket U) (Result A)
      → Action (Socket U) (Result A)
  or_fail step next = do err ← ask step; unless_failed err next

  -- The reads after the request.
  unfoldable pub read_answer : ℕ → Action (Socket U) (Result Response)
  unfolding read_loop
  read_answer id = do packets ← ask U.packets; read_loop packets id

  -- The exchange under request id `id`, of a request that `json.Marshal` takes or not.
  unfoldable pub transmit : Method → ℕ → Option String → Action (Socket U) (Result Response)
  unfolding read_answer
  transmit method id (some e) s = (failed e, s)
  transmit method id none s =
      or_fail U.resolve_udp_addr
        (or_fail (U.write_to_udp id method)
          (λ t. or_fail U.set_read_deadline (read_answer id) (note (sent id method) t)))
        s

  unfoldable pub exchange_if_connected : Method → Bool → Action (Socket U) (Result Response)
  unfolding transmit
  exchange_if_connected method false s = (failed "not connected", s)
  exchange_if_connected method true s =
      let id = s.request_id + 1 in
      transmit method id (U.marshal id method) (record s { request_id = id })

  -- The wait for the mutex, with `waits` more rounds before the context is done.
  unfoldable pub lock_loop : ℕ → Action (Socket U) (Option String)
  lock_loop zero = do locked ← ask U.try_lock; if locked then pure none else pure (some U.cancelled)
  lock_loop (suc waits) = do locked ← ask U.try_lock; if locked then pure none else lock_loop waits

  unfoldable pub lock_context : Action (Socket U) (Option String)
  unfolding lock_loop
  lock_context = do waits ← ask U.lock_waits; lock_loop waits

  -- With the mutex held, which is given back at the end.
  unfoldable pub locked_exchange : Method → Action (Socket U) (Result Response)
  unfolding exchange_if_connected
  locked_exchange method = do
    result ← or_fail U.context_err (λ s. exchange_if_connected method s.connected s)
    λ s. (result, record s { world = U.unlock s.world })

  unfoldable pub send_context : Method → Action (Socket U) (Result Response)
  unfolding lock_context locked_exchange
  send_context method = do err ← lock_context; unless_failed err (locked_exchange method)

  unfoldable pub connect : Action (Socket U) (Option String)
  connect = do
    unresolved ← ask U.resolve_udp_addr
    elim unresolved [
      | some e ↦ pure (some e)
      | none ↦ do
        err ← ask U.listen_udp
        elim err [ some e ↦ pure (some e) | none ↦ λ s. (none, record s { connected = true }) ]
    ]

  unfoldable pub close : Action (Socket U) (Option String)
  close s = if s.connected then ask U.close_udp s else (none, s)
