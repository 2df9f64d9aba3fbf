-- ===== src/Clients/Wire.antt =====
-- What the clients share: actions on a state, and the answers of HTTP servers.
use marstek_energy_trading.Prelude.{ℕ, Option, none, some, String, ◌==◌, if◌then◌else◌}
use marstek_energy_trading.Service.Types.{Result, ok, failed}

-- An action on a state `S`.
abbrev pub Action : Type 0 → Type 0 → Type 0
Action S A = S → A × S

module _ {S : Type 0} where
  abbrev pub pure : {A : Type 0} → A → Action S A
  pure a s = (a, s)

  infixl 5 ◌>>=◌ ◌>>◌
  abbrev pub ◌>>=◌ : {A B : Type 0} → Action S A → (A → Action S B) → Action S B
  ◌>>=◌ act f s = let (a, s') = act s in f a s'

  abbrev pub ◌>>◌ : {A B : Type 0} → Action S A → Action S B → Action S B
  act >> next = act >>= λ _. next

-- The status code and the body of an answer.
pub record Response : Type 0 where
  pub status : ℕ
  pub body : String

abbrev pub status_ok : ℕ
status_ok = 200

-- What every request begins with: the error of the transport, or of a status that is not 200.
unfoldable pub body_of : Result Response → Result String
body_of (failed e) = failed e
body_of (ok r) = if r.status == status_ok then ok r.body else failed "unexpected status"

-- The body as JSON; a decoder is `none` on what it refuses.
unfoldable pub decoded : {A : Type 0} → (String → Option A) → Result String → Result A
decoded decode (failed e) = failed e
decoded decode (ok body) = elim (decode body) [ some a ↦ ok a | none ↦ failed "decode response" ]

abbrev pub error_of : {A : Type 0} → Result A → Option String
error_of (ok a) = none
error_of (failed e) = some e
