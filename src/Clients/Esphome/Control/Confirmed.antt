-- ===== src/Clients/Esphome/Control/Confirmed.antt =====
-- What a confirmed write has exchanged with the device.
use marstek_energy_trading.Prelude.{
  ℕ, zero, suc, ◌≡◌, refl, ◌∙◌, ap, sym, Bool, true, false, Bool-cases, inl, inr, Option, none,
  some, List, [], ◌∷◌, ◌++◌, Option-cases, subst, String, All, All-append, arith,
}
use mathlib.Core.List.{append_assoc}
use marstek_energy_trading.Platform.{Platform}
use marstek_energy_trading.Service.Types.{Result, ok, failed, succeeded}
use marstek_energy_trading.Clients.Wire.{Action, body_of, error_of}
use marstek_energy_trading.Clients.Esphome.Types.{
  Request, get, set_option, set_value, Http, Exchange, Wire,
}
use marstek_energy_trading.Clients.Esphome.Requests.{
  exchange, reading, get_control_value, set_number, set_select,
}
use marstek_energy_trading.Clients.Esphome.Control.{
  is_option, is_number, unconfirmed, poll_on, poll, confirm_loop, confirm, and_then,
  set_number_confirmed, set_select_confirmed,
}

abbrev pub holds : (String → Bool) → Result String → Bool
holds test (ok value) = test value
holds test (failed e) = false

error_of-none : {A : Type 0} (r : Result A) → error_of r ≡ none → succeeded r ≡ true
error_of-none (ok a) h = refl
error_of-none (failed e) h = cc

module _ {N : Platform} (H : Http N) where
  abbrev Log : Type 0
  Log = List (Exchange N)

  -- Reads of the control at `path` after `old`, of which the last gave a value that passes `test`.
  pub record IsPolled (test : String → Bool) (path : String) (old new : Log) : Type 0 where
    pub last : Exchange N
    pub earlier : Log
    pub made : new ≡ last ∷ earlier ++ old
    pub reads : All (λ x. x.request ≡ get path) (last ∷ earlier)
    pub read : holds test (reading H last.answer) ≡ true

  -- An accepted write, and then reads of the control up to one that passes.
  pub record IsConfirmed (write : Request N) (test : String → Bool) (path : String) (old new : Log)
      : Type 0 where
    pub first : Exchange N
    pub wrote : first.request ≡ write
    pub accepted : succeeded (body_of first.answer) ≡ true
    pub polled : IsPolled test path (first ∷ old) new

module _ {N : Platform} {H : Http N} where
  open N use {Float}

  IsPolled-earlier :
      (test : String → Bool) (path : String) (x : Exchange N) (old new : List (Exchange N))
      → x.request ≡ get path
      → IsPolled H test path (x ∷ old) new
      → IsPolled H test path old new
  IsPolled-earlier test path x old new e p = record {
    last = p.last;
    earlier = p.earlier ++ x ∷ [];
    made = p.made ∙ ap (λ l. p.last ∷ l) (sym (append_assoc p.earlier (x ∷ []) old));
    reads = (p.reads.0, All-append _ p.earlier (x ∷ []) p.reads.1 (e, tt));
    read = p.read;
  }

  -- An action that polls whenever it reports no error.
  abbrev Polls : (String → Bool) → String → Action (Wire H) (Option String) → Type 0
  Polls test path act = (s : Wire H) → (act s).0 ≡ none → IsPolled H test path s.log (act s).1.log

  poll_on-IsPolled :
      (test : String → Bool) (path : String)
      (next : Option String → Action (Wire H) (Option String)) (e : Option String) (x : Exchange N)
      (old : List (Exchange N)) (r : Result String) (s : Wire H)
      → ((e : Option String) → Polls test path (next e))
      → x.request ≡ get path
      → reading H x.answer ≡ r
      → s.log ≡ x ∷ old
      → (poll_on test next e r s).0 ≡ none
      → IsPolled H test path old (poll_on test next e r s).1.log
  poll_on-IsPolled test path next e x old (failed f) s hn hx hr hs h =
      let new = (next (some f) s).1.log in
      IsPolled-earlier test path x old new hx
        (subst (λ l. IsPolled H test path l new) hs (hn (some f) s h))
  poll_on-IsPolled test path next e x old (ok value) s hn hx hr hs h =
      let new = (next e s).1.log in
      elim (Bool-cases (test value)) [
        | inl t ↦ rw t (record {
          last = x;
          earlier = [];
          made = hs;
          reads = (hx, tt);
          read = ap (holds test) hr ∙ t;
        })
        | inr t ↦ rw t (
            IsPolled-earlier test path x old new hx
              (subst (λ l. IsPolled H test path l new) hs (hn e s (rw t at h))))
      ]

  poll-IsPolled :
      (test : String → Bool) (path : String)
      (next : Option String → Action (Wire H) (Option String))
      → ((e : Option String) → Polls test path (next e))
      → (e : Option String) → Polls test path (poll test path next e)
  unfolding get_control_value
  poll-IsPolled test path next hn e s h =
      let (answer, s₁) = exchange (get path) s in
      let x : Exchange N = record { request = get path; answer = answer } in
      poll_on-IsPolled test path next e x s.log (reading H answer) s₁ hn refl refl refl h

  unconfirmed-IsPolled :
      (test : String → Bool) (path : String) (e : Option String) → Polls test path (unconfirmed e)
  unconfirmed-IsPolled test path e s h = ground arith

  confirm_loop-IsPolled :
      (test : String → Bool) (path : String) (polls : ℕ) (e : Option String)
      → Polls test path (confirm_loop test path polls e)
  unfolding confirm_loop
  confirm_loop-IsPolled test path zero e =
      poll-IsPolled test path unconfirmed (unconfirmed-IsPolled test path) e
  confirm_loop-IsPolled test path (suc polls) e =
      poll-IsPolled test path (confirm_loop test path polls) (confirm_loop-IsPolled test path polls)
        e

  confirm-IsPolled : (test : String → Bool) (path : String) → Polls test path (confirm test path)
  unfolding confirm
  confirm-IsPolled test path s h =
      let (polls, w) = H.polls s.world in
      confirm_loop-IsPolled test path polls none (record s { world = w }) h

  -- The error of a sequence is none only if that of the second action is, after the first's is.
  pub and_then-none :
      (first next : Action (Wire H) (Option String)) (s : Wire H)
      → (and_then first next s).0 ≡ none
      → ((first s).0 ≡ none)
        × ((next (first s).1).0 ≡ none)
        × ((and_then first next s).1 ≡ (next (first s).1).1)
  and_then-none first next s h = elim (Option-cases (first s).0) [
    | inl e ↦ (e, ground arith, ground arith)
    | inr (f, e) ↦ absurd (ground arith)
  ]

  -- A write without an error, and then a poll without one.
  write-IsConfirmed :
      (write : Request N) (test : String → Bool) (path : String) (s : Wire H)
      → let (answer, s₁) = exchange write s in
        error_of (body_of answer) ≡ none
        → (confirm test path s₁).0 ≡ none
        → IsConfirmed H write test path s.log (confirm test path s₁).1.log
  unfolding exchange
  write-IsConfirmed write test path s a c =
      let (answer, s₁) = exchange write s in
      record {
        first = record { request = write; answer = answer };
        wrote = refl;
        accepted = error_of-none (body_of answer) a;
        polled = confirm-IsPolled test path s₁ c;
      }

  -- A number that is set without an error was written once, and then read back within half a unit.
  pub set_number-IsConfirmed :
      (path : String) (value : Float) (s : Wire H)
      → (set_number_confirmed path value s).0 ≡ none
      → IsConfirmed H
          (set_value path value)
          (is_number H value)
          path
          s.log
          (set_number_confirmed path value s).1.log
  unfolding set_number_confirmed set_number
  set_number-IsConfirmed path value s h =
      let (a, c, e) =
        and_then-none (set_number path value) (confirm (is_number H value) path) s h in
      subst (λ t. IsConfirmed H (set_value path value) (is_number H value) path s.log t.log) (sym e)
        (write-IsConfirmed (set_value path value) (is_number H value) path s a c)

  -- An option that is set without an error was written once, and then read back.
  pub set_select-IsConfirmed :
      (path option : String) (s : Wire H)
      → (set_select_confirmed path option s).0 ≡ none
      → IsConfirmed H
          (set_option path option)
          (is_option option)
          path
          s.log
          (set_select_confirmed path option s).1.log
  unfolding set_select_confirmed set_select
  set_select-IsConfirmed path option s h =
      let (a, c, e) =
        and_then-none (set_select path option) (confirm (is_option option) path) s h in
      subst (λ t. IsConfirmed H (set_option path option) (is_option option) path s.log t.log)
        (sym e) (write-IsConfirmed (set_option path option) (is_option option) path s a c)
