-- ===== src/Program/Goroutines/Exits.antt =====
-- How the process of cmd/trader/main.go ends, and what it has done before.
use marstek_energy_trading.Prelude.{
  ℕ, zero, suc, ◌≡◌, refl, Bool, true, false, ◌||◌, List, arith, subst,
}
use marstek_energy_trading.Platform.{Platform}
use marstek_energy_trading.Service.Types.{Env}
use marstek_energy_trading.Service.Machine.{Machine}
use marstek_energy_trading.Service.Loop.{Event, Exit, start}
use marstek_energy_trading.Program.Goroutines.{
  Server, listening, closed, broken, close, may_return, Phase, waiting, shutting, joining, exited,
  panicked, killed, is_live, stops, Engine, running, returned, Program, launched, Step, signalled,
  signal_killed, crashed, server_failed, server_exited, engine_returned, woken, server_returned,
  shut, joined, Reach, here, next,
}

abbrev pub is_listening : Server → Bool
is_listening listening = true
is_listening _ = false

abbrev pub is_closed : Server → Bool
is_closed closed = true
is_closed _ = false

abbrev pub is_broken : Server → Bool
is_broken broken = true
is_broken _ = false

close-is_listening : (s : Server) → is_listening (close s) ≡ false
close-is_listening s = ground arith

module _ {N : Platform} {E : Env N} where
  abbrev pub has_returned : Engine E → Bool
  has_returned running = false
  has_returned (returned exit m) = true

  -- What holds in a phase of the server, of the context, of `released` and of the engine.
  abbrev pub Holds : Phase → Server → Bool → Bool → Engine E → Type 0
  Holds waiting s c r e = (is_listening s || is_broken s) ≡ true
  Holds shutting s c r e = (c ≡ true) × (is_listening s ≡ false)
  Holds joining s c r e = (c ≡ true) × (is_listening s ≡ false)
  Holds (exited zero) s c r e = (c ≡ true) × (is_closed s ≡ true) × (has_returned e ≡ true)
  Holds (exited (suc code)) s c r e = (code ≡ 0) × (is_broken s ≡ true)
  Holds panicked s c r e = Unit
  Holds killed s c r e = r ≡ true

  -- While the process runs, its context may end, `stop()` may be called and its engine may return.
  Holds-cancelled :
      (ph : Phase) (s : Server) (c c' r r' : Bool) (e e' : Engine E)
      → is_live ph ≡ true
      → (c ≡ true → c' ≡ true)
      → Holds ph s c r e
      → Holds ph s c' r' e'
  Holds-cancelled waiting s c c' r r' e e' l k h = h
  Holds-cancelled shutting s c c' r r' e e' l k (h, g) = (k h, g)
  Holds-cancelled joining s c c' r r' e e' l k (h, g) = (k h, g)
  Holds-cancelled (exited code) s c c' r r' e e' l k h = cc
  Holds-cancelled panicked s c c' r r' e e' l k h = cc
  Holds-cancelled killed s c c' r r' e e' l k h = cc

  -- The server of a process that runs may go from one state to another.
  Holds-server :
      (ph : Phase) (s s' : Server) (c r : Bool) (e : Engine E)
      → is_live ph ≡ true
      → ((is_listening s || is_broken s) ≡ true → (is_listening s' || is_broken s') ≡ true)
      → is_listening s' ≡ false
      → Holds ph s c r e
      → Holds ph s' c r e
  Holds-server waiting s s' c r e l k n h = k h
  Holds-server shutting s s' c r e l k n (h, g) = (h, n)
  Holds-server joining s s' c r e l k n (h, g) = (h, n)
  Holds-server (exited code) s s' c r e l k n h = cc
  Holds-server panicked s s' c r e l k n h = cc
  Holds-server killed s s' c r e l k n h = cc

module _ {N : Platform} {E : Env N} where
  pub Engine-returned :
      (e : Engine E)
      → has_returned e ≡ true
      → (exit : Exit) × (m : Machine E) × (e ≡ returned exit m)
  Engine-returned running h = cc
  Engine-returned (returned exit m) h = (exit, m, refl)

-- An engine that returns has its context ended, or ends it.
stops-or : (exit : Exit) (c : Bool) → may_return exit c ≡ true → (c || stops exit) ≡ true
unfolding stops
stops-or exit c h = ground arith

or_true : (a b : Bool) → a ≡ true → (a || b) ≡ true
or_true a b h = ground arith

false_or : (a b : Bool) → a ≡ false → (a || b) ≡ b
false_or a b h = ground arith

module _ {N : Platform} {E : Env N} (m : Machine E) where
  -- `Start` from `m` has returned.
  abbrev pub IsOver : Engine E → Type 0
  IsOver running = ⊥
  IsOver (returned exit m') =
      (events : List Event) × (ticks : ℕ) × (start events ticks m ≡ (exit, m'))

  -- `stop()` is called exactly when `Start` has returned an error.
  abbrev pub Releases : Bool → Engine E → Type 0
  Releases r running = r ≡ false
  Releases r (returned exit m') = r ≡ stops exit

  pub record IsOrderly (p : Program E) : Type 0 where
    pub phase : Holds p.phase p.server p.cancelled p.released p.engine
    pub over : has_returned p.engine ≡ true → (p.cancelled ≡ true) × IsOver p.engine
    pub release : Releases p.released p.engine

  launched-IsOrderly : IsOrderly (launched E)
  launched-IsOrderly = record { phase = refl; over = λ h. cc; release = refl }

  Step-IsOrderly :
      {signals : Bool} {p q : Program E} → Step m signals p q → IsOrderly p → IsOrderly q
  Step-IsOrderly {p} (signalled s live f) h = record {
    phase =
        Holds-cancelled p.phase p.server p.cancelled true p.released p.released p.engine p.engine
          live (λ c. refl) h.phase;
    over = λ o. (refl, (h.over o).1);
    release = h.release;
  }
  Step-IsOrderly {p} (signal_killed s live f) h = record {
    phase = f;
    over = h.over;
    release = h.release;
  }
  Step-IsOrderly {p} (crashed live) h = record { phase = tt; over = h.over; release = h.release }
  Step-IsOrderly {p} (server_failed live up) h = record {
    phase =
        Holds-server p.phase p.server broken p.cancelled p.released p.engine live (λ _. refl) refl
          h.phase;
    over = h.over;
    release = h.release;
  }
  Step-IsOrderly {p} (server_exited live b) h = record {
    phase = (refl, ground arith);
    over = h.over;
    release = h.release;
  }
  Step-IsOrderly {p} (engine_returned events ticks live on may) h = record {
    phase =
        Holds-cancelled p.phase p.server p.cancelled _ p.released _ p.engine _ live
          (or_true p.cancelled _) h.phase;
    over = λ _. (stops-or (start events ticks m).0 p.cancelled may, (events, ticks, refl));
    release =
        false_or p.released (stops (start events ticks m).0)
          (subst (Releases p.released) on h.release);
  }
  Step-IsOrderly {p} (woken w c) h = record {
    phase = (c, close-is_listening p.server);
    over = h.over;
    release = h.release;
  }
  Step-IsOrderly {p} (server_returned live c) h = record {
    phase =
        Holds-server p.phase p.server closed p.cancelled p.released p.engine live
          (λ k. ground arith) refl h.phase;
    over = h.over;
    release = h.release;
  }
  Step-IsOrderly {p} (shut s) h = record {
    phase = subst (λ ph. Holds ph p.server p.cancelled p.released p.engine) s h.phase;
    over = h.over;
    release = h.release;
  }
  Step-IsOrderly {p} (joined exit m' j s e) h = record {
    phase =
        ground (arith, subst (λ ph. Holds ph p.server p.cancelled p.released p.engine) j h.phase);
    over = h.over;
    release = h.release;
  }

  pub Reach-IsOrderly :
      {signals : Bool} {p : Program E} → Reach m signals (launched E) p → IsOrderly p
  Reach-IsOrderly here = launched-IsOrderly
  Reach-IsOrderly (next r s) = Step-IsOrderly s (Reach-IsOrderly r)

  -- How a process that is in the given phase has ended.
  abbrev pub HasEnded : Phase → Program E → Type 0
  HasEnded (exited zero) p = (p.cancelled ≡ true) × (p.server ≡ closed) × IsOver p.engine
  HasEnded (exited (suc code)) p = (code ≡ 0) × (p.server ≡ broken)
  HasEnded killed p =
      (exit : Exit) × (m' : Machine E) × (p.engine ≡ returned exit m') × (stops exit ≡ true)
  HasEnded _ p = Unit

  -- The engine of a process that has ended with code 0.
  pub exited_zero-start :
      {p : Program E}
      → Reach m true (launched E) p
      → p.phase ≡ exited 0
      → (exit : Exit) × (m' : Machine E) × (p.engine ≡ returned exit m')
        × (p.released ≡ stops exit)
        × (events : List Event) × (ticks : ℕ) × (start events ticks m ≡ (exit, m'))
  exited_zero-start {p} r e =
      let h = Reach-IsOrderly r in
      let (ended, shut_down, back) =
        subst (λ ph. Holds ph p.server p.cancelled p.released p.engine) e h.phase in
      let (exit, m', o) = Engine-returned p.engine back in
      let (events, ticks, s) = subst IsOver o (h.over back).1 in
      (exit, m', o, subst (Releases p.released) o h.release, events, ticks, s)
