-- ===== src/Program/Goroutines.antt =====
-- The goroutines of cmd/trader/main.go: the HTTP server, the trading engine and `main` itself, in any
-- interleaving. net/http, os/signal and sync are libraries; of them this uses that a closed server's
-- `ListenAndServe` returns, that a signal ends the context, and that `Wait` waits for every `Done`.
pub mod Exits
pub mod Finish
use marstek_energy_trading.Prelude.{ℕ, ◌≡◌, Bool, true, false, ◌||◌, List, String}
use marstek_energy_trading.Platform.{Platform}
use marstek_energy_trading.Service.Types.{Env, Result, ok, failed}
use marstek_energy_trading.Service.Machine.{Machine}
use marstek_energy_trading.Service.Loop.{Event, Exit, start}

-- The server's goroutine: `ListenAndServe` serves, `Shutdown` has closed it, it has returned, or it
-- has returned another error, after which `os.Exit(1)` follows.
pub data Server : Type 0 where
  listening closing closed broken : Server

-- What `Shutdown` does to the server.
abbrev pub close : Server → Server
close listening = closing
close server = server

-- `main`: at `<-ctx.Done()`, in `Shutdown`, in `wg.Wait()`; or the process has ended with a code, by a
-- panic (Go's code 2), or by a signal that is no longer caught.
pub data Phase : Type 0 where
  waiting shutting joining : Phase
  exited : ℕ → Phase
  panicked killed : Phase

-- The process as long as it runs.
abbrev pub is_live : Phase → Bool
is_live waiting = true
is_live shutting = true
is_live joining = true
is_live _ = false

-- `err != nil && err != context.Canceled`, on which the engine's goroutine calls `stop()`.
unfoldable pub stops : Exit → Bool
stops Exit.cancelled = false
stops _ = true

-- Without a configuration the process ends at once.
unfoldable pub first_phase : {A : Type 0} → Result A → Phase
first_phase (failed e) = exited 1
first_phase (ok settings) = waiting

-- The main loop leaves only when its context has ended; a startup may be refused at any time.
abbrev pub may_return : Exit → Bool → Bool
may_return (Exit.not_started refusal) cancelled = true
may_return _ cancelled = cancelled

module _ {N : Platform} (E : Env N) where
  -- `tradingSvc.Start`.
  pub data Engine : Type 0 where
    running : Engine
    returned : Exit → Machine E → Engine

  pub record Program : Type 0 where
    pub server : Server
    pub engine : Engine
    -- the context has ended
    pub cancelled : Bool
    -- `stop()` has been called, so signals have their default effect again
    pub released : Bool
    pub phase : Phase

  -- The process once both goroutines are started.
  abbrev pub launched : Program
  launched = record {
    server = listening;
    engine = running;
    cancelled = false;
    released = false;
    phase = waiting;
  }

module _ {N : Platform} {E : Env N} (m : Machine E) where
  -- One step, where the engine starts from `m`; `signals` says whether signals may arrive. The first
  -- ends the context; once `stop()` has been called, another one kills the process. A panic is the end
  -- of the process too: decimal.NewFromFloat panics on a float that is no number.
  pub data Step (signals : Bool) (p : Program E) : Program E → Type 0 where
    signalled :
        signals ≡ true
        → is_live p.phase ≡ true
        → p.released ≡ false
        → Step signals p (record p { cancelled = true })
    signal_killed :
        signals ≡ true
        → is_live p.phase ≡ true
        → p.released ≡ true
        → Step signals p (record p { phase = killed })
    crashed : is_live p.phase ≡ true → Step signals p (record p { phase = panicked })
    server_failed :
        is_live p.phase ≡ true
        → p.server ≡ listening
        → Step signals p (record p { server = broken })
    server_exited :
        is_live p.phase ≡ true → p.server ≡ broken → Step signals p (record p { phase = exited 1 })
    engine_returned :
        (events : List Event) (ticks : ℕ)
        → is_live p.phase ≡ true
        → p.engine ≡ running
        → may_return (start events ticks m).0 p.cancelled ≡ true
        → Step signals p (record p {
          engine = returned (start events ticks m).0 (start events ticks m).1;
          cancelled = p.cancelled || stops (start events ticks m).0;
          released = p.released || stops (start events ticks m).0;
        })
    woken :
        p.phase ≡ waiting
        → p.cancelled ≡ true
        → Step signals p (record p { phase = shutting; server = close p.server })
    server_returned :
        is_live p.phase ≡ true → p.server ≡ closing → Step signals p (record p { server = closed })
    shut : p.phase ≡ shutting → Step signals p (record p { phase = joining })
    joined :
        (exit : Exit) (m' : Machine E)
        → p.phase ≡ joining
        → p.server ≡ closed
        → p.engine ≡ returned exit m'
        → Step signals p (record p { phase = exited 0 })

  pub data Reach (signals : Bool) (p : Program E) : Program E → Type 0 where
    here : Reach signals p p
    next : {q r : Program E} → Reach signals p q → Step signals q r → Reach signals p r
