-- ===== src/Clients/Homewizard/Scan.antt =====
-- The worker pool of `discoverHTTPScan`, clients/homewizard/discover.go, as a relation between its
-- states: the workers take their steps in any order, and a request may be answered in any way.
pub mod Complete
use marstek_energy_trading.Prelude.{
  ℕ, zero, suc, ◌≡◌, Bool, true, false, Option, none, some, List, [], ◌∷◌, ◌++◌, String,
}
use marstek_energy_trading.Service.Types.{Result, ok, failed}
use marstek_energy_trading.Clients.Wire.{Response}
use marstek_energy_trading.Clients.Homewizard.Meter.{DeviceInfo}
use marstek_energy_trading.Clients.Homewizard.Discovery.{DiscoveryResult, scan_workers, probe_p1}

-- `ipCh`, the workers at its head, the addresses under a request, the workers that returned, the
-- context with its own timeout, and the first result sent to `resultCh`. `probed` holds the requests
-- that were answered; the code keeps no such list.
pub record Pool : Type 0 where
  pub queue : List String
  pub waiting : ℕ
  pub probing : List String
  pub finished : ℕ
  pub cancelled : Bool
  pub expired : Bool
  pub result : Option DiscoveryResult
  pub probed : List (String × Result Response)

unfoldable pub start : List String → Pool
start ips = record {
  queue = ips;
  waiting = scan_workers;
  probing = [];
  finished = 0;
  cancelled = false;
  expired = false;
  result = none;
  probed = [];
}

-- A full channel drops the result.
abbrev pub send_result : Option DiscoveryResult → DiscoveryResult → Option DiscoveryResult
send_result none r = some r
send_result (some first) r = some first

-- Only the worker whose result is sent cancels the others.
abbrev pub cancel_if_sent : Option DiscoveryResult → Bool → Bool
cancel_if_sent none cancelled = true
cancel_if_sent (some first) cancelled = cancelled

module _ (decode_device_info : String → Option DeviceInfo) where
  pub data Step : Pool → Pool → Type 0 where
    -- a worker takes an address and begins its request
    take :
        (s : Pool) (ip : String) (q : List String) (n : ℕ)
        → s.queue ≡ ip ∷ q
        → s.waiting ≡ suc n
        → s.cancelled ≡ false
        → Step s (record s { queue = q; waiting = n; probing = ip ∷ s.probing })
    -- a worker takes an address and finds the context done
    quit :
        (s : Pool) (ip : String) (q : List String) (n : ℕ)
        → s.queue ≡ ip ∷ q
        → s.waiting ≡ suc n
        → s.cancelled ≡ true
        → Step s (record s { queue = q; waiting = n; finished = suc s.finished })
    -- a worker finds the closed channel empty
    drain :
        (s : Pool) (n : ℕ)
        → s.queue ≡ []
        → s.waiting ≡ suc n
        → Step s (record s { waiting = n; finished = suc s.finished })
    -- an answer that shows no meter
    miss :
        (s : Pool) (before after : List String) (ip : String) (answer : Result Response)
        → s.probing ≡ before ++ ip ∷ after
        → probe_p1 decode_device_info ip answer ≡ none
        → Step s (record s {
          waiting = suc s.waiting;
          probing = before ++ after;
          probed = (ip, answer) ∷ s.probed;
        })
    -- an answer that shows a meter
    hit :
        (s : Pool) (before after : List String) (ip : String) (answer : Result Response)
        (r : DiscoveryResult)
        → s.probing ≡ before ++ ip ∷ after
        → probe_p1 decode_device_info ip answer ≡ some r
        → Step s (record s {
          probing = before ++ after;
          finished = suc s.finished;
          cancelled = cancel_if_sent s.result s.cancelled;
          result = send_result s.result r;
          probed = (ip, answer) ∷ s.probed;
        })
    -- the timeout, or the end of the caller's context
    expire : (s : Pool) → Step s (record s { cancelled = true; expired = true })

  pub data Reach (s : Pool) : Pool → Type 0 where
    here : Reach s s
    next : {t u : Pool} → Reach s t → Step t u → Reach s u

-- What `<-resultCh` gives: the first result, or, once all workers returned and the channel is closed,
-- none.
pub data Reports (s : Pool) : Option DiscoveryResult → Type 0 where
  received : (r : DiscoveryResult) → s.result ≡ some r → Reports s (some r)
  closed : s.waiting ≡ 0 → s.probing ≡ [] → s.result ≡ none → Reports s none
