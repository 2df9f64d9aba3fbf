-- ===== src/Clients/Homewizard/Scan/Complete.antt =====
-- What the scan of `discoverHTTPScan` reports, for every order of its workers' steps.
use marstek_energy_trading.Prelude.{
  ℕ, suc, ◌+◌, ◌≤◌, ◌≡◌, ◌≢◌, refl, sym, ap, ◌∙◌, subst, ◌⊎◌, inl, inr, true, false, Option, none,
  some, List, [], ◌∷◌, ◌++◌, length, length-append, String, arith,
}
use marstek_energy_trading.Service.Types.{Result}
use marstek_energy_trading.Clients.Wire.{Response}
use marstek_energy_trading.Clients.Homewizard.Meter.{DeviceInfo}
use marstek_energy_trading.Clients.Homewizard.Discovery.{DiscoveryResult, scan_workers, probe_p1}
use marstek_energy_trading.Clients.Homewizard.Scan.{
  Pool, start, send_result, cancel_if_sent, Step, take, quit, drain, miss, hit, expire, Reach, here,
  next, Reports, received, closed,
}

abbrev pub In : {A : Type 0} → A → List A → Type 0
In x [] = ⊥
In x (y ∷ ys) = (x ≡ y) ⊎ In x ys

In-remove :
    {A : Type 0} (x y : A) (before after : List A)
    → In x (before ++ y ∷ after)
    → (x ≡ y) ⊎ In x (before ++ after)
In-remove x y [] after h = h
In-remove x y (z ∷ before) after (inl e) = inr (inl e)
In-remove x y (z ∷ before) after (inr h) = elim (In-remove x y before after h) [
  | inl e ↦ inl e
  | inr k ↦ inr (inr k)
]

In-middle : {A : Type 0} (y : A) (before after : List A) → In y (before ++ y ∷ after)
In-middle y [] after = inl refl
In-middle y (z ∷ before) after = inr (In-middle y before after)

In-insert :
    {A : Type 0} (x y : A) (before after : List A)
    → In x (before ++ after)
    → In x (before ++ y ∷ after)
In-insert x y [] after h = inr h
In-insert x y (z ∷ before) after (inl e) = inl e
In-insert x y (z ∷ before) after (inr h) = inr (In-insert x y before after h)

module _ (decode_device_info : String → Option DeviceInfo) (ips : List String) where
  abbrev probe : String → Result Response → Option DiscoveryResult
  probe = probe_p1 decode_device_info

  -- The address was probed, and its answer showed no meter.
  abbrev pub IsMissed : String → Pool → Type 0
  IsMissed ip s = (answer : Result Response) × In (ip, answer) s.probed × (probe ip answer ≡ none)

  -- A meter that one of the addresses answered as.
  abbrev pub IsFound : DiscoveryResult → Pool → Type 0
  IsFound r s =
      (ip : String) × (answer : Result Response) × In ip ips
      × In (ip, answer) s.probed
      × (probe ip answer ≡ some r)

  -- While no result is sent and the time is not up: no address is lost.
  record IsQuiet (s : Pool) : Type 0 where
    live : s.cancelled ≡ false
    drained : (s.finished ≡ 0) ⊎ (s.queue ≡ [])
    covered : (ip : String) → In ip ips → In ip s.queue ⊎ (In ip s.probing ⊎ IsMissed ip s)

  record IsScan (s : Pool) : Type 0 where
    workers : s.waiting + length s.probing + s.finished ≡ scan_workers
    queued : (ip : String) → In ip s.queue → In ip ips
    asked : (ip : String) → In ip s.probing → In ip ips
    found : (r : DiscoveryResult) → s.result ≡ some r → IsFound r s
    quiet : s.result ≡ none → s.expired ≡ false → IsQuiet s

  start-IsScan : IsScan (start ips)
  unfolding start
  start-IsScan = record {
    workers = refl;
    queued = λ ip h. h;
    asked = λ ip h. absurd h;
    found = λ r e. cc;
    quiet = λ p q. record { live = refl; drained = inl refl; covered = λ ip h. inl h };
  }

  take-IsScan :
      (s : Pool) (ip : String) (q : List String) (n : ℕ)
      → s.queue ≡ ip ∷ q
      → s.waiting ≡ suc n
      → IsScan s
      → IsScan (record s { queue = q; waiting = n; probing = ip ∷ s.probing })
  take-IsScan s ip q n hq hw v = record {
    workers = let e = v.workers in omega arith;
    queued = λ x h. v.queued x (rw hq (inr h));
    asked = λ x h. elim h [ inl e ↦ v.queued x (rw hq (inl e)) | inr k ↦ v.asked x k ];
    found = v.found;
    quiet = λ p q'.
        let w = v.quiet p q' in
        record {
          live = w.live;
          drained = elim w.drained [ inl e ↦ inl e | inr e ↦ absurd (cc (sym hq ∙ e)) ];
          covered = λ x h. elim (w.covered x h) [
            | inl k ↦ elim (subst (In x) hq k) [ inl e ↦ inr (inl (inl e)) | inr j ↦ inl j ]
            | inr (inl k) ↦ inr (inl (inr k))
            | inr (inr k) ↦ inr (inr k)
          ];
        };
  }

  quit-IsScan :
      (s : Pool) (ip : String) (q : List String) (n : ℕ)
      → s.queue ≡ ip ∷ q
      → s.waiting ≡ suc n
      → s.cancelled ≡ true
      → IsScan s
      → IsScan (record s { queue = q; waiting = n; finished = suc s.finished })
  quit-IsScan s ip q n hq hw hc v = record {
    workers = let e = v.workers in omega arith;
    queued = λ x h. v.queued x (rw hq (inr h));
    asked = v.asked;
    found = v.found;
    quiet = λ p q'. absurd (let w = v.quiet p q' in cc (sym hc ∙ w.live));
  }

  drain-IsScan :
      (s : Pool) (n : ℕ)
      → s.queue ≡ []
      → s.waiting ≡ suc n
      → IsScan s
      → IsScan (record s { waiting = n; finished = suc s.finished })
  drain-IsScan s n hq hw v = record {
    workers = let e = v.workers in omega arith;
    queued = v.queued;
    asked = v.asked;
    found = v.found;
    quiet = λ p q'.
        let w = v.quiet p q' in
        record { live = w.live; drained = inr hq; covered = λ x h. w.covered x h };
  }

  length-remove :
      (ip : String) (before after l : List String)
      → l ≡ before ++ ip ∷ after
      → length l ≡ suc (length (before ++ after))
  length-remove ip before after l h =
      omega (arith, ap length h, length-append before (ip ∷ after), length-append before after)

  miss-IsScan :
      (s : Pool) (before after : List String) (ip : String) (answer : Result Response)
      → s.probing ≡ before ++ ip ∷ after
      → probe ip answer ≡ none
      → IsScan s
      → IsScan (record s {
        waiting = suc s.waiting;
        probing = before ++ after;
        probed = (ip, answer) ∷ s.probed;
      })
  miss-IsScan s before after ip answer hp ha v = record {
    workers =
        let e = v.workers in let l = length-remove ip before after s.probing hp in omega arith;
    queued = v.queued;
    asked = λ x h. v.asked x (rw hp (In-insert x ip before after h));
    found = λ r e. let (i, a, known, answered, p) = v.found r e in (i, a, known, inr answered, p);
    quiet = λ p q.
        let w = v.quiet p q in
        record {
          live = w.live;
          drained = w.drained;
          covered = λ x h. elim (w.covered x h) [
            | inl k ↦ inl k
            | inr (inl k) ↦ elim (In-remove x ip before after (subst (In x) hp k)) [
              | inl e ↦ inr (inr (answer, inl (ap (λ (i : String). (i, answer)) e), rw e ha))
              | inr j ↦ inr (inl j)
            ]
            | inr (inr (a, answered, m)) ↦ inr (inr (a, inr answered, m))
          ];
        };
  }

  send_result-some : (o : Option DiscoveryResult) (r : DiscoveryResult) → send_result o r ≢ none
  send_result-some none r h = cc
  send_result-some (some f) r h = cc

  send_result-cases :
      (o : Option DiscoveryResult) (r r' : DiscoveryResult)
      → send_result o r ≡ some r'
      → (r ≡ r') ⊎ (o ≡ some r')
  send_result-cases none r r' h = inl (cc)
  send_result-cases (some f) r r' h = inr h

  hit-IsScan :
      (s : Pool) (before after : List String) (ip : String) (answer : Result Response)
      (r : DiscoveryResult)
      → s.probing ≡ before ++ ip ∷ after
      → probe ip answer ≡ some r
      → IsScan s
      → IsScan (record s {
        probing = before ++ after;
        finished = suc s.finished;
        cancelled = cancel_if_sent s.result s.cancelled;
        result = send_result s.result r;
        probed = (ip, answer) ∷ s.probed;
      })
  hit-IsScan s before after ip answer r hp ha v = record {
    workers =
        let e = v.workers in let l = length-remove ip before after s.probing hp in omega arith;
    queued = v.queued;
    asked = λ x h. v.asked x (rw hp (In-insert x ip before after h));
    found = λ r' e. elim (send_result-cases s.result r r' e) [
      | inl same ↦
          (ip, answer, v.asked ip (rw hp (In-middle ip before after)), inl refl, ha ∙ ap some same)
      | inr old ↦ let (i, a, known, answered, p) = v.found r' old in (i, a, known, inr answered, p)
    ];
    quiet = λ p q. absurd (send_result-some s.result r p);
  }

  expire-IsScan : (s : Pool) → IsScan s → IsScan (record s { cancelled = true; expired = true })
  expire-IsScan s v = record {
    workers = v.workers;
    queued = v.queued;
    asked = v.asked;
    found = v.found;
    quiet = λ p q. absurd (cc q);
  }

  Step-IsScan : {s t : Pool} → Step decode_device_info s t → IsScan s → IsScan t
  Step-IsScan (take s ip q n hq hw hc) v = take-IsScan s ip q n hq hw v
  Step-IsScan (quit s ip q n hq hw hc) v = quit-IsScan s ip q n hq hw hc v
  Step-IsScan (drain s n hq hw) v = drain-IsScan s n hq hw v
  Step-IsScan (miss s b a ip answer hp ha) v = miss-IsScan s b a ip answer hp ha v
  Step-IsScan (hit s b a ip answer r hp ha) v = hit-IsScan s b a ip answer r hp ha v
  Step-IsScan (expire s) v = expire-IsScan s v

  Reach-IsScan : {s t : Pool} → IsScan s → Reach decode_device_info s t → IsScan t
  Reach-IsScan v here = v
  Reach-IsScan v (next r st) = Step-IsScan st (Reach-IsScan v r)

  -- In every state that a scan reaches, at most 64 requests are under way.
  pub probing-le :
      {s : Pool} → Reach decode_device_info (start ips) s → length s.probing ≤ scan_workers
  probing-le r = let v = Reach-IsScan start-IsScan r in let e = v.workers in omega arith

  -- For every order of the workers' steps, a result that the scan reports is made from the answer of
  -- one of the addresses, which the probe takes for a meter.
  pub scan_found :
      (s : Pool) (r : DiscoveryResult)
      → Reach decode_device_info (start ips) s
      → Reports s (some r)
      → IsFound r s
  scan_found s r reach (received d e) = let v = Reach-IsScan start-IsScan reach in v.found d e

  -- For every order of the workers' steps, where the scan reports no meter before its time is up,
  -- every address was probed and gave an answer that shows no meter.
  pub scan_complete :
      (s : Pool) (ip : String)
      → Reach decode_device_info (start ips) s
      → Reports s none
      → s.expired ≡ false
      → In ip ips
      → IsMissed ip s
  scan_complete s ip reach (closed hw hp hr) fresh known =
      let v = Reach-IsScan start-IsScan reach in
      let w = v.quiet hr fresh in
      let idle : s.queue ≡ [] = elim w.drained [
        | inl e ↦ absurd (let k = v.workers in let l = ap length hp in omega arith)
        | inr e ↦ e
      ] in
      elim (w.covered ip known) [
        | inl k ↦ absurd (subst (In ip) idle k)
        | inr (inl k) ↦ absurd (subst (In ip) hp k)
        | inr (inr m) ↦ m
      ]
