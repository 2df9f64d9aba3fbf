-- ===== src/Tests/Meters.antt =====
-- Witnesses for the search for a P1 meter: a scan of two addresses, and two answers over mDNS.
use marstek_energy_trading.Prelude.{
  ℕ, zero, suc, ◌+◌, ◌≡◌, refl, subst, true, false, inl, Option, none, some, List, [], ◌∷◌, String,
  pos, arith,
}
use marstek_energy_trading.Service.Types.{Result, ok, failed}
use marstek_energy_trading.Clients.Wire.{Response}
use marstek_energy_trading.Clients.Homewizard.Meter.{DeviceInfo}
use marstek_energy_trading.Clients.Homewizard.Discovery.{
  DiscoveryResult, ServiceEntry, probe_p1, discover_mdns,
}
use marstek_energy_trading.Clients.Homewizard.Scan.{
  Pool, start, take, drain, miss, hit, Reach, here, next, closed,
}
use marstek_energy_trading.Clients.Homewizard.Scan.Complete.{IsMissed, scan_complete}

abbrev meter_info : DeviceInfo
meter_info = record {
  product_name = "P1 meter";
  product_type = "HWE-P1";
  serial = "3c39e7aabbcc";
  firmware = "4.19";
  api_version = "v1";
}

abbrev info_in : String → Option DeviceInfo
info_in body = some meter_info

abbrev meter_answer : Result Response
meter_answer = ok (record { status = 200; body = "" })

abbrev no_answer : Result Response
no_answer = failed "no route to host"

abbrev meter : DiscoveryResult
meter = record {
  url = "http://192.168.1.7";
  serial = "3c39e7aabbcc";
  hostname = "P1 meter";
  method = "http_scan";
}

abbrev ips : List String
ips = "192.168.1.7" ∷ []

-- The first worker has taken the only address.
abbrev taken : Pool
taken = record {
  queue = [];
  waiting = 63;
  probing = ips;
  finished = 0;
  cancelled = false;
  expired = false;
  result = none;
  probed = [];
}

taken_reached : Reach info_in (start ips) taken
unfolding start
taken_reached = next here (take (start ips) "192.168.1.7" [] 63 refl refl refl)

abbrev found : Pool
found = record taken {
  probing = [];
  finished = 1;
  cancelled = true;
  result = some meter;
  probed = ("192.168.1.7", meter_answer) ∷ [];
}

found_reached : Reach info_in (start ips) found
unfolding probe_p1
found_reached = next taken_reached (hit taken [] [] "192.168.1.7" meter_answer meter refl refl)

abbrev missed : Pool
missed = record taken { waiting = 64; probing = []; probed = ("192.168.1.7", no_answer) ∷ [] }

missed_reached : Reach info_in (start ips) missed
unfolding probe_p1
missed_reached = next taken_reached (miss taken [] [] "192.168.1.7" no_answer refl refl)

-- All workers find the channel empty and return.
abbrev with_finished : ℕ → ℕ → Pool
with_finished n k = record missed { waiting = n; finished = k }

drained :
    (n k : ℕ)
    → Reach info_in (start ips) (with_finished n k)
    → Reach info_in (start ips) (with_finished 0 (n + k))
drained zero k r =
    subst (λ (j : ℕ). Reach info_in (start ips) (with_finished 0 j))
      (let e : k ≡ 0 + k = omega arith in e) r
drained (suc n) k r =
    let s = with_finished (suc n) k in
    let rest = drained n (suc k) (next r (drain s n refl refl)) in
    subst (λ (j : ℕ). Reach info_in (start ips) (with_finished 0 j))
      (let e : n + suc k ≡ suc n + k = omega arith in e) rest

done_reached : Reach info_in (start ips) (with_finished 0 64)
done_reached = drained 64 0 missed_reached

scan_complete_example : IsMissed info_in ips "192.168.1.7" (with_finished 0 64)
scan_complete_example =
    scan_complete info_in ips (with_finished 0 64) "192.168.1.7" done_reached
      (closed refl refl refl) refl (inl refl)

abbrev entry : ServiceEntry
entry = record {
  host_name = "p1meter-aabbcc.local.";
  port = pos 80;
  text = "product_type=HWE-P1" ∷ "api_enabled=1" ∷ "serial=3c39e7aabbcc" ∷ [];
  addr_ipv4 = "192.168.1.7" ∷ [];
  addr_ipv6 = [];
}

abbrev plug : ServiceEntry
plug = record entry { text = "product_type=HWE-SKT" ∷ "api_enabled=1" ∷ [] }

abbrev announced : DiscoveryResult
announced = record meter {
  url = "http://192.168.1.7:80";
  hostname = "p1meter-aabbcc.local.";
  method = "mdns";
}

heard : discover_mdns none none (plug ∷ entry ∷ []) ≡ ok announced
unfolding discover_mdns
heard = refl
