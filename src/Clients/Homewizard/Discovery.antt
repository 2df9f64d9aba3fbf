-- ===== src/Clients/Homewizard/Discovery.antt =====
-- The search for a P1 meter, clients/homewizard/discover.go: the answers over mDNS, the probe of one
-- address, and the addresses that are scanned. The workers of the scan are in Homewizard.Scan.
pub mod Found
use text.Mathlib.Text
use Prim.Native.String.{◌++◌ as ◌<>◌}
use mathlib.Core.List.{foldl}
use marstek_energy_trading.Prelude.{
  ℕ, zero, suc, ◌+◌, ◌&&◌, Bool, Option, none, some, List, [], ◌∷◌, ◌++◌, String, ℤ, pos,
  if◌then◌else◌,
}
use marstek_energy_trading.Service.Types.{Result, ok, failed}
use marstek_energy_trading.Clients.Wire.{Response, body_of, decoded}
use marstek_energy_trading.Clients.Format.{cut_equals, decimal}
use marstek_energy_trading.Clients.Homewizard.Meter.{DeviceInfo}

pub record DiscoveryResult : Type 0 where
  pub url : String
  pub serial : String
  pub hostname : String
  pub method : String

-- `zeroconf.ServiceEntry`, the fields that are read.
pub record ServiceEntry : Type 0 where
  pub host_name : String
  pub port : ℤ
  pub text : List String
  pub addr_ipv4 : List String
  pub addr_ipv6 : List String

-- The map of the records: a later record of a key stands before an earlier one.
abbrev pub TxtRecords : Type 0
TxtRecords = List (String × String)

abbrev pub add_txt_record : TxtRecords → String → TxtRecords
add_txt_record m r = elim (cut_equals r) [ none ↦ m | some kv ↦ kv ∷ m ]

unfoldable pub parse_txt_records : List String → TxtRecords
unfolding cut_equals
parse_txt_records records = foldl add_txt_record [] records

-- A key that is missing reads as the empty text.
unfoldable pub txt_value : String → TxtRecords → String
txt_value key [] = ""
txt_value key ((k, v) ∷ m) = if Text.◌==◌ k key then v else txt_value key m

-- The host of a URL: an address of version 4 comes first.
unfoldable pub host_of : List String → List String → Option String
host_of (a ∷ v4) v6 = some a
host_of [] (a ∷ v6) = some ("[" <> a <> "]")
host_of [] [] = none

-- One answer: `none` where the loop goes on to the next.
unfoldable pub mdns_result : ServiceEntry → Option DiscoveryResult
unfolding parse_txt_records txt_value host_of decimal
mdns_result entry =
    let txt = parse_txt_records entry.text in
    if Text.◌==◌ (txt_value "product_type" txt) "HWE-P1"
      && Text.◌==◌ (txt_value "api_enabled" txt) "1"
    then elim (host_of entry.addr_ipv4 entry.addr_ipv6) [
      | none ↦ none
      | some host ↦ some (record {
        url = "http://" <> host <> ":" <> decimal entry.port;
        serial = txt_value "serial" txt;
        hostname = entry.host_name;
        method = "mdns";
      })
    ]
    else none

-- The goroutine over the answers, which stops at the first meter.
unfoldable pub first_result : List ServiceEntry → Option DiscoveryResult
unfolding mdns_result
first_result [] = none
first_result (entry ∷ entries) =
    let rest = first_result entries in elim (mdns_result entry) [ some r ↦ some r | none ↦ rest ]

-- The resolver, the browsing, and the answers before the timeout.
unfoldable pub discover_mdns :
    Option String → Option String → List ServiceEntry → Result DiscoveryResult
unfolding first_result
discover_mdns (some e) browse_err entries = failed e
discover_mdns none (some e) entries = failed e
discover_mdns none none entries = elim (first_result entries) [
  | some r ↦ ok r
  | none ↦ failed "no HomeWizard P1 meter found via mDNS"
]

-- The probe of one address, by the answer to `GET /api` there.
unfoldable pub probe_p1 :
    (String → Option DeviceInfo) → String → Result Response → Option DiscoveryResult
unfolding body_of decoded
probe_p1 decode_device_info ip answer = elim (decoded decode_device_info (body_of answer)) [
  | failed e ↦ none
  | ok info ↦
      if Text.◌==◌ info.product_type "HWE-P1"
      then some (record {
        url = "http://" <> ip;
        serial = info.serial;
        hostname = info.product_name;
        method = "http_scan";
      })
      else none
]

abbrev pub scan_workers : ℕ
scan_workers = 64

abbrev pub scan_subnets : List String
scan_subnets = "192.168.1" ∷ "192.168.0" ∷ []

-- `count` addresses of a subnet from `i` on.
unfoldable pub subnet_ips : String → ℕ → ℕ → List String
unfolding decimal
subnet_ips subnet i zero = []
subnet_ips subnet i (suc count) =
    (subnet <> "." <> decimal (pos i)) ∷ subnet_ips subnet (i + 1) count

unfoldable pub scan_ips : List String → List String
unfolding subnet_ips
scan_ips [] = []
scan_ips (subnet ∷ subnets) = subnet_ips subnet 1 254 ++ scan_ips subnets

-- `Discover`: the scan counts only where mDNS fails.
unfoldable pub discover : Result DiscoveryResult → Result DiscoveryResult → Result DiscoveryResult
discover (ok r) scan = ok r
discover (failed e) (ok r) = ok r
discover (failed e) (failed e') = failed e'
