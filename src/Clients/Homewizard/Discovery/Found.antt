-- ===== src/Clients/Homewizard/Discovery/Found.antt =====
-- What the search over mDNS of clients/homewizard/discover.go returns.
use text.Mathlib.Text
use text.Mathlib.TextEquality.{eq_iff}
use marstek_energy_trading.Prelude.{
  ◌≡◌, refl, ap, ◌∙◌, inl, inr, Bool-cases, Option, none, some, Option-cases, List, [], ◌∷◌, ◌++◌,
  All, String,
}
use marstek_energy_trading.Service.Types.{ok}
use marstek_energy_trading.Clients.Homewizard.Discovery.{
  DiscoveryResult, ServiceEntry, parse_txt_records, txt_value, host_of, mdns_result, first_result,
  discover_mdns,
}

-- The value of a key in the records of an answer.
abbrev pub txt_of : String → ServiceEntry → String
txt_of key entry = txt_value key (parse_txt_records entry.text)

-- A P1 meter whose interface is enabled and that has an address.
pub record IsMeter (entry : ServiceEntry) (r : DiscoveryResult) : Type 0 where
  pub host : String
  pub product : txt_of "product_type" entry ≡ "HWE-P1"
  pub enabled : txt_of "api_enabled" entry ≡ "1"
  pub address : host_of entry.addr_ipv4 entry.addr_ipv6 ≡ some host
  pub serial : r.serial ≡ txt_of "serial" entry

mdns_result-IsMeter :
    (entry : ServiceEntry) (r : DiscoveryResult) → mdns_result entry ≡ some r → IsMeter entry r
unfolding mdns_result
mdns_result-IsMeter entry r h =
    elim (Bool-cases (Text.◌==◌ (txt_of "product_type" entry) "HWE-P1")) [
      | inr bad ↦ cc (rw (bad, mdns_result) at h)
      | inl good ↦ elim (Bool-cases (Text.◌==◌ (txt_of "api_enabled" entry) "1")) [
        | inr off ↦ cc (rw (good, off, mdns_result) at h)
        | inl on ↦ elim (Option-cases (host_of entry.addr_ipv4 entry.addr_ipv6)) [
          | inl lost ↦ cc (rw (good, on, lost, mdns_result) at h)
          | inr (host, e) ↦ record {
            host = host;
            product = (eq_iff _ _).0 good;
            enabled = (eq_iff _ _).0 on;
            address = e;
            serial = cc (rw (good, on, e, mdns_result) at h);
          }
        ]
      ]
    ]

-- The first answer that is taken, and its place.
pub record IsFirst (entries : List ServiceEntry) (r : DiscoveryResult) : Type 0 where
  pub before : List ServiceEntry
  pub entry : ServiceEntry
  pub after : List ServiceEntry
  pub place : entries ≡ before ++ entry ∷ after
  pub skipped : All (λ e. mdns_result e ≡ none) before
  pub meter : IsMeter entry r

first_result-IsFirst :
    (entries : List ServiceEntry) (r : DiscoveryResult)
    → first_result entries ≡ some r
    → IsFirst entries r
unfolding first_result
first_result-IsFirst [] r h = cc
first_result-IsFirst (e ∷ entries) r h = elim (Option-cases (mdns_result e)) [
  | inl skip ↦
      let f = first_result-IsFirst entries r (rw (skip, first_result) at h) in
      record {
        before = e ∷ f.before;
        entry = f.entry;
        after = f.after;
        place = ap (λ l. e ∷ l) f.place;
        skipped = (skip, f.skipped);
        meter = f.meter;
      }
  | inr (r', took) ↦ record {
    before = [];
    entry = e;
    after = entries;
    place = refl;
    skipped = tt;
    meter =
        mdns_result-IsMeter e r
          (took ∙ let q : some r' ≡ some r = rw (took, first_result) at h in q);
  }
]

-- A search over mDNS without an error returns a device that says that it is a P1 meter with its
-- interface enabled, that has an address and whose serial number is returned; every answer before it
-- was skipped.
pub discover_mdns-IsFirst :
    (resolver_err browse_err : Option String) (entries : List ServiceEntry) (r : DiscoveryResult)
    → discover_mdns resolver_err browse_err entries ≡ ok r
    → IsFirst entries r
unfolding discover_mdns
discover_mdns-IsFirst (some e) browse_err entries r h = cc
discover_mdns-IsFirst none (some e) entries r h = cc
discover_mdns-IsFirst none none entries r h = elim (Option-cases (first_result entries)) [
  | inl nothing ↦ cc (rw (nothing, discover_mdns) at h)
  | inr (r', e) ↦
      first_result-IsFirst entries r
        (e ∙ ap some (let q : r' ≡ r = cc (rw (e, discover_mdns) at h) in q))
]
