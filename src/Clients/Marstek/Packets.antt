-- ===== src/Clients/Marstek/Packets.antt =====
-- Which packets are answers to a request, apart from how `sendContext` of clients/marstek/client.go
-- tests them.
use text.Mathlib.Text
use text.Mathlib.TextEquality.{eq_iff}
use marstek_energy_trading.Prelude.{
  ℕ, ◌≡◌, ◌≢◌, inl, inr, true, false, Bool-cases, none, some, Option-cases, String, ℤ, pos, negsuc,
  arith,
}
use marstek_energy_trading.Platform.{Platform}
use marstek_energy_trading.Clients.Marstek.Types.{Response, Udp}
use marstek_energy_trading.Clients.Marstek.Socket.{is_id, answer_to}

is_id-eq : (n : ℤ) (id : ℕ) → is_id n id ≡ true → n ≡ pos id
is_id-eq (pos n) id h = ground arith
is_id-eq (negsuc n) id h = cc

is_id-ne : (n : ℤ) (id : ℕ) → is_id n id ≡ false → n ≢ pos id
is_id-ne (pos n) id h e = ground arith
is_id-ne (negsuc n) id h e = cc

module _ {N : Platform} (U : Udp N) where
  -- The packet holds a response with the id of the request and with a source.
  pub record IsAnswer (id : ℕ) (packet : String) (resp : Response) : Type 0 where
    pub holds : U.decode_response packet ≡ some resp
    pub same_id : resp.id ≡ pos id
    pub has_source : resp.src ≢ ""

  -- No response, one to another request, or an echo.
  pub data IsOther (id : ℕ) (packet : String) : Type 0 where
    unreadable : U.decode_response packet ≡ none → IsOther id packet
    other_id :
        (resp : Response)
        → U.decode_response packet ≡ some resp
        → resp.id ≢ pos id
        → IsOther id packet
    echo :
        (resp : Response) → U.decode_response packet ≡ some resp → resp.src ≡ "" → IsOther id packet

  pub answer_to-IsAnswer :
      (id : ℕ) (packet : String) (resp : Response)
      → answer_to U id packet ≡ some resp
      → IsAnswer id packet resp
  unfolding answer_to
  answer_to-IsAnswer id packet resp h = elim (Option-cases (U.decode_response packet)) [
    | inl bad ↦ cc (rw (bad, answer_to) at h)
    | inr (r, e) ↦ elim (Bool-cases (is_id r.id id)) [
      | inr other ↦ cc (rw (e, other, answer_to) at h)
      | inl same ↦ elim (Bool-cases (Text.◌==◌ r.src "")) [
        | inl empty ↦ cc (rw (e, same, empty, answer_to) at h)
        | inr source ↦
            let q : r ≡ resp = cc (rw (e, same, source, answer_to) at h) in
            rw (← q) (record {
              holds = e;
              same_id = is_id-eq r.id id same;
              has_source = λ s. let t = (eq_iff r.src "").1 s in cc;
            })
      ]
    ]
  ]

  pub answer_to-IsOther :
      (id : ℕ) (packet : String) → answer_to U id packet ≡ none → IsOther id packet
  unfolding answer_to
  answer_to-IsOther id packet h = elim (Option-cases (U.decode_response packet)) [
    | inl bad ↦ unreadable bad
    | inr (r, e) ↦ elim (Bool-cases (is_id r.id id)) [
      | inr other ↦ other_id r e (is_id-ne r.id id other)
      | inl same ↦ elim (Bool-cases (Text.◌==◌ r.src "")) [
        | inl empty ↦ echo r e ((eq_iff r.src "").0 empty)
        | inr source ↦ cc (rw (e, same, source, answer_to) at h)
      ]
    ]
  ]
