-- ===== src/Program/Goroutines/Finish.antt =====
-- The process of cmd/trader/main.go can always end.
use marstek_energy_trading.Prelude.{◌≡◌, refl, ◌⊎◌, inl, inr, true, false, arith}
use marstek_energy_trading.Platform.{Platform}
use marstek_energy_trading.Service.Types.{Env}
use marstek_energy_trading.Service.Machine.{Machine}
use marstek_energy_trading.Program.Goroutines.{
  Server, closing, closed, close, Phase, waiting, shutting, joining, exited, panicked, killed,
  is_live, Program, launched, Step, woken, server_returned, shut, joined, Reach, here, next,
}
use marstek_energy_trading.Program.Goroutines.Exits.{
  is_listening, is_broken, has_returned, Holds, Reach-IsOrderly, Engine-returned,
}

not_listening :
    (s : Server) → is_listening s ≡ false → is_broken s ≡ false → (s ≡ closed) ⊎ (s ≡ closing)
not_listening s h k = ground arith

close-is_settled :
    (s : Server)
    → is_broken s ≡ false
    → (is_listening (close s) ≡ false) × (is_broken (close s) ≡ false)
close-is_settled s k = ground arith

module _ {N : Platform} {E : Env N} (m : Machine E) where
  -- A run without a signal that ends with code 0.
  abbrev pub Finishes : Program E → Type 0
  Finishes p = (q : Program E) × Reach m false p q × (q.phase ≡ exited 0)

  Reach-cons : {p q r : Program E} → Step m false p q → Reach m false q r → Reach m false p r
  Reach-cons s here = next here s
  Reach-cons s (next r t) = next (Reach-cons s r) t

  before : {p q : Program E} → Step m false p q → Finishes q → Finishes p
  before s (q, r, e) = (q, Reach-cons s r, e)

  finish_closed :
      (p : Program E)
      → p.phase ≡ joining
      → p.server ≡ closed
      → has_returned p.engine ≡ true
      → Finishes p
  finish_closed p j s o =
      let (exit, m', e) = Engine-returned p.engine o in
      before (joined exit m' j s e) (record p { phase = exited 0 }, here, refl)

  finish_joining :
      (p : Program E)
      → p.phase ≡ joining
      → is_listening p.server ≡ false
      → is_broken p.server ≡ false
      → has_returned p.engine ≡ true
      → Finishes p
  finish_joining p j s b o = elim (not_listening p.server s b) [
    | inl c ↦ finish_closed p j c o
    | inr c ↦
        before (server_returned (rw j refl) c)
          (finish_closed (record p { server = closed }) j refl o)
  ]

  finish_from :
      (ph : Phase) (p : Program E)
      → p.phase ≡ ph
      → is_live ph ≡ true
      → p.cancelled ≡ true
      → is_broken p.server ≡ false
      → Holds ph p.server p.cancelled p.released p.engine
      → has_returned p.engine ≡ true
      → Finishes p
  finish_from waiting p e l c b h o =
      let (s, k) = close-is_settled p.server b in
      before (woken e c) (
        before (shut refl)
          (finish_joining (record p { server = close p.server; phase = joining }) refl s k o))
  finish_from shutting p e l c b (h, s) o =
      before (shut e) (finish_joining (record p { phase = joining }) refl s b o)
  finish_from joining p e l c b (h, s) o = finish_joining p e s b o
  finish_from (exited code) p e l c b h o = cc
  finish_from panicked p e l c b h o = cc
  finish_from killed p e l c b h o = cc

  -- No shutdown deadlocks: from every state that the process reaches, while it runs, once `Start` has
  -- returned for whatever reason and unless `ListenAndServe` has failed, the goroutines can go on, with
  -- no further signal, so that the process ends with code 0.
  pub finish :
      (p : Program E)
      → Reach m true (launched E) p
      → is_live p.phase ≡ true
      → is_broken p.server ≡ false
      → has_returned p.engine ≡ true
      → Finishes p
  finish p r l b o =
      let h = Reach-IsOrderly m r in finish_from p.phase p refl l (h.over o).0 b h.phase o
