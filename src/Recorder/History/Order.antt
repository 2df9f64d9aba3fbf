-- ===== src/Recorder/History/Order.antt =====
-- The order of the days in `GetHistory` of service/recorder.go.
use mathlib.Core.List.{Perm}
use mathlib.Core.List.Perm
use marstek_energy_trading.Prelude.{
  ℕ, zero, suc, ◌≤◌, ◌≡◌, refl, ap, inl, inr, Bool-cases, List, [], ◌∷◌, map, length, All, ltb,
  ltb→lt, if◌then◌else◌, arith,
}
use marstek_energy_trading.Platform.{Platform}
use marstek_energy_trading.Recorder.Types.{Trade, DailySummary}
use marstek_energy_trading.Recorder.History.{
  group_by_day, summarise_day, sift, sort_days, get_history,
}

module _ (N : Platform) where
  abbrev Day : Type 0
  Day = DailySummary N

  -- A top that is not before `date`, nor before the rest.
  record IsTop (date : ℕ) (p : Day × List Day) : Type 0 where
    latest : date ≤ p.0.date
    others : All (λ (e : Day). e.date ≤ p.0.date) p.1

  -- The latest day first.
  abbrev pub IsDescending : List Day → Type 0
  IsDescending [] = Unit
  IsDescending (d ∷ days) = All (λ (e : Day). e.date ≤ d.date) days × IsDescending days

  -- One step: `y` is put behind the top of `x ∷ days`.
  sift_step :
      (x y top : Day) (rest days : List Day)
      → Perm (top ∷ rest) (x ∷ days)
      → Perm (top ∷ y ∷ rest) (y ∷ x ∷ days)
  sift_step x y top rest days h = Perm.trans (Perm.swap y top rest) (Perm.cons y h)

  sift-perm :
      (d : Day) (days : List Day) → let (top, rest) = sift N d days in Perm (top ∷ rest) (d ∷ days)
  unfolding sift
  sift-perm d [] = Perm.refl (d ∷ [])
  sift-perm d (e ∷ days) = elim (Bool-cases (ltb d.date e.date)) [
    | inl later ↦ rw later (sift_step e d _ _ days (sift-perm e days))
    | inr earlier ↦
        rw earlier (Perm.trans (sift_step d e _ _ days (sift-perm d days)) (Perm.swap d e days))
  ]

  length-sift : (d : Day) (days : List Day) → length (sift N d days).1 ≡ length days
  unfolding sift
  length-sift d [] = refl
  length-sift d (e ∷ days) = ap suc (length-sift (if ltb d.date e.date then e else d) days)

  -- What holds of all days holds of the top and of the rest.
  sift-All :
      (P : Day → Type 0) (d : Day) (days : List Day)
      → P d
      → All P days
      → let (top, rest) = sift N d days in P top × All P rest
  unfolding sift
  sift-All P d [] h hs = (h, tt)
  sift-All P d (e ∷ days) h (he, hs) = elim (Bool-cases (ltb d.date e.date)) [
    | inl later ↦ rw later (let (t, r) = sift-All P e days he hs in (t, (h, r)))
    | inr earlier ↦ rw earlier (let (t, r) = sift-All P d days h hs in (t, (he, r)))
  ]

  sift-IsTop : (d : Day) (days : List Day) → IsTop d.date (sift N d days)
  unfolding sift
  sift-IsTop d [] = record { latest = omega arith; others = tt }
  sift-IsTop d (e ∷ days) = elim (Bool-cases (ltb d.date e.date)) [
    | inl later ↦
        let t = sift-IsTop e days in
        let le = ltb→lt d.date e.date later in
        rw later (record {
          latest = let u = t.latest in omega arith;
          others = (let u = t.latest in omega arith, t.others);
        })
    | inr earlier ↦
        let t = sift-IsTop d days in
        let le : e.date ≤ d.date = ground arith in
        rw earlier
          (record { latest = t.latest; others = (let u = t.latest in omega arith, t.others) })
  ]

  sort_days-All :
      (P : Day → Type 0) (rounds : ℕ) (days : List Day)
      → All P days
      → All P (sort_days N rounds days)
  unfolding sort_days
  sort_days-All P zero days h = h
  sort_days-All P (suc rounds) [] h = tt
  sort_days-All P (suc rounds) (d ∷ days) (h, hs) =
      let (t, r) = sift-All P d days h hs in (t, sort_days-All P rounds (sift N d days).1 r)

  sort_days-IsDescending :
      (rounds : ℕ) (days : List Day) → length days ≤ rounds → IsDescending (sort_days N rounds days)
  unfolding sort_days
  sort_days-IsDescending zero [] h = tt
  sort_days-IsDescending zero (d ∷ days) h = absurd (omega arith)
  sort_days-IsDescending (suc rounds) [] h = tt
  sort_days-IsDescending (suc rounds) (d ∷ days) h =
      let rest = (sift N d days).1 in
      (
        sort_days-All _ rounds rest (sift-IsTop d days).others,
        sort_days-IsDescending rounds rest (omega (arith, length-sift d days)),
      )

  sort_days-perm : (rounds : ℕ) (days : List Day) → Perm (sort_days N rounds days) days
  unfolding sort_days
  sort_days-perm zero days = Perm.refl days
  sort_days-perm (suc rounds) [] = Perm.refl []
  sort_days-perm (suc rounds) (d ∷ days) =
      let (top, rest) = sift N d days in
      Perm.trans (Perm.cons top (sort_days-perm rounds rest)) (sift-perm d days)

  -- The days of a history: the latest first, each summary once, and as many as the history says.
  pub get_history-IsDescending :
      (trades : List (Trade N))
      → let history = get_history N trades in
        IsDescending history.days
        × Perm history.days (map (summarise_day N) (group_by_day N trades []))
        × (history.total_days ≡ length (map (summarise_day N) (group_by_day N trades [])))
  unfolding get_history
  get_history-IsDescending [] = (tt, Perm.refl [], refl)
  get_history-IsDescending (t ∷ trades) =
      let days = map (summarise_day N) (group_by_day N (t ∷ trades) []) in
      (
        sort_days-IsDescending (length days) days (omega arith),
        sort_days-perm (length days) days,
        refl,
      )
