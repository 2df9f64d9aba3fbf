-- ===== src/Analyzer/Plan/Sorting.antt =====
-- Lists of slots in the order of time, no two less than a quarter of an hour apart, and the sort.
use marstek_energy_trading.Prelude.{
  ℕ, zero, suc, ◌+◌, ◌≤◌, ◌<◌, ◌⊎◌, List, [], ◌∷◌, map, length, get_or, All, arith, Bool-cases, inl,
  inr,
}
use marstek_energy_trading.Platform.{Time, Platform, before}
use marstek_energy_trading.Analyzer.Types.{Price, PriceSlot}
use marstek_energy_trading.Analyzer.Windows.{quarter}
use marstek_energy_trading.Analyzer.Plan.{insert_by_time, sort_by_time, to_slot}

-- The slots at `t` and `u` do not overlap.
abbrev pub AreApart : Time → Time → Type 0
AreApart t u = (t + quarter ≤ u) ⊎ (u + quarter ≤ t)

module _ {ℓ} {A : Type ℓ} (time_of : A → Time) where
  -- Every slot ends before the later ones begin.
  abbrev pub IsSpaced : List A → Type 0
  IsSpaced [] = Unit
  IsSpaced (x ∷ xs) = All (λ y. time_of x + quarter ≤ time_of y) xs × IsSpaced xs

  -- No two slots overlap, in whatever order they stand.
  abbrev pub IsDisjoint : List A → Type 0
  IsDisjoint [] = Unit
  IsDisjoint (x ∷ xs) = All (λ y. AreApart (time_of x) (time_of y)) xs × IsDisjoint xs

  pub All-get_or {κ} :
      (P : A → Type κ) (xs : List A) (d : A) (i : ℕ) → All P xs → i < length xs → P (get_or xs i d)
  All-get_or P [] d i h lt = absurd (omega arith)
  All-get_or P (x ∷ xs) d zero h lt = h.0
  All-get_or P (x ∷ xs) d (suc i) h lt = All-get_or P xs d i h.1 (omega arith)

  pub IsSpaced-get_or :
      (xs : List A) (d : A) (i j : ℕ)
      → IsSpaced xs
      → i < j
      → j < length xs
      → time_of (get_or xs i d) + quarter ≤ time_of (get_or xs j d)
  IsSpaced-get_or [] d i j h lt le = absurd (omega arith)
  IsSpaced-get_or (x ∷ xs) d i zero h lt le = absurd (omega arith)
  IsSpaced-get_or (x ∷ xs) d zero (suc j) h lt le =
      All-get_or (λ y. time_of x + quarter ≤ time_of y) xs d j h.0 (omega arith)
  IsSpaced-get_or (x ∷ xs) d (suc i) (suc j) h lt le =
      IsSpaced-get_or xs d i j h.1 (omega arith) (omega arith)

module _ (N : Platform) where
  abbrev pub price_time : Price N → Time
  price_time p = p.time

  abbrev pub slot_time : PriceSlot N → Time
  slot_time s = s.time

  All-insert_by_time :
      (P : Price N → Type 0) (p : Price N) (qs : List (Price N))
      → P p
      → All P qs
      → All P (insert_by_time N p qs)
  unfolding insert_by_time
  All-insert_by_time P p [] h hs = (h, tt)
  All-insert_by_time P p (q ∷ qs) h hs = elim (Bool-cases (before q.time p.time)) [
    | inl e ↦ rw e (hs.0, All-insert_by_time P p qs h hs.1)
    | inr e ↦ rw e (h, hs)
  ]

  All-sort_by_time :
      (P : Price N → Type 0) (ps : List (Price N)) → All P ps → All P (sort_by_time N ps)
  unfolding sort_by_time
  All-sort_by_time P [] hs = tt
  All-sort_by_time P (p ∷ ps) hs =
      All-insert_by_time P p (sort_by_time N ps) hs.0 (All-sort_by_time P ps hs.1)

  -- A later bound follows for all that come after a slot that is past it.
  All-weaken :
      (t u : Time) (qs : List (Price N))
      → t ≤ u
      → All (λ q. u ≤ q.time) qs
      → All (λ q. t ≤ q.time) qs
  All-weaken t u [] le h = tt
  All-weaken t u (q ∷ qs) le h = (omega (arith, h.0), All-weaken t u qs le h.1)

  insert_by_time-IsSpaced :
      (p : Price N) (qs : List (Price N))
      → All (λ q. AreApart p.time q.time) qs
      → IsSpaced price_time qs
      → IsSpaced price_time (insert_by_time N p qs)
  unfolding insert_by_time
  insert_by_time-IsSpaced p [] a h = (tt, tt)
  insert_by_time-IsSpaced p (q ∷ qs) a h = elim (Bool-cases (before q.time p.time)) [
    | inl e ↦ rw e (
      All-insert_by_time (λ r. q.time + quarter ≤ r.time) p qs (ground (arith, a.0)) h.0,
      insert_by_time-IsSpaced p qs a.1 h.1,
    )
    | inr e ↦
        let le : p.time + quarter ≤ q.time = ground (arith, a.0) in
        rw e ((le, All-weaken (p.time + quarter) (q.time + quarter) qs (omega arith) h.0), h)
  ]

  -- If no two price slots start within 15 minutes of one another, then in the sorted list every slot
  -- ends before the later ones begin.
  pub sort_by_time-IsSpaced :
      (ps : List (Price N)) → IsDisjoint price_time ps → IsSpaced price_time (sort_by_time N ps)
  unfolding sort_by_time
  sort_by_time-IsSpaced [] h = tt
  sort_by_time-IsSpaced (p ∷ ps) h =
      insert_by_time-IsSpaced p (sort_by_time N ps)
        (All-sort_by_time (λ q. AreApart p.time q.time) ps h.0) (sort_by_time-IsSpaced ps h.1)

  All-to_slot :
      (t : Time) (ps : List (Price N))
      → All (λ p. t ≤ p.time) ps
      → All (λ s. t ≤ s.time) (map (to_slot N) ps)
  All-to_slot t [] h = tt
  All-to_slot t (p ∷ ps) h = (h.0, All-to_slot t ps h.1)

  pub to_slot-IsSpaced :
      (ps : List (Price N)) → IsSpaced price_time ps → IsSpaced slot_time (map (to_slot N) ps)
  to_slot-IsSpaced [] h = tt
  to_slot-IsSpaced (p ∷ ps) h = (All-to_slot (p.time + quarter) ps h.0, to_slot-IsSpaced ps h.1)
