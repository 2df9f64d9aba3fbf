-- ===== src/Analyzer/Plan/Order.antt =====
-- The windows of a plan follow one another: charge, discharge, charge, discharge, …
use native.Mathlib.Decide.{dec_lt}
use native.Mathlib.Nat.{le_refl}
use marstek_energy_trading.Prelude.{
  ℕ, zero, suc, ◌+◌, ◌-◌, ◌≤◌, ◌<◌, ◌≡◌, refl, subst, true, false, Option, none, some, List, [],
  ◌∷◌, length, arith, if◌then◌else◌, leb,
}
use marstek_energy_trading.Platform.{Time, Platform, IsDecimal}
use marstek_energy_trading.Analyzer.Types.{PriceSlot, TradeCycle}
use marstek_energy_trading.Analyzer.Windows.{slot_at}
use marstek_energy_trading.Analyzer.Cycles.{find_best_cycle}
use marstek_energy_trading.Analyzer.Cycles.Pairs.{IsTradable, cycle_at}
use marstek_energy_trading.Analyzer.Cycles.Optimal.{IsOptimalFrom, find_best_cycle_optimal}
use marstek_energy_trading.Analyzer.Lookup.{find_slot_from, find_slot_index}
use marstek_energy_trading.Analyzer.Plan.{find_cycles}
use marstek_energy_trading.Analyzer.Plan.Sorting.{IsSpaced, IsSpaced-get_or, slot_time}

module _ (N : Platform) where
  open N use {Decimal, dec_zero, less_than_or_equal, dec_of_float}

  -- Cycles whose windows are not empty and follow one another from `lo` on.
  abbrev pub IsChain : Time → List (TradeCycle N) → Type 0
  IsChain lo [] = Unit
  IsChain lo (k ∷ ks) =
      (lo ≤ k.charge_window.start)
      × (k.charge_window.start < k.charge_window.end)
      × (k.charge_window.end ≤ k.discharge_window.start)
      × (k.discharge_window.start < k.discharge_window.end)
      × IsChain k.discharge_window.end ks

  le→leb_false : {i n : ℕ} → i < n → leb n i ≡ false
  le→leb_false h = ground arith

  find_slot_from_lem :
      (slots : List (PriceSlot N)) (t : Time) (i : ℕ) {j : ℕ}
      → find_slot_from N slots t i ≡ some j
      → (k : ℕ) × (j ≡ i + k) × (k < length slots) × (t ≤ (slot_at N slots k).time)
  unfolding find_slot_from
  find_slot_from_lem [] t i e = cc
  find_slot_from_lem (s ∷ slots) t i {j} e = elim (dec_lt s.time t) [
    | yes p ↦
        let later : find_slot_from N slots t (suc i) ≡ some j = ground arith in
        let (k, at, inside, late) = find_slot_from_lem slots t (suc i) {j = j} later in
        (suc k, omega arith, omega arith, late)
    | no p ↦ (0, ground arith, omega arith, omega arith)
  ]

  pub find_slot_index_lem :
      (slots : List (PriceSlot N)) (t : Time) {j : ℕ}
      → find_slot_index N slots t ≡ some j
      → (j < length slots) × (t ≤ (slot_at N slots j).time)
  unfolding find_slot_index
  find_slot_index_lem slots t {j} e =
      let (k, at, inside, late) = find_slot_from_lem slots t 0 {j = j} e in
      let same : k ≡ j = omega arith in
      (omega arith, subst (λ n. t ≤ (slot_at N slots n).time) same late)

  module _ (laws : IsDecimal N) (slots : List (PriceSlot N)) (cs ds : ℕ)
      (efficiency min_spread : Decimal) (nonneg : less_than_or_equal dec_zero efficiency ≡ true)
      (hc : 1 ≤ cs) (hd : 1 ≤ ds) (spaced : IsSpaced (slot_time N) slots) where
    -- Every slot from `start` on begins at `lo` or later.
    abbrev pub IsAfter : ℕ → Time → Type 0
    IsAfter start lo = (i : ℕ) → start ≤ i → i < length slots → lo ≤ (slot_at N slots i).time

    slot_mono :
        (i j : ℕ) → i ≤ j → j < length slots → (slot_at N slots i).time ≤ (slot_at N slots j).time
    slot_mono i j le lt = elim (dec_lt i j) [
      | yes p ↦ omega (
        arith,
        IsSpaced-get_or (slot_time N) slots (record { time = 0; value = dec_zero }) i j spaced p lt,
      )
      | no p ↦
          let e : i ≡ j = omega arith in
          subst (λ n. (slot_at N slots i).time ≤ (slot_at N slots n).time) e (le_refl _)
    ]

    -- The windows of one cycle, by their indices.
    cycle_at_bounds :
        (c d : ℕ)
        → IsTradable N laws slots cs ds efficiency min_spread nonneg hc hd c d
        → let k = cycle_at N laws slots cs ds efficiency min_spread nonneg hc hd c d in
          (k.charge_window.start < k.charge_window.end)
          × (k.charge_window.end ≤ k.discharge_window.start)
          × (k.discharge_window.start < k.discharge_window.end)
    cycle_at_bounds c d t =
        let inside = t.inside in
        let after = t.after in
        omega (
          arith,
          slot_mono c (c + cs - 1) (omega arith) (omega arith),
          slot_mono d (d + ds - 1) (omega arith) (omega arith),
          IsSpaced-get_or (slot_time N) slots (record { time = 0; value = dec_zero }) (c + cs - 1) d
              spaced (omega arith) (omega arith),
        )

    -- The rest of the list, from the slot at or after the end of the last discharge window.
    abbrev rest_of : (ℕ → List (TradeCycle N)) → Option ℕ → List (TradeCycle N)
    rest_of rest none = []
    rest_of rest (some next) = if leb (length slots) next then [] else rest next

    rest_of-IsChain :
        (rest : ℕ → List (TradeCycle N)) (end : Time) (found : Option ℕ)
        → find_slot_index N slots end ≡ found
        → ((next : ℕ) → IsAfter next end → IsChain end (rest next))
        → IsChain end (rest_of rest found)
    rest_of-IsChain rest end none e h = tt
    rest_of-IsChain rest end (some next) e h =
        let (inside, late) = find_slot_index_lem slots end {j = next} e in
        rw (le→leb_false inside) (h next (λ i le lt. omega (arith, slot_mono next i le lt)))

    pub find_cycles-IsChain :
        (rounds start : ℕ) (lo : Time)
        → IsAfter start lo
        → IsChain lo (find_cycles N slots cs ds efficiency min_spread rounds start)
    unfolding find_cycles
    find_cycles-IsChain zero start lo h = tt
    find_cycles-IsChain (suc rounds) start lo h =
        with_best (find_best_cycle N slots start cs ds efficiency min_spread)
          (find_best_cycle_optimal N laws slots cs ds efficiency min_spread nonneg hc hd start)
          (λ next end after. find_cycles-IsChain rounds next end after)
      where
        with_best :
            (best : Option (TradeCycle N))
            → IsOptimalFrom N laws slots cs ds efficiency min_spread nonneg hc hd start best
            → ((next : ℕ) (end : Time)
                → IsAfter next end
                → IsChain end (find_cycles N slots cs ds efficiency min_spread rounds next))
            → IsChain lo (elim best [
              | none ↦ []
              | some cycle ↦
                  cycle
                  ∷ rest_of
                      (find_cycles N slots cs ds efficiency min_spread rounds)
                      (find_slot_index N slots cycle.discharge_window.end)
            ])
        with_best none o ih = tt
        with_best (some k) (c, d, le, t, made, _) ih =
            let (p, q, r) = cycle_at_bounds c d t in
            let inside = t.inside in
            let after = t.after in
            rw made (
              h c le (omega arith),
              p,
              q,
              r,
              rest_of-IsChain (find_cycles N slots cs ds efficiency min_spread rounds)
                  (cycle_at N laws slots cs ds efficiency min_spread nonneg hc hd c
                    d).discharge_window.end
                  _ refl (λ next after. ih next _ after),
            )
