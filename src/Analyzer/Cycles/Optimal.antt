-- ===== src/Analyzer/Cycles/Optimal.antt =====
-- `findBestCycle` against the set of all pairs of windows.
use native.Mathlib.Decide.{dec_lt}
use native.Mathlib.Nat.{add-zero}
use marstek_energy_trading.Prelude.{
  ℕ, zero, suc, ◌+◌, ◌-◌, ◌≤◌, ◌<◌, ◌≡◌, subst, Bool-cases, inl, inr, true, false, Option, none,
  some, List, length, arith,
}
use marstek_energy_trading.Platform.{Platform, IsDecimal}
use marstek_energy_trading.Analyzer.Types.{PriceSlot, TradeCycle}
use marstek_energy_trading.Analyzer.Cycles.Pairs.{
  IsTradable, cycle_at, IsBestFrom, best_pair_from_lem,
}
use marstek_energy_trading.Analyzer.Cycles.{
  best_pair_from, keep_best, search_cycles, find_best_cycle,
}

module _ (N : Platform) (laws : IsDecimal N) where
  open N use {
    Decimal, dec_zero, less_than, greater_than, less_than_or_equal, dec_sub, dec_mul, dec_div,
  }
  open laws use {
    le_refl, le_trans, le_total, less_than-eq-not, greater_than-eq-not, sub_mono, mul_mono,
  }

  module _ (prices : List (PriceSlot N)) (cs ds : ℕ) (efficiency min_spread : Decimal)
      (nonneg : less_than_or_equal dec_zero efficiency ≡ true) (hc : 1 ≤ cs) (hd : 1 ≤ ds) where
    -- `best` answers for the charge windows that start at `lo` or later and before `hi`.
    pub record IsOptimal (lo hi : ℕ) (k : TradeCycle N) : Type 0 where
      pub c : ℕ
      pub d : ℕ
      pub above : lo ≤ c
      pub below : c < hi
      pub tradable : IsTradable N laws prices cs ds efficiency min_spread nonneg hc hd c d
      pub made : k ≡ cycle_at N laws prices cs ds efficiency min_spread nonneg hc hd c d
      pub best :
          (i j : ℕ)
          → lo ≤ i
          → i < hi
          → IsTradable N laws prices cs ds efficiency min_spread nonneg hc hd i j
          → less_than_or_equal
              (cycle_at N laws prices cs ds efficiency min_spread nonneg hc hd i j).profit
              k.profit
            ≡ true

    abbrev pub Answers : ℕ → ℕ → Option (TradeCycle N) → Type 0
    Answers lo hi none =
        (i j : ℕ)
        → lo ≤ i
        → i < hi
        → ¬ IsTradable N laws prices cs ds efficiency min_spread nonneg hc hd i j
    Answers lo hi (some k) = IsOptimal lo hi k

    Answers-skip :
        (lo i : ℕ) (best : Option (TradeCycle N))
        → ((e : ℕ) → ¬ IsTradable N laws prices cs ds efficiency min_spread nonneg hc hd i e)
        → Answers lo i best
        → Answers lo (i + 1) best
    Answers-skip lo i none dead h = λ c d lc ci t. elim (dec_lt c i) [
      | yes p ↦ h c d lc p t
      | no p ↦
          let e : c ≡ i = omega arith in
          dead d
            (subst (λ n. IsTradable N laws prices cs ds efficiency min_spread nonneg hc hd n d) e t)
    ]
    Answers-skip lo i (some k) dead h = record {
      c = h.c;
      d = h.d;
      above = h.above;
      below = omega (arith, h.below);
      tradable = h.tradable;
      made = h.made;
      best = λ c d lc ci t. elim (dec_lt c i) [
        | yes p ↦ h.best c d lc p t
        | no p ↦
            let e : c ≡ i = omega arith in
            absurd (
              dead d (
                subst (λ n. IsTradable N laws prices cs ds efficiency min_spread nonneg hc hd n d) e
                  t))
      ];
    }

    -- The candidate at `i` replaces the best so far.
    Answers-take :
        (lo i : ℕ) (k : TradeCycle N)
        → lo ≤ i
        → IsBestFrom N laws prices cs ds efficiency min_spread nonneg hc hd i k
        → ((c d : ℕ)
            → lo ≤ c
            → c < i
            → IsTradable N laws prices cs ds efficiency min_spread nonneg hc hd c d
            → less_than_or_equal
                (cycle_at N laws prices cs ds efficiency min_spread nonneg hc hd c d).profit
                k.profit
              ≡ true)
        → IsOptimal lo (i + 1) k
    Answers-take lo i k le b old = record {
      c = i;
      d = b.d;
      above = le;
      below = omega arith;
      tradable = b.tradable;
      made = b.made;
      best = λ c d lc ci t. elim (dec_lt c i) [
        | yes p ↦ old c d lc p t
        | no p ↦
            let e : i ≡ c = omega arith in
            subst
              (λ n.
                IsTradable N laws prices cs ds efficiency min_spread nonneg hc hd n d
                → less_than_or_equal
                    (cycle_at N laws prices cs ds efficiency min_spread nonneg hc hd n d).profit
                    k.profit
                  ≡ true)
              e (b.best d) t
      ];
    }

    Answers-keep :
        (lo i : ℕ) (best k : TradeCycle N)
        → IsBestFrom N laws prices cs ds efficiency min_spread nonneg hc hd i k
        → less_than_or_equal k.profit best.profit ≡ true
        → IsOptimal lo i best
        → IsOptimal lo (i + 1) best
    Answers-keep lo i best k b le h = record {
      c = h.c;
      d = h.d;
      above = h.above;
      below = omega (arith, h.below);
      tradable = h.tradable;
      made = h.made;
      best = λ c d lc ci t. elim (dec_lt c i) [
        | yes p ↦ h.best c d lc p t
        | no p ↦
            let e : i ≡ c = omega arith in
            subst
              (λ n.
                IsTradable N laws prices cs ds efficiency min_spread nonneg hc hd n d
                → less_than_or_equal
                    (cycle_at N laws prices cs ds efficiency min_spread nonneg hc hd n d).profit
                    best.profit
                  ≡ true)
              e (λ u. le_trans _ _ _ (b.best d u) le) t
      ];
    }

    Answers-step :
        (lo i : ℕ) (best : Option (TradeCycle N))
        → lo ≤ i
        → Answers lo i best
        → Answers lo
            (i + 1)
            (keep_best N best (best_pair_from N prices i cs ds efficiency min_spread))
    unfolding keep_best
    Answers-step lo i best le h =
        elim (best_pair_from_lem N laws prices cs ds efficiency min_spread nonneg hc hd i) [
          | inl (e, dead) ↦ rw (e, keep_best) (Answers-skip lo i best dead h)
          | inr (k, e, b) ↦ rw (e, keep_best) (with_candidate best k b h)
        ]
      where
        with_candidate :
            (best : Option (TradeCycle N)) (k : TradeCycle N)
            → IsBestFrom N laws prices cs ds efficiency min_spread nonneg hc hd i k
            → Answers lo i best
            → Answers lo (i + 1) (keep_best N best (some k))
        with_candidate none k b h = Answers-take lo i k le b (λ c d lc ci t. absurd (h c d lc ci t))
        with_candidate (some o) k b h = elim (Bool-cases (greater_than k.profit o.profit)) [
          | inl g ↦
              rw g (
                Answers-take lo i k le b
                  (λ c d lc ci t. le_trans _ _ _ (h.best c d lc ci t) (up g)))
          | inr g ↦ rw g (Answers-keep lo i o k b (down g) h)
        ]
          where
            up : greater_than k.profit o.profit ≡ true → less_than_or_equal o.profit k.profit ≡ true
            up g = ground (arith, greater_than-eq-not k.profit o.profit, le_total k.profit o.profit)

            down :
                greater_than k.profit o.profit ≡ false → less_than_or_equal k.profit o.profit ≡ true
            down g = ground (arith, greater_than-eq-not k.profit o.profit)

    search_cycles-Answers :
        (lo rounds i : ℕ) (best : Option (TradeCycle N))
        → lo ≤ i
        → Answers lo i best
        → Answers lo (i + rounds) (search_cycles N prices cs ds efficiency min_spread rounds i best)
    unfolding search_cycles
    search_cycles-Answers lo zero i best le h = rw add-zero h
    search_cycles-Answers lo (suc rounds) i best le h =
        let e : i + suc rounds ≡ i + 1 + rounds = omega arith in
        rw e (
          search_cycles-Answers lo rounds (i + 1)
            (keep_best N best (best_pair_from N prices i cs ds efficiency min_spread)) (omega arith)
            (Answers-step lo i best le h))

    pub find_best_cycle-Answers :
        (start : ℕ)
        → Answers start
            (start + (length prices + 1 - (start + cs)))
            (find_best_cycle N prices start cs ds efficiency min_spread)
    unfolding find_best_cycle
    find_best_cycle-Answers start =
        search_cycles-Answers start _ start none (omega arith) (λ i j p q t. omega arith)

    -- What `findBestCycle` promises for a search from `start`: if it finds nothing, no pair of windows
    -- from there on can be traded; a cycle that it finds is such a pair, and none earns more.
    abbrev pub IsOptimalFrom : ℕ → Option (TradeCycle N) → Type 0
    IsOptimalFrom start none =
        (i j : ℕ)
        → start ≤ i
        → ¬ IsTradable N laws prices cs ds efficiency min_spread nonneg hc hd i j
    IsOptimalFrom start (some k) =
        (c : ℕ) × (d : ℕ) × (start ≤ c)
        × IsTradable N laws prices cs ds efficiency min_spread nonneg hc hd c d
        × (k ≡ cycle_at N laws prices cs ds efficiency min_spread nonneg hc hd c d)
        × ((i j : ℕ)
            → start ≤ i
            → IsTradable N laws prices cs ds efficiency min_spread nonneg hc hd i j
            → less_than_or_equal
                (cycle_at N laws prices cs ds efficiency min_spread nonneg hc hd i j).profit
                k.profit
              ≡ true)

    Answers-all :
        (start : ℕ) (found : Option (TradeCycle N))
        → Answers start (start + (length prices + 1 - (start + cs))) found
        → IsOptimalFrom start found
    Answers-all start none h = λ i j le t. h i j le (omega (arith, t.after, t.inside)) t
    Answers-all start (some k) h = (
      h.c,
      h.d,
      h.above,
      h.tradable,
      h.made,
      λ i j le t. h.best i j le (omega (arith, t.after, t.inside)) t,
    )

    -- For a lawful decimal type, an efficiency of at least zero and window sizes of at least one,
    -- `findBestCycle` looks at every pair of a charge window at `start` or later and a discharge
    -- window after it: the cycle that it returns is made from a pair above break-even and with the
    -- minimum spread, and no such pair has a higher profit; if it returns nothing, there is no such
    -- pair.
    pub find_best_cycle_optimal :
        (start : ℕ)
        → IsOptimalFrom start (find_best_cycle N prices start cs ds efficiency min_spread)
    find_best_cycle_optimal start = Answers-all start _ (find_best_cycle-Answers start)
