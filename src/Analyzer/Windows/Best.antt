-- ===== src/Analyzer/Windows/Best.antt =====
-- What `findBestWindow` and `calculateWindowSize` return.
use native.Mathlib.Decide.{dec_lt}
use native.Mathlib.Nat.{add-zero}
use marstek_energy_trading.Prelude.{
  subst, ℕ, zero, suc, ◌+◌, ◌-◌, ◌≤◌, ◌<◌, ◌≡◌, refl, ◌⊎◌, inl, inr, Bool, true, false, none, some,
  List, length, arith, if◌then◌else◌, ℤ,
}
use marstek_energy_trading.Platform.{Platform, IsDecimal}
use marstek_energy_trading.Analyzer.Types.{PriceSlot}
use marstek_energy_trading.Analyzer.Windows.{
  sum_slots, window_average, is_better, slide_window, find_best_window, calculate_window_size,
}
use marstek_energy_trading.Analyzer.Windows.Sliding.{sum_slots-slide}

-- A window has at least one slot, for any capacity and power and whatever the floating-point operations
-- return.
pub one-le-calculate_window_size :
    (N : Platform) (capacity : Platform.Float N) (power : ℤ)
    → 1 ≤ calculate_window_size N capacity power
unfolding calculate_window_size
one-le-calculate_window_size N capacity power = ground arith

module _ (N : Platform) (laws : IsDecimal N) where
  open N use {Decimal, dec_zero, dec_div, dec_of_int, less_than, greater_than, less_than_or_equal}
  open laws use {le_refl, le_trans, le_total, less_than-eq-not, greater_than-eq-not}

  -- `a` is at least as good as `b`: no higher if the lowest is sought, no lower otherwise.
  abbrev pub IsAsGood : Bool → Decimal → Decimal → Type 0
  IsAsGood true a b = less_than_or_equal a b ≡ true
  IsAsGood false a b = less_than_or_equal b a ≡ true

  IsAsGood-refl : (lowest : Bool) (a : Decimal) → IsAsGood lowest a a
  IsAsGood-refl true a = le_refl a
  IsAsGood-refl false a = le_refl a

  IsAsGood-trans :
      (lowest : Bool) (a b c : Decimal)
      → IsAsGood lowest a b
      → IsAsGood lowest b c
      → IsAsGood lowest a c
  IsAsGood-trans true a b c p q = le_trans a b c p q
  IsAsGood-trans false a b c p q = le_trans c b a q p

  -- The kept one of two candidates is as good as both.
  keep-IsAsGood :
      (lowest : Bool) (avg best : Decimal)
      → let kept = if is_better N lowest avg best then avg else best in
        IsAsGood lowest kept avg × IsAsGood lowest kept best
  keep-IsAsGood true avg best =
      ground (arith, le_refl avg, le_refl best, le_total avg best, less_than-eq-not avg best)
  keep-IsAsGood false avg best =
      ground (arith, le_refl avg, le_refl best, le_total avg best, greater_than-eq-not avg best)

  module _ (prices : List (PriceSlot N)) where
    -- `result` is the average of the window at its index, which starts at `lo` or later and before
    -- `hi`, and no window that starts there is better.
    pub record IsBest (size : ℕ) (lowest : Bool) (lo hi : ℕ) (result : ℕ × Decimal) : Type 0 where
      pub above : lo ≤ result.0
      pub below : result.0 < hi
      pub average : result.1 ≡ window_average N prices result.0 size
      pub best :
          (j : ℕ) → lo ≤ j → j < hi → IsAsGood lowest result.1 (window_average N prices j size)

    IsBest-keep :
        (size : ℕ) (lowest : Bool) (lo i b : ℕ) (a : Decimal) (better : Bool)
        → IsBest size lowest lo i (b, a)
        → lo ≤ i
        → let avg = window_average N prices i size in
          let kept = if better then avg else a in
          IsAsGood lowest kept avg
          → IsAsGood lowest kept a
          → IsBest size lowest lo (i + 1) (if better then i else b, kept)
    IsBest-keep size lowest lo i b a better h le g k = record {
      above = ground arith;
      below = ground arith;
      average = average_of better;
      best = λ j lj ji. elim (dec_lt j i) [
        | yes p ↦ IsAsGood-trans lowest _ a _ k (h.best j lj p)
        | no p ↦
            let e : i ≡ j = omega arith in
            subst
              (λ n.
                IsAsGood lowest (if better then window_average N prices i size else a)
                  (window_average N prices n size))
              e g
      ];
    }
      where
        average_of :
            (t : Bool)
            → (if t then window_average N prices i size else a)
              ≡ window_average N prices (if t then i else b) size
        average_of true = refl
        average_of false = h.average

    -- The loop at position `k + 1` holds the sum of the window at `k`.
    slide_window-IsBest :
        (size : ℕ) (lowest : Bool) (lo rounds k b : ℕ) (a : Decimal)
        → 1 ≤ size
        → lo ≤ k + 1
        → IsBest size lowest lo (k + 1) (b, a)
        → IsBest size lowest lo (k + 1 + rounds) (
            slide_window N prices size lowest rounds
              (k + 1)
              (sum_slots N prices dec_zero k size)
              b
              a)
    unfolding slide_window window_average
    slide_window-IsBest size lowest lo zero k b a hs le h = rw add-zero h
    slide_window-IsBest size lowest lo (suc rounds) k b a hs le h =
        let e₁ : k + 1 - 1 ≡ k = omega arith in
        let e₂ : k + 1 + size - 1 ≡ k + size = omega arith in
        let e₃ : k + 1 + suc rounds ≡ k + 1 + 1 + rounds = omega arith in
        let avg = window_average N prices (k + 1) size in
        let (g, m) = keep-IsAsGood lowest avg a in
        let better = is_better N lowest avg a in
        rw (e₁, e₂, e₃, sum_slots-slide N laws prices k size hs)
          (slide_window-IsBest size lowest lo rounds (k + 1) (if better then k + 1 else b)
            (if better then avg else a) hs (omega arith)
            (IsBest-keep size lowest lo (k + 1) b a better h le g m))

    IsBest-first :
        (size : ℕ) (lowest : Bool) (start : ℕ)
        → IsBest size lowest start (start + 1) (start, window_average N prices start size)
    IsBest-first size lowest start = record {
      above = omega arith;
      below = omega arith;
      average = refl;
      best = λ j lj ji.
          let e : start ≡ j = omega arith in
          subst
            (λ n.
              IsAsGood lowest (window_average N prices start size) (window_average N prices n size))
            e (IsAsGood-refl lowest _);
    }

    -- For a lawful decimal type and a window size of at least one, `findBestWindow` finds a window exactly when one fits, and then returns the start and the
    -- average of a window that is as good as every window from `start` on.
    pub find_best_window_lem :
        (start size : ℕ) (lowest : Bool)
        → 1 ≤ size
        → ((find_best_window N prices start size lowest ≡ none) × (length prices < start + size))
          ⊎ ((r : ℕ × Decimal) × (find_best_window N prices start size lowest ≡ some r)
              × IsBest size lowest start (length prices + 1 - size) r
              × (start + size ≤ length prices))
    unfolding find_best_window window_average
    find_best_window_lem start size lowest hs = elim (dec_lt (length prices) (start + size)) [
      | yes p ↦ inl (ground arith, p)
      | no p ↦
          let rounds = length prices - (start + size) in
          let e : start + 1 + rounds ≡ length prices + 1 - size = omega arith in
          let sum = sum_slots N prices dec_zero start size in
          let first = window_average N prices start size in
          let r = slide_window N prices size lowest rounds (start + 1) sum start first in
          inr (
            r,
            ground arith,
            subst (λ hi. IsBest size lowest start hi r) e
                (slide_window-IsBest size lowest start rounds start start first hs (omega arith)
                  (IsBest-first size lowest start)),
            omega arith,
          )
    ]
