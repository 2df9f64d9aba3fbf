-- ===== src/Analyzer/Windows.antt =====
-- `windowAverage`, `findBestWindow` and `calculateWindowSize` of service/analyzer.go.
pub mod Sliding
pub mod Best
use marstek_energy_trading.Prelude.{
  ℕ, zero, suc, ◌+◌, ◌-◌, ◌*◌, Bool, false, not, ◌&&◌, ◌||◌, Option, none, some, List, length,
  get_or, ltb, if◌then◌else◌, ℤ, pos, leb_ℤ, ltb_ℤ, pos_part,
}
use marstek_energy_trading.Platform.{Time, Platform, minute}
use marstek_energy_trading.Analyzer.Types.{PriceSlot}

-- The length of a price slot, `15 * time.Minute`.
abbrev pub quarter : ℕ
quarter = 15 * minute

module _ (N : Platform) where
  open N use {
    Decimal, dec_zero, dec_add, dec_sub, dec_div, less_than, greater_than, dec_of_int, Float,
    literal, float_of_int, float_div, float_mul, ceil, truncate,
  }

  -- `prices[i]`. An index past the end panics in Go; the loops below stay inside the list.
  abbrev pub slot_at : List (PriceSlot N) → ℕ → PriceSlot N
  slot_at prices i = get_or prices i (record { time = 0; value = dec_zero })

  -- The summing loop, from `i` for `rounds` slots.
  unfoldable pub sum_slots : List (PriceSlot N) → Decimal → ℕ → ℕ → Decimal
  sum_slots prices sum i zero = sum
  sum_slots prices sum i (suc rounds) =
      sum_slots prices (dec_add sum (slot_at prices i).value) (i + 1) rounds

  unfoldable pub window_average : List (PriceSlot N) → ℕ → ℕ → Decimal
  window_average prices start_idx window_size =
      dec_div (sum_slots prices dec_zero start_idx window_size) (dec_of_int (pos window_size))

  -- The test that replaces the best window.
  abbrev pub is_better : Bool → Decimal → Decimal → Bool
  is_better find_lowest avg best_avg =
      find_lowest && less_than avg best_avg || not find_lowest && greater_than avg best_avg

  -- The sliding loop at `i`, with `rounds` positions left.
  unfoldable pub slide_window :
      List (PriceSlot N) → ℕ → Bool → (rounds i : ℕ) → Decimal → ℕ → Decimal → ℕ × Decimal
  slide_window prices window_size find_lowest zero i window_sum best_start best_avg =
      (best_start, best_avg)
  slide_window prices window_size find_lowest (suc rounds) i window_sum best_start best_avg =
      let next_sum =
        dec_add (dec_sub window_sum (slot_at prices (i - 1)).value)
          (slot_at prices (i + window_size - 1)).value in
      let avg = dec_div next_sum (dec_of_int (pos window_size)) in
      let better = is_better find_lowest avg best_avg in
      slide_window prices window_size find_lowest rounds (i + 1) next_sum
        (if better then i else best_start) (if better then avg else best_avg)

  -- `none` is the result `(0, decimal.Zero, false)`. `bestStart` is never negative after the first
  -- window, so the last test of the source has no counterpart.
  unfoldable pub find_best_window : List (PriceSlot N) → ℕ → ℕ → Bool → Option (ℕ × Decimal)
  find_best_window prices start_idx window_size find_lowest =
      if ltb (length prices) (start_idx + window_size)
      then none
      else (let window_sum = sum_slots prices dec_zero start_idx window_size in
          some (
            slide_window prices window_size find_lowest (length prices - (start_idx + window_size))
              (start_idx + 1) window_sum start_idx
              (dec_div window_sum (dec_of_int (pos window_size)))))

  -- The slots for a full charge, at least one.
  unfoldable pub calculate_window_size : Float → ℤ → ℕ
  calculate_window_size capacity_kwh power_w =
      if leb_ℤ power_w (pos 0)
      then 8
      else (let power_kw = float_div (float_of_int power_w) (literal (pos 1000) 1) in
          let hours = float_div capacity_kwh power_kw in
          let slots = truncate (ceil (float_mul hours (literal (pos 4) 1))) in
          if ltb_ℤ slots (pos 1) then 1 else pos_part slots)
