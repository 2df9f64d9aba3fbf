-- ===== src/Service/Average.antt =====
-- `calculateAveragePrice` of service/service.go.
use marstek_energy_trading.Prelude.{
  ◌+◌, ◌&&◌, List, [], ◌∷◌, length, ◌==◌, if◌then◌else◌, pos, ltb_ℤ,
}
use marstek_energy_trading.Platform.{Time, Platform, before, sub_time}
use marstek_energy_trading.Analyzer.Types.{Price}
use marstek_energy_trading.Analyzer.Windows.{quarter}

module _ (N : Platform) where
  open N use {Decimal, dec_zero, dec_add, dec_mul, dec_div, dec_is_zero, dec_of_float, seconds_of}

  -- The part of the slot at `time` that lies in the range.
  abbrev pub overlap_start : Time → Time → Time
  overlap_start start time = if before time start then start else time

  abbrev pub overlap_end : Time → Time → Time
  overlap_end end slot_end = if before end slot_end then end else slot_end

  -- The loop, with the weighted sum and the seconds so far.
  unfoldable pub average_loop : List (Price N) → Time → Time → Decimal → Decimal → Decimal × Decimal
  average_loop [] start end weighted_sum total_seconds = (weighted_sum, total_seconds)
  average_loop (p ∷ prices) start end weighted_sum total_seconds =
      let slot_end = p.time + quarter in
      let overlap = sub_time (overlap_end end slot_end) (overlap_start start p.time) in
      let overlap_sec = dec_of_float (seconds_of overlap) in
      let counts = before p.time end && before start slot_end && ltb_ℤ (pos 0) overlap in
      average_loop prices start end
        (if counts
          then dec_add weighted_sum (dec_mul (dec_of_float p.value) overlap_sec)
          else weighted_sum)
        (if counts then dec_add total_seconds overlap_sec else total_seconds)

  unfoldable pub calculate_average_price : List (Price N) → Time → Time → Decimal
  unfolding average_loop
  calculate_average_price today_prices start end =
      if length today_prices == 0
      then dec_zero
      else (let (weighted_sum, total_seconds) =
            average_loop today_prices start end dec_zero dec_zero in
          if dec_is_zero total_seconds then dec_zero else dec_div weighted_sum total_seconds)
