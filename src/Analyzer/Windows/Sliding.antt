-- ===== src/Analyzer/Windows/Sliding.antt =====
-- The sliding sum of `findBestWindow` is the sum that `windowAverage` takes afresh.
use marstek_energy_trading.Prelude.{ℕ, zero, suc, ◌+◌, ◌≤◌, ◌≡◌, sym, ap, ◌∙◌, List, arith}
use marstek_energy_trading.Platform.{Platform, IsDecimal}
use marstek_energy_trading.Analyzer.Types.{PriceSlot}
use marstek_energy_trading.Analyzer.Windows.{slot_at, sum_slots}

module _ (N : Platform) (laws : IsDecimal N) (prices : List (PriceSlot N)) where
  open N use {Decimal, dec_zero, dec_add, dec_sub}
  open laws use {add_comm, add_assoc, zero_add, add_sub}

  sum_slots-acc :
      (sum : Decimal) (i rounds : ℕ)
      → sum_slots N prices sum i rounds ≡ dec_add sum (sum_slots N prices dec_zero i rounds)
  unfolding sum_slots
  sum_slots-acc sum i zero = sym (add_comm sum dec_zero ∙ zero_add sum)
  sum_slots-acc sum i (suc rounds) =
      let v = (slot_at N prices i).value in
      cc (
        sum_slots-acc (dec_add sum v) (i + 1) rounds,
        sum_slots-acc (dec_add dec_zero v) (i + 1) rounds,
        add_assoc sum v (sum_slots N prices dec_zero (i + 1) rounds),
        zero_add v,
      )

  sum_slots-last :
      (sum : Decimal) (i rounds : ℕ)
      → sum_slots N prices sum i (suc rounds)
        ≡ dec_add (sum_slots N prices sum i rounds) (slot_at N prices (i + rounds)).value
  unfolding sum_slots
  sum_slots-last sum i zero = ap (λ j. dec_add sum (slot_at N prices j).value) (omega arith)
  sum_slots-last sum i (suc rounds) =
      let from = dec_add sum (slot_at N prices i).value in
      sum_slots-last from (i + 1) rounds
      ∙ ap (λ j. dec_add (sum_slots N prices from (i + 1) rounds) (slot_at N prices j).value)
          (omega arith)

  -- One step of the loop.
  pub sum_slots-slide :
      (i size : ℕ)
      → 1 ≤ size
      → dec_add
          (dec_sub (sum_slots N prices dec_zero i size) (slot_at N prices i).value)
          (slot_at N prices (i + size)).value
        ≡ sum_slots N prices dec_zero (i + 1) size
  unfolding sum_slots
  sum_slots-slide i zero h = absurd (omega arith)
  sum_slots-slide i (suc n) h =
      let v = (slot_at N prices i).value in
      let rest = sum_slots N prices dec_zero (i + 1) n in
      let e : i + suc n ≡ i + 1 + n = omega arith in
      rw e (
        cc (
          sum_slots-acc (dec_add dec_zero v) (i + 1) n,
          zero_add v,
          add_comm v rest,
          add_sub rest v,
          sum_slots-last dec_zero (i + 1) n,
        ))
