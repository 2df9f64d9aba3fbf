-- ===== src/Recorder/History/Total.antt =====
-- The profit and loss of `GetHistory`, day by day, against that of `GetTotalPnL` in
-- service/recorder.go.
use mathlib.Core.List.{foldl}
use marstek_energy_trading.Prelude.{
  ℕ, List, [], ◌∷◌, ◌++◌, map, ◌≡◌, refl, sym, ap, ◌∙◌, ◌==◌, Bool-cases, inl, inr, arith,
}
use marstek_energy_trading.Platform.{Platform, IsDecimal}
use marstek_energy_trading.Recorder.Types.{TradeAction, charge, discharge, solar_charge, Trade}
use marstek_energy_trading.Recorder.Days.{
  Tally, empty_tally, tally_trades, tally_by, tally_charge, tally_discharge, tally_solar, summarise,
}
use marstek_energy_trading.Recorder.History.{
  DayTrades, add_to_day, group_by_day, summarise_day, add_pnl, get_history, sum_trades,
  get_total_pnl,
}

module _ (N : Platform) (laws : IsDecimal N) where
  open N use {Decimal, dec_zero, dec_add, dec_sub, dec_mul, day_key}
  open laws use {add_comm, add_assoc, zero_add, add_sub, sub_add}

  add_cancel : (a b c : Decimal) → dec_add a c ≡ dec_add b c → a ≡ b
  add_cancel a b c e = sym (add_sub a c) ∙ ap (λ x. dec_sub x c) e ∙ add_sub b c

  add-sub : (a b c : Decimal) → dec_sub (dec_add a b) c ≡ dec_add a (dec_sub b c)
  add-sub a b c = add_cancel _ _ c (
      sub_add (dec_add a b) c
      ∙ ap (dec_add a) (sym (sub_add b c))
      ∙ sym (add_assoc a (dec_sub b c) c))

  sub-add : (a b c : Decimal) → dec_sub a (dec_add b c) ≡ dec_sub (dec_sub a b) c
  sub-add a b c =
      let d = dec_sub (dec_sub a b) c in
      add_cancel _ _ (dec_add b c) (
        sub_add a (dec_add b c)
        ∙ sym (sub_add a b)
        ∙ ap (λ x. dec_add x b) (sym (sub_add (dec_sub a b) c))
        ∙ add_assoc d c b
        ∙ ap (dec_add d) (add_comm c b))

  add_zero : (a : Decimal) → dec_add a dec_zero ≡ a
  add_zero a = add_comm a dec_zero ∙ zero_add a

  add_swap : (a b c : Decimal) → dec_add a (dec_add b c) ≡ dec_add b (dec_add a c)
  add_swap a b c = sym (add_assoc a b c) ∙ ap (λ x. dec_add x c) (add_comm a b) ∙ add_assoc b a c

  -- What a trade adds to the profit.
  worth_of : TradeAction → Decimal → Decimal
  worth_of charge amount = dec_sub dec_zero amount
  worth_of discharge amount = amount
  worth_of solar_charge amount = dec_zero

  abbrev worth : Trade N → Decimal
  worth t = worth_of t.action (dec_mul t.price_eur t.energy_kwh)

  net : List (Trade N) → Decimal
  net [] = dec_zero
  net (t ∷ trades) = dec_add (worth t) (net trades)

  net_nil : net [] ≡ dec_zero
  unfolding net
  net_nil = refl

  -- A cost, and then the rest.
  net_after_cost :
      (r c x n : Decimal)
      → dec_add (dec_sub r (dec_add c x)) n ≡ dec_add (dec_sub r c) (dec_add (dec_sub dec_zero x) n)
  net_after_cost r c x n =
      ap (λ y. dec_add y n)
        (sub-add r c x
          ∙ ap (λ y. dec_sub y x) (sym (add_zero (dec_sub r c)))
          ∙ add-sub (dec_sub r c) dec_zero x)
      ∙ add_assoc (dec_sub r c) (dec_sub dec_zero x) n

  -- A revenue, and then the rest.
  net_after_revenue :
      (r c x n : Decimal)
      → dec_add (dec_sub (dec_add r x) c) n ≡ dec_add (dec_sub r c) (dec_add x n)
  net_after_revenue r c x n =
      ap (λ y. dec_add y n)
        (ap (λ y. dec_sub y c) (add_comm r x) ∙ add-sub x r c ∙ add_comm x (dec_sub r c))
      ∙ add_assoc (dec_sub r c) x n

  net_after_nothing : (a n : Decimal) → dec_add a n ≡ dec_add a (dec_add dec_zero n)
  net_after_nothing a n = ap (dec_add a) (sym (zero_add n))

  sum_trades-net :
      (trades : List (Trade N)) (r c : Decimal)
      → dec_sub (sum_trades N trades r c).0 (sum_trades N trades r c).1
        ≡ dec_add (dec_sub r c) (net trades)
  unfolding sum_trades net worth_of
  sum_trades-net [] r c = sym (add_zero (dec_sub r c))
  sum_trades-net (t ∷ trades) r c =
      let x = dec_mul t.price_eur t.energy_kwh in
      ground (
        arith,
        sum_trades-net trades r (dec_add c x),
        sum_trades-net trades (dec_add r x) c,
        sum_trades-net trades r c,
        net_after_cost r c x (net trades),
        net_after_revenue r c x (net trades),
        net_after_nothing (dec_sub r c) (net trades),
      )

  abbrev balance : Tally N → Decimal
  balance v = dec_sub v.discharge_revenue v.charge_cost

  tally_trades-net :
      (trades : List (Trade N)) (v : Tally N)
      → balance (tally_trades N trades v) ≡ dec_add (balance v) (net trades)
  unfolding tally_trades tally_by tally_charge tally_discharge tally_solar net worth_of
  tally_trades-net [] v = sym (add_zero (balance v))
  tally_trades-net (t ∷ trades) v =
      let r = v.discharge_revenue in
      let c = v.charge_cost in
      let x = dec_mul t.price_eur t.energy_kwh in
      ground (
        arith,
        tally_trades-net trades (tally_by N t.action t v),
        net_after_cost r c x (net trades),
        net_after_revenue r c x (net trades),
        net_after_nothing (dec_sub r c) (net trades),
      )

  zero_balance : dec_sub dec_zero dec_zero ≡ dec_zero
  zero_balance = ap (λ x. dec_sub x dec_zero) (sym (zero_add dec_zero)) ∙ add_sub dec_zero dec_zero

  summarise-net :
      (date : ℕ) (trades : List (Trade N)) → (summarise N date trades).pnl_eur ≡ net trades
  unfolding summarise
  summarise-net date trades =
      tally_trades-net trades (empty_tally N)
      ∙ ap (λ x. dec_add x (net trades)) zero_balance
      ∙ zero_add (net trades)

  get_total_pnl-net : (trades : List (Trade N)) → get_total_pnl N trades ≡ net trades
  unfolding get_total_pnl
  get_total_pnl-net trades =
      sum_trades-net trades dec_zero dec_zero
      ∙ ap (λ x. dec_add x (net trades)) zero_balance
      ∙ zero_add (net trades)

  net_days : DayTrades N → Decimal
  net_days [] = dec_zero
  net_days ((day, trades) ∷ days) = dec_add (net trades) (net_days days)

  net-snoc :
      (trades : List (Trade N)) (t : Trade N)
      → net (trades ++ t ∷ []) ≡ dec_add (worth t) (net trades)
  unfolding net
  net-snoc [] t = refl
  net-snoc (u ∷ trades) t =
      ap (dec_add (worth u)) (net-snoc trades t) ∙ add_swap (worth u) (worth t) (net trades)

  net_days-add_to_day :
      (key : ℕ) (t : Trade N) (days : DayTrades N)
      → net_days (add_to_day N key t days) ≡ dec_add (worth t) (net_days days)
  unfolding net_days add_to_day net
  net_days-add_to_day key t [] = ap (λ x. dec_add x dec_zero) (add_zero (worth t))
  net_days-add_to_day key t ((day, trades) ∷ days) = elim (Bool-cases (day == key)) [
    | inl e ↦ rw e (
        ap (λ x. dec_add x (net_days days)) (net-snoc trades t)
        ∙ add_assoc (worth t) (net trades) (net_days days))
    | inr e ↦ rw e (
        ap (dec_add (net trades)) (net_days-add_to_day key t days)
        ∙ add_swap (net trades) (worth t) (net_days days))
  ]

  net_days-group_by_day :
      (trades : List (Trade N)) (days : DayTrades N)
      → net_days (group_by_day N trades days) ≡ dec_add (net trades) (net_days days)
  unfolding group_by_day net
  net_days-group_by_day [] days = sym (zero_add (net_days days))
  net_days-group_by_day (t ∷ trades) days =
      net_days-group_by_day trades (add_to_day N (day_key t.timestamp) t days)
      ∙ ap (dec_add (net trades)) (net_days-add_to_day (day_key t.timestamp) t days)
      ∙ add_swap (net trades) (worth t) (net_days days)
      ∙ sym (add_assoc (worth t) (net trades) (net_days days))

  foldl-add_pnl :
      (days : DayTrades N) (total : Decimal)
      → foldl (add_pnl N) total (map (summarise_day N) days) ≡ dec_add total (net_days days)
  unfolding net_days
  foldl-add_pnl [] total = sym (add_zero total)
  foldl-add_pnl ((day, trades) ∷ days) total =
      foldl-add_pnl days (dec_add total (summarise N day trades).pnl_eur)
      ∙ ap (λ x. dec_add (dec_add total x) (net_days days)) (summarise-net day trades)
      ∙ add_assoc total (net trades) (net_days days)

  -- For a lawful decimal type, the total of the daily profits in the history of any trades is the
  -- total revenue less the total cost of all trades, whatever days they fall on.
  pub total_pnl-eq-get_total_pnl :
      (trades : List (Trade N)) → (get_history N trades).total_pnl ≡ get_total_pnl N trades
  unfolding get_history net_days get_total_pnl
  total_pnl-eq-get_total_pnl [] = sym (get_total_pnl-net [] ∙ net_nil)
  total_pnl-eq-get_total_pnl (t ∷ trades) =
      let days = group_by_day N (t ∷ trades) [] in
      foldl-add_pnl days dec_zero
      ∙ zero_add (net_days days)
      ∙ net_days-group_by_day (t ∷ trades) []
      ∙ add_zero (net (t ∷ trades))
      ∙ sym (get_total_pnl-net (t ∷ trades))
