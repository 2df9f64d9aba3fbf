-- ===== src/Clients/Esphome/Control/Forced.antt =====
-- A forced flow of energy: what `ChargeContext` and `DischargeContext` of clients/esphome/client.go
-- exchange with the device.
use marstek_energy_trading.Prelude.{◌≡◌, ◌∙◌, sym, none, List, String, ℤ, subst}
use marstek_energy_trading.Platform.{Platform}
use marstek_energy_trading.Clients.Esphome.Types.{
  set_option, set_value, Http, Exchange, Wire, number_charge_power, number_discharge_power,
  select_rs485_control_mode, select_force_mode,
}
use marstek_energy_trading.Clients.Esphome.Control.{
  is_option, is_number, and_then, set_number_confirmed, set_select_confirmed, charge, discharge,
}
use marstek_energy_trading.Clients.Esphome.Control.Confirmed.{
  IsConfirmed, and_then-none, set_number-IsConfirmed, set_select-IsConfirmed,
}

module _ {N : Platform} (H : Http N) where
  open N use {Float, float_of_int}

  abbrev Log : Type 0
  Log = List (Exchange N)

  -- A forced flow: external control enabled, then the power set, then the mode, each confirmed before
  -- the next is written, and nothing else exchanged.
  pub record IsForced (number : String) (power_w : ℤ) (mode : String) (old new : Log) : Type 0 where
    pub enabled : Log
    pub powered : Log
    pub enable :
        IsConfirmed H
          (set_option select_rs485_control_mode "enable")
          (is_option "enable")
          select_rs485_control_mode
          old
          enabled
    pub power :
        IsConfirmed H
          (set_value number (float_of_int power_w))
          (is_number H (float_of_int power_w))
          number
          enabled
          powered
    pub force :
        IsConfirmed H
          (set_option select_force_mode mode)
          (is_option mode)
          select_force_mode
          powered
          new

module _ {N : Platform} {H : Http N} where
  open N use {Float, float_of_int}

  -- A sequence of three confirmed settings.
  sequence-IsForced :
      (number mode : String) (power_w : ℤ) (s : Wire H)
      → let act = and_then (set_select_confirmed select_rs485_control_mode "enable") (
          and_then
            (set_number_confirmed number (float_of_int power_w))
            (set_select_confirmed select_force_mode mode)) in
        (act s).0 ≡ none → IsForced H number power_w mode s.log (act s).1.log
  sequence-IsForced number mode power_w s h =
      let first = set_select_confirmed {H = H} select_rs485_control_mode "enable" in
      let second = set_number_confirmed {H = H} number (float_of_int power_w) in
      let third = set_select_confirmed {H = H} select_force_mode mode in
      let (a, r, e) = and_then-none first (and_then second third) s h in
      let s₁ = (first s).1 in
      let (b, c, f) = and_then-none second third s₁ r in
      let s₂ = (second s₁).1 in
      subst (λ (t : Wire H). IsForced H number power_w mode s.log t.log) (sym (e ∙ f))
        (record {
          enabled = s₁.log;
          powered = s₂.log;
          enable = set_select-IsConfirmed select_rs485_control_mode "enable" s a;
          power = set_number-IsConfirmed number (float_of_int power_w) s₁ b;
          force = set_select-IsConfirmed select_force_mode mode s₂ c;
        })

  -- A charge without an error has enabled the external control, set the power of charging and set the
  -- mode to charge, in this order; each was written once, accepted, and read back before the next was
  -- written, and nothing else was exchanged with the device.
  pub charge-IsForced :
      (power_w : ℤ) (s : Wire H)
      → (charge power_w s).0 ≡ none
      → IsForced H number_charge_power power_w "charge" s.log (charge power_w s).1.log
  unfolding charge
  charge-IsForced power_w s h = sequence-IsForced number_charge_power "charge" power_w s h

  pub discharge-IsForced :
      (power_w : ℤ) (s : Wire H)
      → (discharge power_w s).0 ≡ none
      → IsForced H number_discharge_power power_w "discharge" s.log (discharge power_w s).1.log
  unfolding discharge
  discharge-IsForced power_w s h = sequence-IsForced number_discharge_power "discharge" power_w s h
