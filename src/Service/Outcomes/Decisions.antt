-- ===== src/Service/Outcomes/Decisions.antt =====
-- The tests that the handlers of service/service.go decide by.
use marstek_energy_trading.Prelude.{
  ap, ◌∙◌, ◌&&◌, ◌||◌, refl, ℕ, zero, suc, ◌≡◌, ◌⊎◌, inl, inr, Bool, true, false, Option, none,
  some, ◌≤◌, ℤ, pos, ltb_ℤ, leb, if◌then◌else◌, List, [], ◌∷◌, ◌*◌, ◌≤ℤ◌, ◌<ℤ◌, arith, String,
}
use marstek_energy_trading.Platform.{Duration, Platform, minute, second}
use marstek_energy_trading.Service.Types.{
  Result-cases, SolarStopReason, surplus_gone, Result, ok, failed, Env,
}
use marstek_energy_trading.Service.Machine.{Machine, Action}
use marstek_energy_trading.Service.Control.{
  or_default, confirms, power_threshold, poll, at_deadline, wait_loop, wait_for_battery_power,
}
use marstek_energy_trading.Service.Solar.{adaptive_cooldown}
use marstek_energy_trading.Service.SolarTick.{clamp_charge_power}

-- For all powers, the power of a new solar session is at most the limit; it is at least 75 W or equal
-- to the limit; and it is the given power unless that is below 75 W or above the limit.
pub clamp_charge_power_bounds :
    (power limit : ℤ)
    → (clamp_charge_power power limit ≤ℤ limit)
      × ((pos 75 ≤ℤ clamp_charge_power power limit) ⊎ (clamp_charge_power power limit ≡ limit))
      × ((clamp_charge_power power limit ≡ power) ⊎ ((power <ℤ pos 75) ⊎ (limit <ℤ power)))
unfolding clamp_charge_power
clamp_charge_power_bounds power limit = (ground arith, ground arith, ground arith)

-- The ends of solar sessions, the latest first, with their reasons and durations.
abbrev pub Sessions : Type 0
Sessions = List (SolarStopReason × Duration)

-- The cooldown and the count of short sessions after them, from a count of zero.
abbrev pub adapt : Sessions → ℕ × ℕ
adapt [] = (0, 0)
adapt ((reason, duration) ∷ sessions) = adaptive_cooldown reason duration (adapt sessions).1

abbrev pub is_short : SolarStopReason → Duration → Bool
is_short surplus_gone duration = ltb_ℤ duration (pos (2 * minute))
is_short _ duration = false

-- How many sessions in a row, up to the latest, lost their surplus within two minutes.
abbrev pub streak : Sessions → ℕ
streak [] = 0
streak ((reason, duration) ∷ sessions) =
    if is_short reason duration then suc (streak sessions) else 0

-- After any solar sessions the count is that of the latest short sessions in a row, and the next
-- session waits 15 minutes exactly when there are three or more of them, and at least one minute if
-- there has been any session.
pub adaptive_cooldown_streak :
    (reason : SolarStopReason) (duration : Duration) (sessions : Sessions)
    → let all = (reason, duration) ∷ sessions in
      let (cooldown, count) = adapt all in
      (count ≡ streak all) × (leb (15 * minute) cooldown ≡ leb 3 (streak all)) × (minute ≤ cooldown)
unfolding adaptive_cooldown
adaptive_cooldown_streak reason duration [] = ground arith
adaptive_cooldown_streak reason duration ((r, d) ∷ sessions) =
    ground (arith, adaptive_cooldown_streak r d sessions)

module _ (N : Platform) where
  open N use {
    Float, literal, float_of_int, float_mul, float_neg, float_max, float_min, float_le, float_eq,
  }

  -- A float is equal to itself unless it is NaN.
  abbrev IsNumber : Float → Type 0
  IsNumber a = float_eq a a ≡ true

  -- The documented laws of `min`, `max` and the order of floats that are numbers; constants and the
  -- half of an integer are numbers.
  pub record IsFloatOrder : Type 0 where
    pub min_le :
        (a b x : Float)
        → IsNumber a
        → IsNumber b
        → float_le (float_min a b) x ≡ (float_le a x || float_le b x)
    pub max_le :
        (a b x : Float)
        → IsNumber a
        → IsNumber b
        → float_le (float_max a b) x ≡ (float_le a x && float_le b x)
    pub max-IsNumber : (a b : Float) → IsNumber a → IsNumber b → IsNumber (float_max a b)
    pub le_neg : (a x : Float) → float_le x (float_neg a) ≡ float_le a (float_neg x)
    pub literal-IsNumber : (n : ℤ) (d : ℕ) → IsNumber (literal n (suc d))
    pub half-IsNumber : (n : ℤ) → IsNumber (float_mul (float_of_int n) (literal (pos 1) 2))

  -- A reading confirms a command if it is at least 50 W in the commanded direction, or at least 10 W and
  -- at least half of the commanded power.
  abbrev pub is_enough : Bool → ℤ → Float → Bool
  is_enough inward power_w power =
      let delivered = if inward then power else float_neg power in
      let half = float_mul (float_of_int power_w) (literal (pos 1) 2) in
      float_le (literal (pos 50) 1) delivered
      || float_le (literal (pos 10) 1) delivered && float_le half delivered

  module _ (laws : IsFloatOrder) where
    power_threshold_le :
        (power_w : ℤ) (power : Float)
        → float_le (power_threshold N power_w) power ≡ is_enough true power_w power
    unfolding power_threshold
    power_threshold_le power_w power =
        let ten : IsNumber (literal (pos 10) 1) = laws.literal-IsNumber (pos 10) 0 in
        let half = laws.half-IsNumber power_w in
        laws.min_le _ _ power (laws.literal-IsNumber (pos 50) 0) (laws.max-IsNumber _ _ ten half)
        ∙ ap (λ b. float_le (literal (pos 50) 1) power || b) (laws.max_le _ _ power ten half)

    confirms-is_enough :
        (inward : Bool) (power_w : ℤ) (power : Float)
        → confirms N inward (power_threshold N power_w) power ≡ is_enough inward power_w power
    unfolding confirms
    confirms-is_enough true power_w power = ground (arith, power_threshold_le power_w power)
    confirms-is_enough false power_w power =
        laws.le_neg (power_threshold N power_w) power ∙ power_threshold_le power_w (float_neg power)

  -- The first reading that passes a test.
  abbrev pub first_that : (Float → Bool) → List (Result Float) → Option Float
  first_that test [] = none
  first_that test (failed e ∷ readings) = first_that test readings
  first_that test (ok power ∷ readings) =
      if test power then some power else first_that test readings

  first_that-ext :
      (f g : Float → Bool) (readings : List (Result Float))
      → ((power : Float) → f power ≡ g power)
      → first_that f readings ≡ first_that g readings
  first_that-ext f g [] h = refl
  first_that-ext f g (failed e ∷ readings) h = first_that-ext f g readings h
  first_that-ext f g (ok power ∷ readings) h =
      ground (arith, h power, first_that-ext f g readings h)

  abbrev pub power_of : Result Float → Option Float
  power_of (ok power) = some power
  power_of (failed e) = none

module _ {N : Platform} (E : Env N) where
  open N use {Float}

  -- What the battery answers to so many requests for its power, one after the other.
  abbrev pub readings : ℕ → Env.World E → List (Result Float)
  readings zero w = []
  readings (suc n) w = (E.get_battery_power w).0 ∷ readings n (E.get_battery_power w).1

module _ {N : Platform} {E : Env N} where
  open N use {Float}

  -- What a poll returns, for any loop that goes on from it.
  poll-first :
      (inward : Bool) (threshold : Float) (next : Option String → Action E (Result Float))
      (rest : Env.World E → List (Result Float))
      → ((e : Option String) (m : Machine E)
          → power_of N (next e m).0 ≡ first_that N (confirms N inward threshold) (rest m.world))
      → (e : Option String) (m : Machine E)
      → power_of N (poll inward threshold next e m).0
        ≡ first_that N
            (confirms N inward threshold)
            ((E.get_battery_power m.world).0 ∷ rest (E.get_battery_power m.world).1)
  poll-first inward threshold next rest h e m =
      let m₁ : Machine E = record m { world = (E.get_battery_power m.world).1 } in
      elim (Result-cases (E.get_battery_power m.world).0) [
        | inr (f, r) ↦ ground (arith, h (some f) m₁)
        | inl (p, r) ↦ ground (arith, h e m₁)
      ]

  at_deadline-none : (e : Option String) (m : Machine E) → power_of N (at_deadline e m).0 ≡ none
  at_deadline-none e m = ground arith

  wait_loop-first :
      (inward : Bool) (threshold : Float) (ticks : ℕ) (e : Option String) (m : Machine E)
      → power_of N (wait_loop inward threshold ticks e m).0
        ≡ first_that N (confirms N inward threshold) (readings E (suc ticks) m.world)
  unfolding wait_loop
  wait_loop-first inward threshold zero =
      poll-first inward threshold at_deadline (λ w. []) at_deadline-none
  wait_loop-first inward threshold (suc ticks) =
      poll-first inward threshold (wait_loop inward threshold ticks) (readings E (suc ticks))
        (wait_loop-first inward threshold ticks)

  -- For floats with the laws of their order: a wait returns the first reading of the battery, up to its
  -- deadline, that is at least 50 W in the commanded direction, or at least 10 W and at least half of
  -- the commanded power; it returns an error exactly when there is none. One reading is taken at once
  -- and one at each tick.
  pub wait_for_battery_power_confirmed :
      IsFloatOrder N
      → (inward : Bool) (power_w : ℤ) (m : Machine E)
      → let timeout = or_default m.svc.battery_verification_timeout (10 * second) in
        let interval = or_default m.svc.battery_verification_interval second in
        let (ticks, w) = E.ticks_before_deadline timeout interval m.world in
        power_of N (wait_for_battery_power inward power_w m).0
        ≡ first_that N (is_enough N inward power_w) (readings E (suc ticks) w)
  unfolding wait_for_battery_power
  wait_for_battery_power_confirmed laws inward power_w m =
      let timeout = or_default m.svc.battery_verification_timeout (10 * second) in
      let interval = or_default m.svc.battery_verification_interval second in
      let (ticks, w) = E.ticks_before_deadline timeout interval m.world in
      wait_loop-first inward (power_threshold N power_w) ticks none (record m { world = w })
      ∙ first_that-ext N (confirms N inward (power_threshold N power_w))
          (is_enough N inward power_w) (readings E (suc ticks) w)
          (confirms-is_enough N laws inward power_w)
