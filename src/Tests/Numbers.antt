-- ===== src/Tests/Numbers.antt =====
-- A platform for tests: whole decimals, floats in thousandths, and days of 24 hours from zero.
use marstek_energy_trading.Prelude.{
  ℕ, zero, suc, ◌≤◌, ◌-◌, ◌*◌, ◌/◌, ◌%◌, ◌≡◌, Bool, true, not, arith, ℤ, pos, negsuc, leb_ℤ, ltb_ℤ,
  min_ℤ, max_ℤ, ◌&&◌, ◌+ℤ◌, ◌-ℤ◌, ◌*ℤ◌, neg, floor_div, if◌then◌else◌, int_laws, eq_of_parts,
}
use marstek_energy_trading.Platform.{Platform, IsDecimal, minute}

-- A quotient by a positive number; anything else is not divided.
abbrev pub div : ℤ → ℤ → ℤ
div a (pos n) = floor_div a n
div a (negsuc n) = a

abbrev pub equal : ℤ → ℤ → Bool
equal a b = not (ltb_ℤ a b) && leb_ℤ a b

abbrev pub numbers : Platform
numbers = record {
  Decimal = ℤ;
  dec_zero = pos 0;
  dec_add = ◌+ℤ◌;
  dec_sub = ◌-ℤ◌;
  dec_mul = ◌*ℤ◌;
  dec_div = div;
  less_than = ltb_ℤ;
  greater_than = λ a b. ltb_ℤ b a;
  less_than_or_equal = leb_ℤ;
  dec_is_zero = λ a. equal a (pos 0);
  dec_of_int = λ a. a;
  Float = ℤ;
  literal = λ n d. floor_div (n *ℤ pos 1000) d;
  float_of_int = λ n. n *ℤ pos 1000;
  float_add = ◌+ℤ◌;
  float_sub = ◌-ℤ◌;
  float_mul = λ a b. floor_div (a *ℤ b) 1000;
  float_div = λ a b. div (a *ℤ pos 1000) b;
  float_neg = neg;
  float_max = max_ℤ;
  float_min = min_ℤ;
  float_lt = ltb_ℤ;
  float_le = leb_ℤ;
  float_eq = equal;
  ceil = λ a. floor_div (a +ℤ pos 999) 1000 *ℤ pos 1000;
  truncate = λ a. if ltb_ℤ a (pos 0) then neg (floor_div (neg a) 1000) else floor_div a 1000;
  dec_of_float = λ a. floor_div a 1000;
  float_of_dec = λ a. a *ℤ pos 1000;
  seconds_of = λ d. floor_div d 1_000_000;
  local_midnight = λ t. t - t % (1440 * minute);
  hour = λ t. t / (60 * minute) % 24;
  minute_of_hour = λ t. t / minute % 60;
  day_key = λ t. t / (1440 * minute);
}

le_mul : (a b e : ℕ) → a ≤ b → a * e ≤ b * e
le_mul a b zero h = ground arith
le_mul a b (suc e) h = grind (arith, le_mul a b e h)

mul_mono : (a b e : ℤ) → leb_ℤ (pos 0) e ≡ true → leb_ℤ a b ≡ true → leb_ℤ (a *ℤ e) (b *ℤ e) ≡ true
unfolding ◌*ℤ◌
mul_mono (pos a) (pos b) (pos e) h k = ground (arith, le_mul a b e (ground arith))
mul_mono (pos a) (negsuc b) (pos e) h k = ground arith
mul_mono (negsuc a) (pos b) (pos e) h k = ground arith
mul_mono (negsuc a) (negsuc b) (pos e) h k = ground (arith, le_mul (suc b) (suc a) e (ground arith))
mul_mono a b (negsuc e) h k = ground arith

add_assoc : (a b c : ℤ) → a +ℤ b +ℤ c ≡ a +ℤ (b +ℤ c)
add_assoc a b c = eq_of_parts _ _ (omega int_laws)

pub numbers-IsDecimal : IsDecimal numbers
unfolding ◌+ℤ◌ ◌-ℤ◌
numbers-IsDecimal = record {
  le_refl = λ a. ground arith;
  le_trans = λ a b c h k. ground arith;
  le_total = λ a b. ground arith;
  less_than-eq-not = λ a b. ground arith;
  greater_than-eq-not = λ a b. ground arith;
  add_comm = λ a b. ground arith;
  add_assoc = add_assoc;
  zero_add = λ a. ground arith;
  add_sub = λ a b. ground arith;
  sub_add = λ a b. ground arith;
  sub_mono = λ a b c h. ground arith;
  mul_mono = mul_mono;
}
