-- ===== src/Platform.antt =====
-- What the program takes from outside the repository.
use marstek_energy_trading.Prelude.{
  ℕ, ◌-◌, ◌*◌, ◌≡◌, ◌⊎◌, Bool, true, not, min, ltb, leb, ◌==◌, ℤ, pos, negsuc, if◌then◌else◌,
}

-- `time.Time`: nanoseconds since Go's zero time, which is 0.
abbrev pub Time : Type 0
Time = ℕ

-- `time.Duration`: signed nanoseconds.
abbrev pub Duration : Type 0
Duration = ℤ

abbrev pub is_zero_time : Time → Bool
is_zero_time t = t == 0

abbrev pub before : Time → Time → Bool
before t u = ltb t u

abbrev pub second : ℕ
second = 1_000_000_000

abbrev pub minute : ℕ
minute = 60 * second

-- `Time.Sub` stops at the ends of int64.
unfoldable pub sub_time : Time → Time → Duration
sub_time t u =
    if leb u t
    then pos (min (t - u) 9_223_372_036_854_775_807)
    else negsuc (min (u - t - 1) 9_223_372_036_854_775_807)

-- The decimals of github.com/shopspring/decimal, the float64 operations and the calendar of the
-- configured time zone. A `Decimal` is the number that a decimal stands for, so two representations of
-- one number are equal.
pub record Platform : Type 1 where
  pub Decimal : Type 0
  pub dec_zero : Decimal
  pub dec_add : Decimal → Decimal → Decimal
  pub dec_sub : Decimal → Decimal → Decimal
  pub dec_mul : Decimal → Decimal → Decimal
  pub dec_div : Decimal → Decimal → Decimal
  pub less_than : Decimal → Decimal → Bool
  pub greater_than : Decimal → Decimal → Bool
  pub less_than_or_equal : Decimal → Decimal → Bool
  pub dec_is_zero : Decimal → Bool
  pub dec_of_int : ℤ → Decimal
  pub Float : Type 0
  -- the constant n / d
  pub literal : ℤ → ℕ → Float
  pub float_of_int : ℤ → Float
  pub float_add : Float → Float → Float
  pub float_sub : Float → Float → Float
  pub float_mul : Float → Float → Float
  pub float_div : Float → Float → Float
  pub float_neg : Float → Float
  pub float_max : Float → Float → Float
  pub float_min : Float → Float → Float
  pub float_lt : Float → Float → Bool
  pub float_le : Float → Float → Bool
  pub float_eq : Float → Float → Bool
  pub ceil : Float → Float
  -- the conversion `int(x)`, towards zero
  pub truncate : Float → ℤ
  pub dec_of_float : Float → Decimal
  pub float_of_dec : Decimal → Float
  pub seconds_of : Duration → Float
  pub local_midnight : Time → Time
  pub hour : Time → ℕ
  pub minute_of_hour : Time → ℕ
  pub day_key : Time → ℕ

-- The documented laws of the decimals: a total order, exact sums and differences, and products that
-- keep the order.
module _ (N : Platform) where
  open N use {
    Decimal, dec_zero, dec_add, dec_sub, dec_mul, less_than, greater_than, less_than_or_equal,
  }

  pub record IsDecimal : Type 0 where
    pub le_refl : (a : Decimal) → less_than_or_equal a a ≡ true
    pub le_trans :
        (a b c : Decimal)
        → less_than_or_equal a b ≡ true
        → less_than_or_equal b c ≡ true
        → less_than_or_equal a c ≡ true
    pub le_total :
        (a b : Decimal) → (less_than_or_equal a b ≡ true) ⊎ (less_than_or_equal b a ≡ true)
    pub less_than-eq-not : (a b : Decimal) → less_than a b ≡ not (less_than_or_equal b a)
    pub greater_than-eq-not : (a b : Decimal) → greater_than a b ≡ not (less_than_or_equal a b)
    pub add_comm : (a b : Decimal) → dec_add a b ≡ dec_add b a
    pub add_assoc : (a b c : Decimal) → dec_add (dec_add a b) c ≡ dec_add a (dec_add b c)
    pub zero_add : (a : Decimal) → dec_add dec_zero a ≡ a
    pub add_sub : (a b : Decimal) → dec_sub (dec_add a b) b ≡ a
    pub sub_add : (a b : Decimal) → dec_add (dec_sub a b) b ≡ a
    pub sub_mono :
        (a b c : Decimal)
        → less_than_or_equal a b ≡ true
        → less_than_or_equal (dec_sub a c) (dec_sub b c) ≡ true
    pub mul_mono :
        (a b e : Decimal)
        → less_than_or_equal dec_zero e ≡ true
        → less_than_or_equal a b ≡ true
        → less_than_or_equal (dec_mul a e) (dec_mul b e) ≡ true
