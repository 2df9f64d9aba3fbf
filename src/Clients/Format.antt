-- ===== src/Clients/Format.antt =====
-- What the clients use of Go's fmt and strings packages.
use text.Mathlib.Text
use Prim.Native.String.{◌++◌ as ◌<>◌}
use marstek_energy_trading.Prelude.{
  ℕ, zero, suc, ◌+◌, ◌/◌, ◌%◌, ◌&&◌, true, false, Option, none, some, String, ℤ, pos, negsuc, ltb,
  if◌then◌else◌,
}

unfoldable pub digit : ℕ → String
digit zero = "0"
digit (suc zero) = "1"
digit (suc (suc zero)) = "2"
digit (suc (suc (suc zero))) = "3"
digit (suc (suc (suc (suc zero)))) = "4"
digit (suc (suc (suc (suc (suc zero))))) = "5"
digit (suc (suc (suc (suc (suc (suc zero)))))) = "6"
digit (suc (suc (suc (suc (suc (suc (suc zero))))))) = "7"
digit (suc (suc (suc (suc (suc (suc (suc (suc zero)))))))) = "8"
digit n = "9"

-- The digits of a number with at most as many digits as the fuel.
unfoldable pub digits : ℕ → ℕ → String
unfolding digit
digits zero n = ""
digits (suc fuel) n = elim (ltb n 10) [
  | true ↦ digit n
  | false ↦ digits fuel (n / 10) <> digit (n % 10)
]

-- `%d` of a number of 64 bits, which has at most 20 digits.
unfoldable pub decimal : ℤ → String
unfolding digits
decimal (pos n) = digits 20 n
decimal (negsuc n) = "-" <> digits 20 (n + 1)

-- `strings.TrimRight(s, "/")`
unfoldable pub trim_right_slash : String → String
trim_right_slash String.[] = ""
trim_right_slash (String.◌∷◌ c s) =
    let rest = trim_right_slash s in
    if Text.◌==◌ rest "" && Text.◌==◌ (String.◌∷◌ c "") "/" then "" else String.◌∷◌ c rest

-- `strings.Cut(s, "=")`: `none` without a separator.
unfoldable pub cut_equals : String → Option (String × String)
cut_equals String.[] = none
cut_equals (String.◌∷◌ c s) =
    let rest = cut_equals s in
    if Text.◌==◌ (String.◌∷◌ c "") "="
    then some ("", s)
    else elim rest [ none ↦ none | some (k, v) ↦ some (String.◌∷◌ c k, v) ]
