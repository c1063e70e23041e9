-- ===== src/Decimal.antt =====
-- Decimal text: `big.Int.String`, `big.Int.SetString(s, 10)`, `strconv.Itoa` and `strconv.Atoi`.
pub mod RoundTrip
use besu_interbank_demo.Base.{
  ℕ, zero, suc, ◌+◌, ◌-◌, ◌*◌, ◌/◌, ◌%◌, ◌^◌, Bool, true, false, ◌&&◌, ◌||◌, not, [], ◌∷◌, Option,
  none, some, Bytes, ltb, leb, eqb, if◌then◌else◌,
}
use besu_interbank_demo.Base.Int.{ℤ, pos, negsuc, neg}

abbrev pub is_digit : ℕ → Bool
is_digit c = leb b'0' c && leb c b'9'

-- The digits of a number before `out`; each round divides by ten, so `n + 1` rounds are enough.
pub digits : ℕ → ℕ → Bytes → Bytes
digits zero n out = out
digits (suc f) n out = elim (ltb n 10) [
  | true ↦ (b'0' + n) ∷ out
  | false ↦ digits f (n / 10) ((b'0' + n % 10) ∷ out)
]

unfoldable pub decimal : ℕ → Bytes
unfolding digits
decimal n = digits (suc n) n []

-- `big.Int.String`.
unfoldable pub int_string : ℤ → Bytes
unfolding decimal
int_string (pos n) = decimal n
int_string (negsuc n) = b'-' ∷ decimal (suc n)

-- The value of digits behind `n`; `none` at any other byte.
pub scan : ℕ → Bytes → Option ℕ
scan n [] = some n
scan n (c ∷ s) = let rest = scan (n * 10 + (c - b'0')) s in if is_digit c then rest else none

unfoldable pub parse_digits : Bytes → Option ℕ
unfolding scan
parse_digits [] = none
parse_digits (c ∷ s) = scan 0 (c ∷ s)

abbrev pub negated : Option ℕ → Option ℤ
negated none = none
negated (some n) = some (neg n)

abbrev pub positive : Option ℕ → Option ℤ
positive none = none
positive (some n) = some (pos n)

-- `SetString(s, 10)`: an optional sign and one or more digits, and nothing else.
unfoldable pub set_string : Bytes → Option ℤ
unfolding parse_digits
set_string [] = none
set_string (c ∷ s) =
    if eqb c b'-'
    then negated (parse_digits s)
    else if eqb c b'+'
    then positive (parse_digits s)
    else positive (parse_digits (c ∷ s))

abbrev pub max_int64 : ℕ
max_int64 = 2 ^ 63 - 1

-- What `strconv.Atoi` returns on a 64-bit machine: a value, and whether there was no error. The value
-- is 0 for a text that is no number, and the nearest int64 for one out of range.
abbrev pub clamp : Option ℤ → ℤ × Bool
clamp none = (pos 0, false)
clamp (some (pos n)) = if leb n max_int64 then (pos n, true) else (pos max_int64, false)
clamp (some (negsuc n)) = if leb n max_int64 then (negsuc n, true) else (negsuc max_int64, false)

unfoldable pub atoi : Bytes → ℤ × Bool
unfolding set_string
atoi s = clamp (set_string s)
