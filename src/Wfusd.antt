-- ===== src/Wfusd.antt =====
-- Token amounts as text: wfusd and fmtWFUSD of internal/demo/demo.go, and humanWFUSD of
-- internal/webui/server.go, which has the same loop.
pub mod Grouping
pub mod Reading
use besu_interbank_demo.Base.{
  ℕ, zero, suc, ◌-◌, true, false, List, [], ◌∷◌, ◌++◌, Option, none, some, Bytes, utf8, length,
  take, drop, ltb,
}
use besu_interbank_demo.Base.Int.{ℤ, pos, mul_ℕ, quo_ℕ}
use besu_interbank_demo.Decimal.{int_string, set_string}

abbrev pub unit : ℕ
unit = 1_000_000

-- `for len(s) > 3 { parts = [last 3 of s] + parts; s = all but the last 3 }`, and `s` in front. A round
-- shortens `s`, so `length s` rounds are enough.
unfoldable pub group : ℕ → Bytes → List Bytes → List Bytes
group zero s parts = s ∷ parts
group (suc fuel) s parts = elim (ltb 3 (length s)) [
  | true ↦ group fuel (take (length s - 3) s) (drop (length s - 3) s ∷ parts)
  | false ↦ s ∷ parts
]

-- `strings.Join(parts, ",")`.
unfoldable pub join_commas : List Bytes → Bytes
join_commas [] = []
join_commas (p ∷ []) = p
join_commas (p ∷ q ∷ ps) = p ++ b',' ∷ join_commas (q ∷ ps)

unfoldable pub thousands : Bytes → Bytes
thousands s = join_commas (group (length s) s [])

unfoldable pub human_wfusd : ℤ → Bytes
human_wfusd v = thousands (int_string (quo_ℕ v unit))

abbrev int_or_zero : Option ℤ → ℤ
int_or_zero none = pos 0
int_or_zero (some n) = n

unfoldable pub fmt_wfusd : Bytes → Bytes
fmt_wfusd base =
    thousands (int_string (quo_ℕ (int_or_zero (set_string base)) unit)) ++ utf8 " WFUSD"

-- `none` is the panic of `Mul` on the nil that SetString returns for a text that is no number.
unfoldable pub wfusd : Bytes → Option Bytes
wfusd whole = elim (set_string whole) [ none ↦ none | some n ↦ some (int_string (mul_ℕ n unit)) ]
