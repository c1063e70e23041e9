-- ===== src/Wfusd/Reading.antt =====
-- Reading formatted amounts back.
use besu_interbank_demo.Base.{
  ℕ, ◌*◌, ◌/◌, List, [], ◌∷◌, ◌++◌, append-nil, some, ◌≡◌, ◌≢◌, ◌∙◌, ap, sym, refl, Bytes, utf8,
  All, length, eqb, arith, if◌then◌else◌,
}
use besu_interbank_demo.Base.Int.{ℤ, pos, mul_ℕ, quo_ℕ}
use besu_interbank_demo.Decimal.{decimal, int_string, set_string, parse_digits}
use besu_interbank_demo.Decimal.RoundTrip.{
  IsDigit, parse_digits-decimal, parse_digits_iff, set_string-int_string,
}
use besu_interbank_demo.Wfusd.{unit, group, join_commas, thousands, human_wfusd, fmt_wfusd, wfusd}
use besu_interbank_demo.Wfusd.Grouping.{concat, IsGrouped, group-IsGrouped, concat-group}

-- A text with its commas taken out.
abbrev pub without_commas : Bytes → Bytes
without_commas [] = []
without_commas (c ∷ s) = let rest = without_commas s in if eqb c b',' then rest else c ∷ rest

without_commas-append :
    (s t : Bytes) → without_commas (s ++ t) ≡ without_commas s ++ without_commas t
without_commas-append [] t = refl
without_commas-append (c ∷ s) t = ground (arith, without_commas-append s t)

without_commas-join :
    (ps : List Bytes) → without_commas (join_commas ps) ≡ without_commas (concat ps)
unfolding join_commas
without_commas-join [] = refl
without_commas-join (p ∷ []) = ap without_commas (sym (append-nil p))
without_commas-join (p ∷ q ∷ ps) =
    without_commas-append p (b',' ∷ join_commas (q ∷ ps))
    ∙ ap (λ t. without_commas p ++ t) (without_commas-join (q ∷ ps))
    ∙ sym (without_commas-append p (concat (q ∷ ps)))

without_commas_of_digits : (s : Bytes) → All IsDigit s → without_commas s ≡ s
without_commas_of_digits [] h = refl
without_commas_of_digits (c ∷ s) h = ground (arith, without_commas_of_digits s h.1)

-- Digits are shown in groups of three, the first of one to three, with a comma between two groups; the
-- groups together are the digits.
pub thousands_lem :
    (s : Bytes)
    → s ≢ []
    → (parts : List Bytes) × (thousands s ≡ join_commas parts)
      × IsGrouped parts
      × (concat parts ≡ s)
unfolding thousands
thousands_lem [] h = absurd (h refl)
thousands_lem (c ∷ s) h = (
  group (length (c ∷ s)) (c ∷ s) [],
  refl,
  group-IsGrouped (length (c ∷ s)) (c ∷ s) [] (omega arith) (omega arith) tt,
  concat-group (length (c ∷ s)) (c ∷ s) [] ∙ append-nil (c ∷ s),
)

decimal-All : (n : ℕ) → All IsDigit (decimal n)
decimal-All n = ((parse_digits_iff (decimal n) n).0 (parse_digits-decimal n)).1

without_commas-thousands : (s : Bytes) → All IsDigit s → without_commas (thousands s) ≡ s
unfolding thousands
without_commas-thousands s h =
    without_commas-join (group (length s) s [])
    ∙ ap without_commas (concat-group (length s) s [] ∙ append-nil s)
    ∙ without_commas_of_digits s h

-- The amount that the explorer shows for `n` base units is `n / 1000000`, read without its commas.
pub parse_digits-human_wfusd :
    (n : ℕ) → parse_digits (without_commas (human_wfusd (pos n))) ≡ some (n / 1_000_000)
unfolding human_wfusd quo_ℕ int_string
parse_digits-human_wfusd n =
    ap parse_digits (without_commas-thousands (decimal (n / unit)) (decimal-All (n / unit)))
    ∙ parse_digits-decimal (n / unit)

-- The demo and the explorer show the same amount, for every integer; the demo adds the unit.
pub fmt_wfusd-int_string : (v : ℤ) → fmt_wfusd (int_string v) ≡ human_wfusd v ++ utf8 " WFUSD"
unfolding fmt_wfusd human_wfusd
fmt_wfusd-int_string v = rw (set_string-int_string v)

mul_quo : (n : ℕ) → n * unit / unit ≡ n
mul_quo n = omega arith

set_string-decimal : (n : ℕ) → set_string (decimal n) ≡ some (pos n)
unfolding int_string
set_string-decimal n = set_string-int_string (pos n)

-- Formatting what `wfusd` makes of a whole number shows that number's digits, in groups.
pub fmt_wfusd-wfusd :
    (n : ℕ)
    → (base : Bytes) × (wfusd (decimal n) ≡ some base)
      × (fmt_wfusd base ≡ thousands (decimal n) ++ utf8 " WFUSD")
unfolding wfusd mul_ℕ
fmt_wfusd-wfusd n = (
  int_string (pos (n * unit)),
  rw (set_string-decimal n, wfusd) refl,
  fmt_wfusd-int_string (pos (n * unit)) ∙ unfold human_wfusd quo_ℕ int_string in rw (mul_quo n),
)
