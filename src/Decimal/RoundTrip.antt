-- ===== src/Decimal/RoundTrip.antt =====
-- Printing a number and reading it back.
use mathlib.Core.List.{cons-ne-nil}
use besu_interbank_demo.Base.{
  ℕ, zero, suc, ◌+◌, ◌-◌, ◌*◌, ◌/◌, ◌%◌, ◌≤◌, ◌↔◌, ◌∙◌, ap, sym, ◌<◌, [], ◌∷◌, some, ◌≡◌, ◌≢◌, refl,
  Bytes, All, Bool-cases, inl, inr, ltb, arith,
}
use besu_interbank_demo.Base.Int.{ℤ, pos, negsuc}
use besu_interbank_demo.Decimal.{digits, decimal, int_string, scan, parse_digits, set_string}

abbrev pub IsDigit : ℕ → Type 0
IsDigit c = (b'0' ≤ c) × (c ≤ b'9')

-- Reading the digits of `n` and then `out` is reading `out` behind `n`.
scan-digits : (f n : ℕ) (out : Bytes) → n < f → scan 0 (digits f n out) ≡ scan n out
unfolding scan digits
scan-digits zero n out h = elim h [ ]
scan-digits (suc f) n out h = ground (arith, scan-digits f (n / 10) ((b'0' + n % 10) ∷ out))

-- The print is a digit followed by more.
record StartsWithDigit (s : Bytes) : Type 0 where
  first : ℕ
  others : Bytes
  shape : s ≡ first ∷ others
  digit : IsDigit first

digits-StartsWithDigit : (f n : ℕ) (out : Bytes) → n < f → StartsWithDigit (digits f n out)
unfolding digits
digits-StartsWithDigit zero n out h = elim h [ ]
digits-StartsWithDigit (suc f) n out h = elim (Bool-cases (ltb n 10)) [
  | inl small ↦ record {
    first = b'0' + n;
    others = out;
    shape = ground arith;
    digit = ground arith;
  }
  | inr large ↦
      let rest = digits-StartsWithDigit f (n / 10) ((b'0' + n % 10) ∷ out) (ground arith) in
      record {
        first = rest.first;
        others = rest.others;
        shape = ground (arith, rest.shape);
        digit = rest.digit;
      }
]

scan-decimal : (n : ℕ) → scan 0 (decimal n) ≡ some n
unfolding decimal scan
scan-decimal n = scan-digits (suc n) n [] (omega arith)

decimal-StartsWithDigit : (n : ℕ) → StartsWithDigit (decimal n)
unfolding decimal
decimal-StartsWithDigit n = digits-StartsWithDigit (suc n) n [] (omega arith)

pub decimal-ne-nil : (n : ℕ) → decimal n ≢ []
decimal-ne-nil n e =
    let d = decimal-StartsWithDigit n in cons-ne-nil d.first d.others (sym d.shape ∙ e)

pub parse_digits-decimal : (n : ℕ) → parse_digits (decimal n) ≡ some n
unfolding parse_digits
parse_digits-decimal n =
    let d = decimal-StartsWithDigit n in ground (arith, d.shape, scan-decimal n)

-- Reading the text that `String` writes for an integer gives that integer.
pub set_string-int_string : (z : ℤ) → set_string (int_string z) ≡ some z
unfolding set_string int_string
set_string-int_string (pos n) =
    let d = decimal-StartsWithDigit n in ground (arith, d.shape, d.digit, parse_digits-decimal n)
set_string-int_string (negsuc n) = ground (arith, parse_digits-decimal (suc n))

-- What a text of digits is worth.
abbrev pub value : ℕ → Bytes → ℕ
value n [] = n
value n (c ∷ s) = value (n * 10 + (c - b'0')) s

scan_sound : (n : ℕ) (s : Bytes) {r : ℕ} → scan n s ≡ some r → All IsDigit s × (r ≡ value n s)
unfolding scan
scan_sound n [] h = ground arith
scan_sound n (c ∷ s) {r} h = ground (arith, scan_sound (n * 10 + (c - b'0')) s {r = r})

scan_complete : (n : ℕ) (s : Bytes) → All IsDigit s → scan n s ≡ some (value n s)
unfolding scan
scan_complete n [] h = refl
scan_complete n (c ∷ s) (hc, hs) = ground (arith, scan_complete (n * 10 + (c - b'0')) s hs)

-- A text is read as a number exactly when it is one or more digits, and the number is their value.
pub parse_digits_iff :
    (s : Bytes) (r : ℕ) → (parse_digits s ≡ some r) ↔ ((s ≢ []) × All IsDigit s × (r ≡ value 0 s))
unfolding parse_digits
parse_digits_iff [] r = (λ h. cc, λ h. absurd (h.0 refl))
parse_digits_iff (c ∷ s) r = (
  λ h. let q = scan_sound 0 (c ∷ s) {r = r} h in (cons-ne-nil c s, q.0, q.1),
  λ h. scan_complete 0 (c ∷ s) h.1 ∙ ap some (sym h.2),
)
