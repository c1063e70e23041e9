-- ===== src/Base/Text.antt =====
-- Go strings: lists of bytes, written as the UTF-8 of a literal.
use Prim.Native.Nat.{ℕ, ◌+◌, ◌/◌, ◌%◌, ◌<◌}
use Prim.Native.Char.{code}
use Prim.Native.String.{String}
use mathlib.Core.Bool.{Bool, true, false, ◌&&◌, ◌||◌}
use mathlib.Core.List.{List, [], ◌∷◌, ◌++◌}
use mathlib.Core.Logic.{◌↔◌}
use mathlib.Core.Path.{◌≡◌, refl}
use native.Mathlib.Omega.{arith}
use besu_interbank_demo.Base.Tests.{ltb, eqb, if◌then◌else◌}

abbrev pub Bytes : Type 0
Bytes = List ℕ

-- The UTF-8 bytes of one code point.
abbrev pub utf8_char : ℕ → Bytes
utf8_char c =
    if ltb c 0x80
    then c ∷ []
    else if ltb c 0x800
    then (0xC0 + c / 0x40) ∷ (0x80 + c % 0x40) ∷ []
    else if ltb c 0x10000
    then (0xE0 + c / 0x1000) ∷ (0x80 + c / 0x40 % 0x40) ∷ (0x80 + c % 0x40) ∷ []
    else (0xF0 + c / 0x40000)
      ∷ (0x80 + c / 0x1000 % 0x40)
      ∷ (0x80 + c / 0x40 % 0x40)
      ∷ (0x80 + c % 0x40)
      ∷ []

-- A Go string literal.
abbrev pub utf8 : String → Bytes
utf8 String.[] = []
utf8 (String.◌∷◌ c s) = utf8_char (code c) ++ utf8 s

-- `==` on strings.
unfoldable pub bytes_eq : Bytes → Bytes → Bool
bytes_eq [] [] = true
bytes_eq [] (_ ∷ _) = false
bytes_eq (_ ∷ _) [] = false
bytes_eq (a ∷ s) (b ∷ t) = eqb a b && bytes_eq s t

infix 50 ◌==◌
abbrev pub ◌==◌ : Bytes → Bytes → Bool
s == t = bytes_eq s t

pub bytes_eq_iff : (s t : Bytes) → ((s == t) ≡ true) ↔ (s ≡ t)
unfolding bytes_eq
bytes_eq_iff [] [] = ground arith
bytes_eq_iff [] (b ∷ t) = ground arith
bytes_eq_iff (a ∷ s) [] = ground arith
bytes_eq_iff (a ∷ s) (b ∷ t) = ground (arith, bytes_eq_iff s t)

pub bytes_eq_refl : (s : Bytes) → (s == s) ≡ true
bytes_eq_refl s = (bytes_eq_iff s s).1 refl

abbrev pub IsAscii : ℕ → Type 0
IsAscii c = c < 0x80

-- Whether a text is among others.
unfoldable pub elem : Bytes → List Bytes → Bool
elem s [] = false
elem s (t ∷ ts) = t == s || elem s ts
