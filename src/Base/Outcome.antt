-- ===== src/Base/Outcome.antt =====
-- Go's fallible calls. A call of a library returns a value or an error; a function of the program
-- may also panic, which no `err` test catches. Effects go through a world that persists in each case.
use mathlib.Core.Option.{Option, none, some}
use mathlib.Core.Path.{◌≡◌, refl}
use mathlib.Core.Logic.{◌⊎◌, inl, inr}
use besu_interbank_demo.Base.Text.{Bytes}

-- `(value, error)` of a library call; an error is its text.
pub data Result (A : Type 0) : Type 0 where
  ok : A → Result A
  err : Bytes → Result A

-- How a call of the program ends.
pub data Outcome (A : Type 0) : Type 0 where
  done : A → Outcome A
  fail : Bytes → Outcome A
  panic : Outcome A

-- A library call with effects on the world `W`, and a function of the program with such effects.
abbrev pub Ext : Type 0 → Type 0 → Type 0
Ext W A = W → Result A × W

abbrev pub M : Type 0 → Type 0 → Type 0
M W A = W → Outcome A × W

module _ {W A : Type 0} where
  abbrev pub pure : A → M W A
  pure a w = (done a, w)

  abbrev pub raise : Bytes → M W A
  raise e w = (fail e, w)

  abbrev pub crash : M W A
  crash w = (panic, w)

  -- `if err != nil { return err }` after a library call.
  unfoldable pub lift : Result A → M W A
  lift r w = elim r [ ok a ↦ (done a, w) | err e ↦ (fail e, w) ]

  unfoldable pub call : Ext W A → M W A
  unfolding lift
  call f w = lift (f w).0 (f w).1

  -- `fmt.Errorf(prefix + "%w", err)`.
  unfoldable pub wrap : (Bytes → Bytes) → M W A → M W A
  wrap f m w = elim (m w).0 [
    | done a ↦ (done a, (m w).1)
    | fail e ↦ (fail (f e), (m w).1)
    | panic ↦ (panic, (m w).1)
  ]

  -- `x, _ := m`: the error is dropped, and `none` is the value that came with it.
  unfoldable pub attempt : M W A → M W (Option A)
  attempt m w = elim (m w).0 [
    | done a ↦ (done (some a), (m w).1)
    | fail e ↦ (done none, (m w).1)
    | panic ↦ (panic, (m w).1)
  ]

  -- A dereference of what may be nil.
  unfoldable pub deref : Option A → M W A
  deref o w = elim o [ some a ↦ (done a, w) | none ↦ (panic, w) ]

-- `res, err := m` with both cases handled.
unfoldable pub try : {W A B : Type 0} → M W A → (Result A → M W B) → M W B
try m k w = elim (m w).0 [
  | done a ↦ k (ok a) (m w).1
  | fail e ↦ k (err e) (m w).1
  | panic ↦ (panic, (m w).1)
]

infixl 5 ◌>>=◌ ◌>>◌
unfoldable pub ◌>>=◌ : {W A B : Type 0} → M W A → (A → M W B) → M W B
◌>>=◌ m k w = elim (m w).0 [
  | done a ↦ k a (m w).1
  | fail e ↦ (fail e, (m w).1)
  | panic ↦ (panic, (m w).1)
]

abbrev pub ◌>>◌ : {W A B : Type 0} → M W A → M W B → M W B
m >> k = m >>= λ _. k

pub Result-cases :
    {A : Type 0} (r : Result A) → ((a : A) × (r ≡ ok a)) ⊎ ((e : Bytes) × (r ≡ err e))
Result-cases (ok a) = inl (a, refl)
Result-cases (err e) = inr (e, refl)

-- Opens the combinators, for a proof or a test that computes through them.
unfoldable pub effects : Unit {0}
unfolding lift call wrap attempt deref try ◌>>=◌
effects = tt
