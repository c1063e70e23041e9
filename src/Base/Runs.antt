-- ===== src/Base/Runs.antt =====
-- How a computation runs, step by step: equations for each combinator from what its first part does, and
-- the inversion of a run that is done.
use mathlib.Core.Path.{◌≡◌, refl, subst}
use mathlib.Core.Option.{none, some}
use native.Mathlib.Omega.{arith}
use besu_interbank_demo.Base.Text.{Bytes}
use besu_interbank_demo.Base.Outcome.{
  Result, ok, err, Outcome, done, fail, panic, Ext, M, pure, lift, call, wrap, attempt, try, ◌>>=◌,
}

module _ {W A B : Type 0} where
  pub bind-done :
      (f : M W A) (k : A → M W B) (w w' : W) {a : A} → f w ≡ (done a, w') → (f >>= k) w ≡ k a w'
  unfolding ◌>>=◌
  bind-done f k w w' e = ground arith

  pub bind-fail :
      (f : M W A) (k : A → M W B) (w w' : W) {e : Bytes}
      → f w ≡ (fail e, w')
      → (f >>= k) w ≡ (fail e, w')
  unfolding ◌>>=◌
  bind-fail f k w w' e = ground arith

  pub try-done :
      (f : M W A) (k : Result A → M W B) (w w' : W) {a : A}
      → f w ≡ (done a, w')
      → try f k w ≡ k (ok a) w'
  unfolding try
  try-done f k w w' e = ground arith

  pub try-fail :
      (f : M W A) (k : Result A → M W B) (w w' : W) {e : Bytes}
      → f w ≡ (fail e, w')
      → try f k w ≡ k (err e) w'
  unfolding try
  try-fail f k w w' e = ground arith

  pub try-panic :
      (f : M W A) (k : Result A → M W B) (w w' : W) → f w ≡ (panic, w') → try f k w ≡ (panic, w')
  unfolding try
  try-panic f k w w' e = ground arith

  -- A bind that is done ran both parts.
  pub bind-eq-done :
      (f : M W A) (k : A → M W B) (w w' : W) {b : B}
      → (f >>= k) w ≡ (done b, w')
      → (a : A) × (v : W) × (f w ≡ (done a, v)) × (k a v ≡ (done b, w'))
  unfolding ◌>>=◌
  bind-eq-done f k w w' {b} h = ran (f w).0 (f w).1 h
    where
      ran :
          (o : Outcome A) (v : W)
          → ◌>>=◌ (λ (_ : W). (o, v)) k w ≡ (done b, w')
          → (a : A) × (u : W) × ◌≡◌ {A = Outcome A × W} (o, v) (done a, u) × (k a u ≡ (done b, w'))
      ran (done a) v e = (a, v, refl, e)
      ran (fail x) v e = absurd (ground arith)
      ran panic v e = absurd (ground arith)

module _ {W A : Type 0} where
  pub lift-ok : {r : Result A} (w : W) {a : A} → r ≡ ok a → lift r w ≡ (done a, w)
  unfolding lift
  lift-ok w e = ground arith

  pub lift-err : {r : Result A} (w : W) {x : Bytes} → r ≡ err x → lift r w ≡ (fail x, w)
  unfolding lift
  lift-err w e = ground arith

  pub lift-eq-done :
      (r : Result A) (w w' : W) {a : A} → lift r w ≡ (done a, w') → (r ≡ ok a) × (w ≡ w')
  unfolding lift
  lift-eq-done (ok b) w w' h = (ground arith, ground arith)
  lift-eq-done (err x) w w' h = absurd (ground arith)

  pub call-ok : (f : Ext W A) (w w' : W) {a : A} → f w ≡ (ok a, w') → call f w ≡ (done a, w')
  unfolding call lift
  call-ok f w w' e = ground arith

  pub call-err : (f : Ext W A) (w w' : W) {x : Bytes} → f w ≡ (err x, w') → call f w ≡ (fail x, w')
  unfolding call lift
  call-err f w w' e = ground arith

  called :
      (r : Result A) (v w' : W) {a : A}
      → lift r v ≡ (done a, w')
      → ◌≡◌ {A = Result A × W} (r, v) (ok a, w')
  unfolding lift
  called (ok b) v w' h = ground arith
  called (err x) v w' h = absurd (ground arith)

  pub call-eq-done : (f : Ext W A) (w w' : W) {a : A} → call f w ≡ (done a, w') → f w ≡ (ok a, w')
  unfolding call
  call-eq-done f w w' h = called (f w).0 (f w).1 w' h

  pub wrap-done :
      (g : Bytes → Bytes) (f : M W A) (w w' : W) {a : A}
      → f w ≡ (done a, w')
      → wrap g f w ≡ (done a, w')
  unfolding wrap
  wrap-done g f w w' e = ground arith

  pub wrap-fail :
      (g : Bytes → Bytes) (f : M W A) (w w' : W) {x : Bytes}
      → f w ≡ (fail x, w')
      → wrap g f w ≡ (fail (g x), w')
  unfolding wrap
  wrap-fail g f w w' e = ground arith

  pub wrap-eq-done :
      (g : Bytes → Bytes) (f : M W A) (w w' : W) {a : A}
      → wrap g f w ≡ (done a, w')
      → f w ≡ (done a, w')
  unfolding wrap
  wrap-eq-done g f w w' {a} h = ran (f w).0 (f w).1 h
    where
      ran :
          (o : Outcome A) (v : W)
          → wrap g (λ (_ : W). (o, v)) w ≡ (done a, w')
          → ◌≡◌ {A = Outcome A × W} (o, v) (done a, w')
      ran (done b) v e = e
      ran (fail x) v e = absurd (ground arith)
      ran panic v e = absurd (ground arith)

  pub attempt-done :
      (f : M W A) (w w' : W) {a : A} → f w ≡ (done a, w') → attempt f w ≡ (done (some a), w')
  unfolding attempt
  attempt-done f w w' e = ground arith

  pub attempt-fail :
      (f : M W A) (w w' : W) {x : Bytes} → f w ≡ (fail x, w') → attempt f w ≡ (done none, w')
  unfolding attempt
  attempt-fail f w w' e = ground arith

  pub pure-eq-done :
      (a : A) (w w' : W) {b : A}
      → ◌≡◌ {A = Outcome A × W} (done a, w) (done b, w')
      → (b ≡ a) × (w ≡ w')
  pure-eq-done a w w' h = (ground arith, ground arith)

-- The three forms in which the code chains library calls.
module _ {W A B : Type 0} where
  pub bind_call-eq-done :
      (g : Bytes → Bytes) (f : Ext W A) (k : A → M W B) (w w' : W) {b : B}
      → (wrap g (call f) >>= k) w ≡ (done b, w')
      → (a : A) × (v : W) × (f w ≡ (ok a, v)) × (k a v ≡ (done b, w'))
  bind_call-eq-done g f k w w' h =
      let (a, v, e, rest) = bind-eq-done _ k w w' h in
      (a, v, call-eq-done f w v (wrap-eq-done g _ w v e), rest)

  pub bind_lift-eq-done :
      (g : Bytes → Bytes) (r : Result A) (k : A → M W B) (w w' : W) {b : B}
      → (wrap g (lift r) >>= k) w ≡ (done b, w')
      → (a : A) × (r ≡ ok a) × (k a w ≡ (done b, w'))
  unfolding ◌>>=◌ wrap lift
  bind_lift-eq-done g (ok a) k w w' h = (a, refl, h)
  bind_lift-eq-done g (err x) k w w' h = absurd (ground arith)

  pub bind_call-pure-eq-done :
      (g : Bytes → Bytes) (f : Ext W A) (h : A → B) (w w' : W) {b : B}
      → (wrap g (call f) >>= λ a. pure (h a)) w ≡ (done b, w')
      → (a : A) × (f w ≡ (ok a, w')) × (b ≡ h a)
  bind_call-pure-eq-done g f h w w' {b} e =
      let (a, v, ran, rest) = bind_call-eq-done g f (λ a. pure (h a)) w w' e in
      let (same, world) = pure-eq-done (h a) v w' rest in
      (a, subst (λ u. f w ≡ (ok a, u)) world ran, same)

-- A library call whose error is handled runs on with its result.
module _ {W A B : Type 0} where
  tried_lift :
      (r : Result A) (v w : W) (k : Result A → M W B) → try (λ (_ : W). lift r v) k w ≡ k r v
  unfolding try lift
  tried_lift (ok a) v w k = refl
  tried_lift (err e) v w k = refl

  pub try-call : (f : Ext W A) (k : Result A → M W B) (w : W) → try (call f) k w ≡ k (f w).0 (f w).1
  unfolding try call
  try-call f k w = tried_lift (f w).0 (f w).1 w k
