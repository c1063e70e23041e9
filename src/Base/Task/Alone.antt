-- ===== src/Base/Task/Alone.antt =====
-- A task alone computes what the same code does on a world of its own.
use mathlib.Core.Option.{Option, none, some}
use mathlib.Core.Path.{◌≡◌, refl, ◌∙◌}
use mathlib.Core.Bool.{Bool, true, false}
use besu_interbank_demo.Base.Tests.{if◌then◌else◌}
use besu_interbank_demo.Base.Text.{Bytes}
use besu_interbank_demo.Base.Outcome as Outcome
use besu_interbank_demo.Base.Outcome.{Result, ok, err, Outcome, done, fail, panic, Ext, M}
use besu_interbank_demo.Base.Task as Task
use besu_interbank_demo.Base.Task.{
  Task, ended, calling, after, alone, on_done, tried, renamed, attempted,
}

-- `t` is the task of the computation `m`.
abbrev pub Runs : {W A : Type 0} → Task W A → M W A → Type 0
Runs {W} t m = (w : W) → alone t w ≡ m w

module _ {W : Type 0} where
  alone-after :
      {A B : Type 0} (t : Task W A) (k : Outcome A → Task W B) (w : W)
      → alone (after t k) w ≡ alone (k (alone t w).0) (alone t w).1
  unfolding after alone
  alone-after (ended o) k w = refl
  alone-after (calling next effect) k w = alone-after (next w) k (effect w)

module _ {W A : Type 0} where
  pub pure-Runs : (a : A) → Runs {W = W} (Task.pure a) (Outcome.pure a)
  unfolding alone
  pure-Runs a w = refl

  pub raise-Runs : (e : Bytes) → Runs {W = W} {A = A} (Task.raise e) (Outcome.raise e)
  unfolding alone
  raise-Runs e w = refl

  pub crash-Runs : Runs {W = W} {A = A} Task.crash Outcome.crash
  unfolding alone
  crash-Runs w = refl

  pub lift-Runs : (r : Result A) → Runs {W = W} (Task.lift r) (Outcome.lift r)
  unfolding alone Task.lift Outcome.lift
  lift-Runs (ok a) w = refl
  lift-Runs (err e) w = refl

  pub call-Runs : (f : Ext W A) → Runs (Task.call f) (Outcome.call f)
  unfolding alone Task.call Outcome.call
  call-Runs f w = lift-Runs (f w).0 (f w).1

  pub deref-Runs : (o : Option A) → Runs {W = W} (Task.deref o) (Outcome.deref o)
  unfolding alone Task.deref Outcome.deref
  deref-Runs (some a) w = refl
  deref-Runs none w = refl

  renamed-alone :
      (f : Bytes → Bytes) (o : Outcome A) (w w' : W)
      → alone (renamed f o) w ≡ Outcome.wrap f (λ (_ : W). (o, w)) w'
  unfolding alone Outcome.wrap
  renamed-alone f (done a) w w' = refl
  renamed-alone f (fail e) w w' = refl
  renamed-alone f panic w w' = refl

  pub wrap-Runs :
      (f : Bytes → Bytes) (t : Task W A) (m : M W A)
      → Runs t m
      → Runs (Task.wrap f t) (Outcome.wrap f m)
  unfolding Task.wrap Outcome.wrap
  wrap-Runs f t m h w = alone-after t (renamed f) w ∙ rw (h w) (renamed-alone f (m w).0 (m w).1 w)

  attempted-alone :
      (o : Outcome A) (w w' : W) → alone (attempted o) w ≡ Outcome.attempt (λ (_ : W). (o, w)) w'
  unfolding alone Outcome.attempt
  attempted-alone (done a) w w' = refl
  attempted-alone (fail e) w w' = refl
  attempted-alone panic w w' = refl

  pub attempt-Runs :
      (t : Task W A) (m : M W A) → Runs t m → Runs (Task.attempt t) (Outcome.attempt m)
  unfolding Task.attempt Outcome.attempt
  attempt-Runs t m h w = alone-after t attempted w ∙ rw (h w) (attempted-alone (m w).0 (m w).1 w)

module _ {W A B : Type 0} where
  tried-alone :
      (k : Result A → Task W B) (j : Result A → M W B)
      → ((r : Result A) → Runs (k r) (j r))
      → (o : Outcome A) (w w' : W) → alone (tried k o) w ≡ Outcome.try (λ (_ : W). (o, w)) j w'
  unfolding alone Outcome.try
  tried-alone k j h (done a) w w' = h (ok a) w
  tried-alone k j h (fail e) w w' = h (err e) w
  tried-alone k j h panic w w' = refl

  pub try-Runs :
      (t : Task W A) (m : M W A) (k : Result A → Task W B) (j : Result A → M W B)
      → Runs t m
      → ((r : Result A) → Runs (k r) (j r))
      → Runs (Task.try t k) (Outcome.try m j)
  unfolding Task.try Outcome.try
  try-Runs t m k j h hk w =
      alone-after t (tried k) w ∙ rw (h w) (tried-alone k j hk (m w).0 (m w).1 w)

  bound-alone :
      (k : A → Task W B) (j : A → M W B)
      → ((a : A) → Runs (k a) (j a))
      → (o : Outcome A) (w w' : W) → alone (on_done k o) w ≡ Outcome.◌>>=◌ (λ (_ : W). (o, w)) j w'
  unfolding alone Outcome.◌>>=◌
  bound-alone k j h (done a) w w' = h a w
  bound-alone k j h (fail e) w w' = refl
  bound-alone k j h panic w w' = refl

  pub bind-Runs :
      (t : Task W A) (m : M W A) (k : A → Task W B) (j : A → M W B)
      → Runs t m
      → ((a : A) → Runs (k a) (j a))
      → Runs (Task.◌>>=◌ t k) (Outcome.◌>>=◌ m j)
  unfolding Task.◌>>=◌ Outcome.◌>>=◌
  bind-Runs t m k j h hk w =
      alone-after t (on_done k) w ∙ rw (h w) (bound-alone k j hk (m w).0 (m w).1 w)

module _ {W A : Type 0} where
  pub if-Runs :
      (b : Bool) (t u : Task W A) (m n : M W A)
      → Runs t m
      → Runs u n
      → Runs (if b then t else u) (if b then m else n)
  if-Runs true t u m n h k = h
  if-Runs false t u m n h k = k
