-- ===== src/Base/Keeps.antt =====
-- Invariants of the world: a computation keeps `P` if it ends in a world with `P`, however it ends.
use mathlib.Core.Option.{Option, none, some}
use mathlib.Core.Path.{◌≡◌, refl}
use mathlib.Core.Bool.{Bool, true, false}
use besu_interbank_demo.Base.Tests.{if◌then◌else◌}
use besu_interbank_demo.Base.Text.{Bytes}
use besu_interbank_demo.Base.Outcome.{
  Result, ok, err, Outcome, done, fail, panic, Ext, M, lift, call, wrap, attempt, deref, try, ◌>>=◌,
}

module _ {W : Type 0} (P : W → Type 0) where
  abbrev pub Keeps : {A : Type 0} → M W A → Type 0
  Keeps f = (w : W) → P w → P (f w).1

  abbrev pub KeepsExt : {A : Type 0} → Ext W A → Type 0
  KeepsExt f = (w : W) → P w → P (f w).1

  pub lift-Keeps : {A : Type 0} (r : Result A) → Keeps {A = A} (lift r)
  unfolding lift
  lift-Keeps (ok a) w h = h
  lift-Keeps (err e) w h = h

  pub call-Keeps : {A : Type 0} (f : Ext W A) → KeepsExt f → Keeps (call f)
  unfolding call
  call-Keeps f k w h = lift-Keeps (f w).0 (f w).1 (k w h)

  pub deref-Keeps : {A : Type 0} (o : Option A) → Keeps {A = A} (deref o)
  unfolding deref
  deref-Keeps none w h = h
  deref-Keeps (some a) w h = h

  wrapped :
      {A : Type 0} (f : Bytes → Bytes) (o : Outcome A) (w : W)
      → P w
      → P (wrap f (λ (_ : W). (o, w)) w).1
  unfolding wrap
  wrapped f (done a) w h = h
  wrapped f (fail e) w h = h
  wrapped f panic w h = h

  pub wrap-Keeps : {A : Type 0} (f : Bytes → Bytes) (m : M W A) → Keeps m → Keeps (wrap f m)
  unfolding wrap
  wrap-Keeps f m k w h = wrapped f (m w).0 (m w).1 (k w h)

  attempted : {A : Type 0} (o : Outcome A) (w : W) → P w → P (attempt (λ (_ : W). (o, w)) w).1
  unfolding attempt
  attempted (done a) w h = h
  attempted (fail e) w h = h
  attempted panic w h = h

  pub attempt-Keeps : {A : Type 0} (m : M W A) → Keeps m → Keeps (attempt m)
  unfolding attempt
  attempt-Keeps m k w h = attempted (m w).0 (m w).1 (k w h)

  tried :
      {A B : Type 0} (o : Outcome A) (w : W) (k : Result A → M W B)
      → ((r : Result A) → Keeps (k r))
      → P w
      → P (try (λ (_ : W). (o, w)) k w).1
  unfolding try
  tried (done a) w k ks h = ks (ok a) w h
  tried (fail e) w k ks h = ks (err e) w h
  tried panic w k ks h = h

  pub try-Keeps :
      {A B : Type 0} (m : M W A) (k : Result A → M W B)
      → Keeps m
      → ((r : Result A) → Keeps (k r))
      → Keeps (try m k)
  unfolding try
  try-Keeps m k km ks w h = tried (m w).0 (m w).1 k ks (km w h)

  bound :
      {A B : Type 0} (o : Outcome A) (w : W) (k : A → M W B)
      → ((a : A) → Keeps (k a))
      → P w
      → P (◌>>=◌ (λ (_ : W). (o, w)) k w).1
  unfolding ◌>>=◌
  bound (done a) w k ks h = ks a w h
  bound (fail e) w k ks h = h
  bound panic w k ks h = h

  pub bind-Keeps :
      {A B : Type 0} (m : M W A) (k : A → M W B)
      → Keeps m
      → ((a : A) → Keeps (k a))
      → Keeps (m >>= k)
  unfolding ◌>>=◌
  bind-Keeps m k km ks w h = bound (m w).0 (m w).1 k ks (km w h)

  -- A continuation that depends on a library's result.
  pub bind_lift-Keeps :
      {A B : Type 0} (r : Result A) (k : A → M W B)
      → ((a : A) → r ≡ ok a → Keeps (k a))
      → Keeps (lift r >>= k)
  unfolding ◌>>=◌ lift
  bind_lift-Keeps (ok a) k ks w h = ks a refl w h
  bind_lift-Keeps (err e) k ks w h = h

  pub bind_wrap-lift-Keeps :
      {A B : Type 0} (f : Bytes → Bytes) (r : Result A) (k : A → M W B)
      → ((a : A) → r ≡ ok a → Keeps (k a))
      → Keeps (wrap f (lift r) >>= k)
  unfolding ◌>>=◌ lift wrap
  bind_wrap-lift-Keeps f (ok a) k ks w h = ks a refl w h
  bind_wrap-lift-Keeps f (err e) k ks w h = h

  pub if-Keeps :
      {A : Type 0} (b : Bool) (x y : M W A) → Keeps x → Keeps y → Keeps (if b then x else y)
  if-Keeps true x y kx ky = kx
  if-Keeps false x y kx ky = ky

  pub Option-Keeps :
      {A B : Type 0} (o : Option B) (x : M W A) (k : B → M W A)
      → Keeps x
      → ((b : B) → Keeps (k b))
      → Keeps (elim o [ none ↦ x | some b ↦ k b ])
  Option-Keeps none x k kx ks = kx
  Option-Keeps (some b) x k kx ks = ks b

  pub Bool-Keeps :
      {A : Type 0} (b : Bool) (x y : M W A)
      → Keeps x
      → Keeps y
      → Keeps (elim b [ true ↦ x | false ↦ y ])
  Bool-Keeps true x y kx ky = kx
  Bool-Keeps false x y kx ky = ky

  pub Result-Keeps :
      {A B : Type 0} (r : Result B) (x : Bytes → M W A) (k : B → M W A)
      → ((e : Bytes) → Keeps (x e))
      → ((b : B) → Keeps (k b))
      → Keeps (elim r [ err e ↦ x e | ok b ↦ k b ])
  Result-Keeps (err e) x k kx ks = kx e
  Result-Keeps (ok b) x k kx ks = ks b
