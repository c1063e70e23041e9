-- ===== src/Base/Task/Schedule.antt =====
-- Tasks that run at the same time, in any order, and what every order keeps.
use mathlib.Core.Option.{Option, none, some}
use mathlib.Core.Path.{◌≡◌, refl, subst}
use mathlib.Core.List.{List, [], ◌∷◌, ◌++◌}
use mathlib.Core.Bool.{Bool, true, false}
use besu_interbank_demo.Base.Tests.{if◌then◌else◌}
use besu_interbank_demo.Base.Text.{Bytes}
use besu_interbank_demo.Base.Lists.{All, All-append}
use besu_interbank_demo.Base.Outcome.{Result, ok, err, Outcome, done, fail, panic, Ext}
use besu_interbank_demo.Base.Keeps.{Keeps, KeepsExt}
use besu_interbank_demo.Base.Task.{
  Task, ended, calling, after, alone, lift, call, wrap, attempt, deref, try, on_done, tried,
  renamed, attempted, ◌>>=◌,
}

pub record System (W A : Type 0) : Type 0 where
  pub world : W
  pub tasks : List (Task W A)

module _ {W A : Type 0} (Arrives : Task W A → Type 0) where
  -- A request arrives and its task starts, or one of the tasks makes its next call.
  pub data Step (s : System W A) : System W A → Type 0 where
    arrive : (t : Task W A) → Arrives t → Step s (record s { tasks = s.tasks ++ t ∷ [] })
    advance :
        (before later : List (Task W A)) (next : W → Task W A) (effect : W → W)
        → s.tasks ≡ before ++ calling next effect ∷ later
        → Step s (record { world = effect s.world; tasks = before ++ next s.world ∷ later })

  pub data Reach (s : System W A) : System W A → Type 0 where
    here : Reach s s
    next_step : {t u : System W A} → Reach s t → Step t u → Reach s u

module _ {W : Type 0} (P : W → Type 0) where
  -- Every call of the task keeps `P`, whatever the others have done before it.
  unfoldable pub Respects : {A : Type 0} → Task W A → Type 0
  Respects (ended o) = Unit
  Respects (calling next effect) = (w : W) → P w → P (effect w) × Respects (next w)

  after-Respects :
      {A B : Type 0} (t : Task W A) (k : Outcome A → Task W B)
      → Respects t
      → ((o : Outcome A) → Respects (k o))
      → Respects (after t k)
  unfolding after Respects
  after-Respects (ended o) k h hk = hk o
  after-Respects (calling next effect) k h hk =
      λ w p. ((h w p).0, after-Respects (next w) k (h w p).1 hk)

  pub lift-Respects : {A : Type 0} (r : Result A) → Respects (lift {W = W} r)
  unfolding lift Respects
  lift-Respects (ok a) = tt
  lift-Respects (err e) = tt

  pub call-Respects : {A : Type 0} (f : Ext W A) → KeepsExt P f → Respects (call f)
  unfolding call Respects
  call-Respects f h = λ w p. (h w p, lift-Respects (f w).0)

  pub deref-Respects : {A : Type 0} (o : Option A) → Respects (deref {W = W} o)
  unfolding deref Respects
  deref-Respects (some a) = tt
  deref-Respects none = tt

  pub wrap-Respects :
      {A : Type 0} (f : Bytes → Bytes) (t : Task W A) → Respects t → Respects (wrap f t)
  unfolding wrap Respects
  wrap-Respects f t h = after-Respects t _ h kept
    where
      kept : {A : Type 0} (o : Outcome A) → Respects {A = A} (renamed f o)
      kept (done a) = tt
      kept (fail e) = tt
      kept panic = tt

  pub attempt-Respects : {A : Type 0} (t : Task W A) → Respects t → Respects (attempt t)
  unfolding attempt Respects
  attempt-Respects t h = after-Respects t _ h kept
    where
      kept : {A : Type 0} (o : Outcome A) → Respects {A = Option A} (attempted o)
      kept (done a) = tt
      kept (fail e) = tt
      kept panic = tt

  pub try-Respects :
      {A B : Type 0} (t : Task W A) (k : Result A → Task W B)
      → Respects t
      → ((r : Result A) → Respects (k r))
      → Respects (try t k)
  unfolding try Respects
  try-Respects {A} t k h hk = after-Respects t _ h kept
    where
      kept : (o : Outcome A) → Respects (tried k o)
      kept (done a) = hk (ok a)
      kept (fail e) = hk (err e)
      kept panic = tt

  pub bind-Respects :
      {A B : Type 0} (t : Task W A) (k : A → Task W B)
      → Respects t
      → ((a : A) → Respects (k a))
      → Respects (t >>= k)
  unfolding ◌>>=◌ Respects
  bind-Respects {A} t k h hk = after-Respects t _ h kept
    where
      kept : (o : Outcome A) → Respects (on_done k o)
      kept (done a) = hk a
      kept (fail e) = tt
      kept panic = tt

  -- A continuation that depends on a library's result.
  pub bind_lift-Respects :
      {A B : Type 0} (r : Result A) (k : A → Task W B)
      → ((a : A) → r ≡ ok a → Respects (k a))
      → Respects (lift r >>= k)
  unfolding ◌>>=◌ lift after Respects
  bind_lift-Respects (ok a) k hk = hk a refl
  bind_lift-Respects (err e) k hk = tt

  pub bind_wrap-lift-Respects :
      {A B : Type 0} (f : Bytes → Bytes) (r : Result A) (k : A → Task W B)
      → ((a : A) → r ≡ ok a → Respects (k a))
      → Respects (wrap f (lift r) >>= k)
  unfolding ◌>>=◌ lift wrap after Respects
  bind_wrap-lift-Respects f (ok a) k hk = hk a refl
  bind_wrap-lift-Respects f (err e) k hk = tt

  pub alone-Keeps : {A : Type 0} (t : Task W A) → Respects t → Keeps P (alone t)
  unfolding alone Respects
  alone-Keeps (ended o) h = λ w p. p
  alone-Keeps (calling next effect) h = λ w p. alone-Keeps (next w) (h w p).1 (effect w) (h w p).0

  pub if-Respects :
      {A : Type 0} (b : Bool) (t u : Task W A)
      → Respects t
      → Respects u
      → Respects (if b then t else u)
  if-Respects true t u ht hu = ht
  if-Respects false t u ht hu = hu

  module _ {A : Type 0} where
    abbrev IsSafe : System W A → Type 0
    IsSafe s = P s.world × All (Respects {A = A}) s.tasks

    All-split :
        (before later : List (Task W A)) (t : Task W A)
        → All (Respects {A = A}) (before ++ t ∷ later)
        → Respects t × ((u : Task W A) → Respects u → All (Respects {A = A}) (before ++ u ∷ later))
    All-split [] later t (ht, rest) = (ht, λ u hu. (hu, rest))
    All-split (b ∷ before) later t (hb, rest) =
        let (ht, put) = All-split before later t rest in (ht, λ u hu. (hb, put u hu))

    Step-IsSafe :
        {Arrives : Task W A → Type 0} {s u : System W A}
        → ((t : Task W A) → Arrives t → Respects t)
        → Step Arrives s u
        → IsSafe s
        → IsSafe u
    unfolding Respects
    Step-IsSafe {s = s} lawful (arrive t a) (p, h) =
        (p, All-append Respects s.tasks (t ∷ []) h (lawful t a, tt))
    Step-IsSafe {s = s} lawful (advance before later next effect e) (p, h) =
        let (ht, put) = All-split before later _ (subst (All Respects) e h) in
        let (p', hn) = ht s.world p in (p', put _ hn)

    -- What every arriving task respects holds in every reachable system.
    pub Reach-IsSafe :
        {Arrives : Task W A → Type 0} {s u : System W A}
        → ((t : Task W A) → Arrives t → Respects t)
        → Reach Arrives s u
        → P s.world × All (Respects {A = A}) s.tasks
        → P u.world × All (Respects {A = A}) u.tasks
    Reach-IsSafe lawful here h = h
    Reach-IsSafe lawful (next_step r st) h = Step-IsSafe lawful st (Reach-IsSafe lawful r h)
