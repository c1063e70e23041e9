-- ===== src/Base/Task.antt =====
-- Requests that a server handles at the same time: a task runs from one library call to the next, and the
-- tasks' calls come in any order. The combinators have the names that they have in Outcome.
pub mod Alone
pub mod Schedule
pub mod Turns
use mathlib.Core.Option.{Option, none, some}
use besu_interbank_demo.Base.Text.{Bytes}
use besu_interbank_demo.Base.Outcome.{Result, ok, err, Outcome, done, fail, panic, Ext, M}

-- What is left of a task: its outcome, or a library call on the world as it is when the call is made.
pub data Task (W A : Type 0) : Type 0 where
  ended : Outcome A → Task W A
  calling : (W → Task W A) → (W → W) → Task W A

module _ {W : Type 0} where
  unfoldable pub after : {A B : Type 0} → Task W A → (Outcome A → Task W B) → Task W B
  after (ended o) k = k o
  after (calling next effect) k = calling (λ w. after (next w) k) effect

  -- A task that runs with no other one between its calls.
  unfoldable pub alone : {A : Type 0} → Task W A → M W A
  alone (ended o) w = (o, w)
  alone (calling next effect) w = alone (next w) (effect w)

module _ {W A : Type 0} where
  abbrev pub pure : A → Task W A
  pure a = ended (done a)

  abbrev pub raise : Bytes → Task W A
  raise e = ended (fail e)

  abbrev pub crash : Task W A
  crash = ended panic

  unfoldable pub lift : Result A → Task W A
  lift (ok a) = ended (done a)
  lift (err e) = ended (fail e)

  unfoldable pub call : Ext W A → Task W A
  call f = calling (λ w. lift (f w).0) (λ w. (f w).1)

  abbrev pub renamed : (Bytes → Bytes) → Outcome A → Task W A
  renamed f (done a) = ended (done a)
  renamed f (fail e) = ended (fail (f e))
  renamed f panic = ended panic

  unfoldable pub wrap : (Bytes → Bytes) → Task W A → Task W A
  unfolding after
  wrap f t = after t (renamed f)

  abbrev pub attempted : Outcome A → Task W (Option A)
  attempted (done a) = ended (done (some a))
  attempted (fail e) = ended (done none)
  attempted panic = ended panic

  unfoldable pub attempt : Task W A → Task W (Option A)
  unfolding after
  attempt t = after t attempted

  unfoldable pub deref : Option A → Task W A
  deref (some a) = ended (done a)
  deref none = ended panic

module _ {W A B : Type 0} where
  abbrev pub tried : (Result A → Task W B) → Outcome A → Task W B
  tried k (done a) = k (ok a)
  tried k (fail e) = k (err e)
  tried k panic = ended panic

  unfoldable pub try : Task W A → (Result A → Task W B) → Task W B
  unfolding after
  try t k = after t (tried k)

  abbrev pub on_done : (A → Task W B) → Outcome A → Task W B
  on_done k (done a) = k a
  on_done k (fail e) = ended (fail e)
  on_done k panic = ended panic

infixl 5 ◌>>=◌ ◌>>◌
unfoldable pub ◌>>=◌ : {W A B : Type 0} → Task W A → (A → Task W B) → Task W B
unfolding after
◌>>=◌ t k = after t (on_done k)

abbrev pub ◌>>◌ : {W A B : Type 0} → Task W A → Task W B → Task W B
t >> k = t >>= λ _. k
