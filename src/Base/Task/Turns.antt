-- ===== src/Base/Task/Turns.antt =====
-- Schedules by evaluation: the tasks take turns in a given order.
use Prim.Native.Nat.{ℕ, zero, suc}
use mathlib.Core.Path.{◌≡◌, refl, ap, subst, sym}
use mathlib.Core.Logic.{◌⊎◌, inl, inr}
use mathlib.Core.List.{List, [], ◌∷◌, ◌++◌}
use besu_interbank_demo.Base.Task.{Task, ended, calling}
use besu_interbank_demo.Base.Task.Schedule.{System, advance, Reach, next_step}

module _ {W A : Type 0} where
  -- The next call of the task at an index, if there is one.
  unfoldable pub turn : ℕ → List (Task W A) → W → System W A
  turn n [] w = record { world = w; tasks = [] }
  turn zero (ended o ∷ ts) w = record { world = w; tasks = ended o ∷ ts }
  turn zero (calling next effect ∷ ts) w = record { world = effect w; tasks = next w ∷ ts }
  turn (suc n) (t ∷ ts) w = let s = turn n ts w in record { world = s.world; tasks = t ∷ s.tasks }

  unfoldable pub turns : List ℕ → System W A → System W A
  unfolding turn
  turns [] s = s
  turns (n ∷ ns) s = turns ns (turn n s.tasks s.world)

  Turned : List (Task W A) → W → System W A → Type 0
  Turned ts w u =
      (u ≡ record { world = w; tasks = ts })
      ⊎ ((before later : List (Task W A)) × (next : W → Task W A) × (effect : W → W) × (ts
            ≡ before ++ calling next effect ∷ later)
          × (u ≡ record { world = effect w; tasks = before ++ next w ∷ later }))

  turn-Turned : (n : ℕ) (ts : List (Task W A)) (w : W) → Turned ts w (turn n ts w)
  unfolding turn Turned
  turn-Turned n [] w = inl refl
  turn-Turned zero (ended o ∷ ts) w = inl refl
  turn-Turned zero (calling next effect ∷ ts) w = inr ([], ts, next, effect, refl, refl)
  turn-Turned (suc n) (t ∷ ts) w = elim (turn-Turned n ts w) [
    | inl same ↦ inl (ap (λ s. record { world = s.world; tasks = t ∷ s.tasks }) same)
    | inr (before, later, next, effect, at, e) ↦ inr (
      t ∷ before,
      later,
      next,
      effect,
      ap (λ l. t ∷ l) at,
      ap (λ s. record { world = s.world; tasks = t ∷ s.tasks }) e,
    )
  ]

  -- Whatever the turns, the system is one that can be reached.
  pub turns-Reach :
      (Arrives : Task W A → Type 0) (ns : List ℕ) {s u : System W A}
      → Reach Arrives s u
      → Reach Arrives s (turns ns u)
  unfolding turns Turned
  turns-Reach Arrives [] r = r
  turns-Reach Arrives (n ∷ ns) {s} {u} r =
      turns-Reach Arrives ns (elim (turn-Turned n u.tasks u.world) [
        | inl same ↦ subst (Reach Arrives s) (sym same) r
        | inr (before, later, next, effect, at, e) ↦
            subst (Reach Arrives s) (sym e) (next_step r (advance before later next effect at))
      ])
