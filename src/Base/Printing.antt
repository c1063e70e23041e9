-- ===== src/Base/Printing.antt =====
-- Computations that print: the world has the text printed so far beside it.
use mathlib.Core.Path.{◌≡◌, ap, sym, ◌∙◌, refl}
use mathlib.Core.List.{List, [], ◌∷◌, ◌++◌, append_assoc}
use besu_interbank_demo.Base.Text.{Bytes}
use besu_interbank_demo.Base.Outcome.{done, M, pure, ◌>>=◌, ◌>>◌}
use besu_interbank_demo.Base.Runs.{bind-eq-done, pure-eq-done}

-- A computation on the world `W` that may print.
abbrev pub Printing : Type 0 → Type 0 → Type 0
Printing W A = M (Bytes × W) A

module _ {W : Type 0} where
  unfoldable pub say : Bytes → Printing W (Unit {0})
  say text s = (done tt, (s.0 ++ text, s.1))

  -- A computation that prints nothing.
  unfoldable pub silently : {A : Type 0} → M W A → Printing W A
  silently f s = let r = f s.1 in (r.0, (s.0, r.1))

-- The text of some pieces behind `start`.
abbrev pub joined : Bytes → List Bytes → Bytes
joined start [] = start
joined start (t ∷ ts) = joined (start ++ t) ts

module _ {W A : Type 0} where
  -- What `f` has printed when it is done, started behind `start`, is `text` of its value.
  abbrev pub After : Bytes → Printing W A → (A → Bytes) → Type 0
  After start f text =
      (out : Bytes) (w : W) (s : Bytes × W) (a : A)
      → f (out ++ start, w) ≡ (done a, s)
      → s.0 ≡ out ++ text a

  pub pure-After :
      (start : Bytes) (a : A) (text : A → Bytes) → start ≡ text a → After start (pure a) text
  pure-After start a text e out w s b h =
      let (same, world) = pure-eq-done a (out ++ start, w) s h in
      ap (λ p. p.0) (sym world) ∙ ap (λ t. out ++ t) e ∙ ap (λ c. out ++ text c) (sym same)

module _ {W A B : Type 0} where
  pub bind-After :
      (start : Bytes) (f : Printing W A) (k : A → Printing W B) (mid : A → Bytes) (text : B → Bytes)
      → After start f mid
      → ((a : A) → After (mid a) (k a) text)
      → After start (f >>= k) text
  bind-After start f k mid text first rest out w s b h =
      let (a, v, ran, next) = bind-eq-done f k (out ++ start, w) s h in
      rest a out v.1 s b (ap (λ t. k a (t, v.1)) (sym (first out w v a ran)) ∙ next)

  pub silently-After :
      (start : Bytes) (f : M W A) (k : A → Printing W B) (text : B → Bytes)
      → ((a : A) → After start (k a) text)
      → After start (silently f >>= k) text
  unfolding silently
  silently-After start f k text rest =
      bind-After start (silently f) k (λ _. start) text (λ out w s a e. ap (λ p. p.1.0) (sym e))
        rest

module _ {W B : Type 0} where
  pub say-After :
      (start piece : Bytes) (k : Printing W B) (text : B → Bytes)
      → After (start ++ piece) k text
      → After start (say piece >> k) text
  unfolding say ◌>>=◌
  say-After start piece k text rest out w s b h =
      rest out w s b (ap (λ t. k (t, w)) (sym (append_assoc out start piece)) ∙ h)

module _ {W A : Type 0} where
  pub silently-eq-done :
      (f : M W A) (s s' : Bytes × W) {a : A}
      → silently f s ≡ (done a, s')
      → (s'.0 ≡ s.0) × (f s.1 ≡ (done a, s'.1))
  unfolding silently
  silently-eq-done f s s' e = (ap (λ p. p.1.0) (sym e), ap (λ p. (p.0, p.1.1)) e)

  pub bind-say :
      (piece : Bytes) (k : Printing W A) (s : Bytes × W)
      → (say piece >> k) s ≡ k (s.0 ++ piece, s.1)
  unfolding say ◌>>=◌
  bind-say piece k s = refl

-- The first step of a computation that prints and is done.
module _ {W B : Type 0} where
  pub and_silently-eq-done :
      {A : Type 0} (f : M W A) (k : A → Printing W B) (out : Bytes) (w : W) (s : Bytes × W) {b : B}
      → (silently f >>= k) (out, w) ≡ (done b, s)
      → (a : A) × (v : W) × (f w ≡ (done a, v)) × (k a (out, v) ≡ (done b, s))
  and_silently-eq-done f k out w s h =
      let (a, v, ran, rest) = bind-eq-done (silently f) k (out, w) s h in
      let (same, quiet) = silently-eq-done f (out, w) v ran in
      (a, v.1, quiet, ap (λ t. k a (t, v.1)) (sym same) ∙ rest)

  -- The same in the form of a rule: what follows from the two parts of the run.
  pub through_silently :
      {A C : Type 0} (f : M W A) (k : A → Printing W B) (out : Bytes) (w : W) (s : Bytes × W)
      {b : B}
      → (silently f >>= k) (out, w) ≡ (done b, s)
      → ((a : A) (v : W) → f w ≡ (done a, v) → k a (out, v) ≡ (done b, s) → C)
      → C
  through_silently f k out w s h follows =
      let (a, v, ran, rest) = and_silently-eq-done f k out w s h in follows a v ran rest

  pub through :
      {A C : Type 0} (f : Printing W A) (k : A → Printing W B) (s s' : Bytes × W) {b : B}
      → (f >>= k) s ≡ (done b, s')
      → ((a : A) (out : Bytes) (v : W) → f s ≡ (done a, (out, v)) → k a (out, v) ≡ (done b, s') → C)
      → C
  through f k s s' h follows =
      let (a, v, ran, rest) = bind-eq-done f k s s' h in follows a v.0 v.1 ran rest

  pub and_say-eq-done :
      (piece : Bytes) (k : Printing W B) (out : Bytes) (w : W) (s : Bytes × W) {b : B}
      → (say piece >> k) (out, w) ≡ (done b, s)
      → k (out ++ piece, w) ≡ (done b, s)
  and_say-eq-done piece k out w s h = sym (bind-say piece k (out, w)) ∙ h
