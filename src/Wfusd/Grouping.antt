-- ===== src/Wfusd/Grouping.antt =====
-- The groups of an amount's digits, and what is read back from them.
use besu_interbank_demo.Base.{
  ℕ, zero, suc, ◌+◌, ◌-◌, ◌≤◌, List, [], ◌∷◌, ◌++◌, append_assoc, ◌≡◌, ◌∙◌, ap, sym, refl, Bytes,
  All, length, take, drop, length-take, length-drop, take-append-drop, ltb, arith, Bool-cases, inl,
  inr, ltb→lt, ltb→le,
}
use besu_interbank_demo.Wfusd.{group}

abbrev pub concat : List Bytes → Bytes
concat [] = []
concat (p ∷ ps) = p ++ concat ps

abbrev pub HasThree : Bytes → Type 0
HasThree p = length p ≡ 3

-- The first group has one to three characters, and every other has three.
pub record IsGrouped (parts : List Bytes) : Type 0 where
  pub first : Bytes
  pub others : List Bytes
  pub shape : parts ≡ first ∷ others
  pub not_empty : 1 ≤ length first
  pub short : length first ≤ 3
  pub rest : All HasThree others

pub group-IsGrouped :
    (fuel : ℕ) (s : Bytes) (parts : List Bytes)
    → length s ≤ fuel + 3
    → 1 ≤ length s
    → All HasThree parts
    → IsGrouped (group fuel s parts)
unfolding group
group-IsGrouped zero s parts fits pos h = record {
  first = s;
  others = parts;
  shape = refl;
  not_empty = pos;
  short = omega arith;
  rest = h;
}
group-IsGrouped (suc fuel) s parts fits pos h = elim (Bool-cases (ltb 3 (length s))) [
  | inr short ↦
      rw (short, group)
        (record {
          first = s;
          others = parts;
          shape = refl;
          not_empty = pos;
          short = ltb→le _ _ short;
          rest = h;
        })
  | inl long ↦
      let more = ltb→lt _ _ long in
      rw (long, group)
        (group-IsGrouped fuel (take (length s - 3) s) (drop (length s - 3) s ∷ parts)
          (omega (arith, length-take (length s - 3) s))
          (omega (arith, length-take (length s - 3) s))
          (omega (arith, length-drop (length s - 3) s), h))
]

pub concat-group :
    (fuel : ℕ) (s : Bytes) (parts : List Bytes) → concat (group fuel s parts) ≡ s ++ concat parts
unfolding group
concat-group zero s parts = refl
concat-group (suc fuel) s parts = elim (Bool-cases (ltb 3 (length s))) [
  | inr short ↦ rw (short, group) refl
  | inl long ↦
      rw (long, group)
        (concat-group fuel (take (length s - 3) s) (drop (length s - 3) s ∷ parts)
          ∙ sym (append_assoc (take (length s - 3) s) (drop (length s - 3) s) (concat parts))
          ∙ ap (λ t. t ++ concat parts) (take-append-drop (length s - 3) s))
]
