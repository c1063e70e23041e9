-- ===== src/SignRouter/KeySet.antt =====
-- internal/signrouter: a router up to the order of its KeyIDs and of its map.
use mathlib.Core.List.{cons-ne-nil}
use mathlib.Core.Quot
use mathlib.Core.Quot.{Quot}
use besu_interbank_demo.Base.{
  true, List, [], ◌∷◌, ◌≡◌, ◌≢◌, ◌∙◌, sym, ap, refl, Bytes, elem, bytes_eq_iff, All, arith,
  Bool-cases, Option-cases, inl, inr,
}
use besu_interbank_demo.Base.Dict.{lookup}
use besu_interbank_demo.Base.Outcome.{ok, Outcome}
use besu_interbank_demo.Platform.Geth.{Geth}
use besu_interbank_demo.Platform.Http.{Request, Response}
use besu_interbank_demo.SignRouter.Provision.{new-allowed, new-IsExact, new-succeeds_iff}
use besu_interbank_demo.SignRouter.Server.{Server, new, decode_sign_request, handle_sign}

-- Two lists of the same KeyIDs, in any order and any number of times.
abbrev pub SameIds : List Bytes → List Bytes → Type 0
SameIds xs ys = (j : Bytes) → elem j xs ≡ elem j ys

All-of_elem :
    {P : Bytes → Type 0} (ids : List Bytes) → ((j : Bytes) → elem j ids ≡ true → P j) → All P ids
unfolding elem
All-of_elem [] h = tt
All-of_elem (id ∷ ids) h =
    (h id (ground (arith, bytes_eq_iff id id)), All-of_elem ids λ j e. h j (ground arith))

SameIds-ne-nil : (xs ys : List Bytes) → SameIds xs ys → xs ≢ [] → ys ≢ []
unfolding elem
SameIds-ne-nil [] ys same nonempty = absurd (nonempty refl)
SameIds-ne-nil (x ∷ xs) [] same nonempty = absurd (ground (arith, same x, bytes_eq_iff x x))
SameIds-ne-nil (x ∷ xs) (y ∷ ys) same nonempty = cons-ne-nil y ys

outcome_set : IsSet (Outcome Response)
outcome_set = hlevel

module _ (G : Geth) where
  -- Two servers with the same label, whose maps have the same keys.
  abbrev pub SameKeys : Server G → Server G → Type 0
  SameKeys s t = (s.label ≡ t.label) × ((j : Bytes) → lookup j s.allowed ≡ lookup j t.allowed)

  -- A router, without the order of its map.
  abbrev pub Router : Type 0
  Router = Quot SameKeys

  handle_sign-SameKeys :
      (s t : Server G) (r : Request) → SameKeys s t → handle_sign G s r ≡ handle_sign G t r
  unfolding handle_sign
  handle_sign-SameKeys s t r (label, keys) = elim (Option-cases (decode_sign_request r.body)) [
    | inl bad ↦ ground arith
    | inr (req, good) ↦ ground (arith, keys req.key_id)
  ]

  -- What a router answers to a sign request.
  pub answer : Request → Router → Outcome Response
  answer r = Quot.lift outcome_set (λ s. handle_sign G s r) (λ s t h. handle_sign-SameKeys s t r h)

  new-SameKeys :
      (label : Bytes) (xs ys : List Bytes) {s t : Server G}
      → SameIds xs ys
      → new G label xs ≡ ok s
      → new G label ys ≡ ok t
      → SameKeys s t
  new-SameKeys label xs ys {s} {t} same first second =
      let (_, held, absent) = new-IsExact G label xs {s = s} first in
      let (_, held', absent') = new-IsExact G label ys {s = t} second in
      (
        ground (
          arith,
          (new-allowed G label xs {s = s} first).2,
          (new-allowed G label ys {s = t} second).2,
        ),
        λ j. elim (Bool-cases (elem j xs)) [
          | inl e ↦
              let (k, of_j, found) = held j e in
              let (k', of_j', found') = held' j (sym (same j) ∙ e) in ground arith
          | inr e ↦ absent j e ∙ sym (absent' j (sym (same j) ∙ e))
        ],
      )

  -- Where `New` succeeds, it succeeds with the same label on the same KeyIDs in any other order and number too,
  -- and the two servers are one router of the quotient: they answer each sign request alike.
  pub new-same :
      (label : Bytes) (xs ys : List Bytes) {s : Server G}
      → SameIds xs ys
      → new G label xs ≡ ok s
      → (t : Server G) × (new G label ys ≡ ok t)
        × ◌≡◌ {A = Router} (Quot.mk s) (Quot.mk t)
        × ((r : Request) → handle_sign G s r ≡ handle_sign G t r)
  unfolding answer
  new-same label xs ys {s} same first =
      let (nonempty, held, _) = new-IsExact G label xs {s = s} first in
      let (t, second) = (new-succeeds_iff G label ys).1 (
        SameIds-ne-nil xs ys same nonempty,
        All-of_elem ys λ j e. let (k, of_j, _) = held j (same j ∙ e) in (k, of_j),
      ) in
      let path = Quot.sound (new-SameKeys label xs ys {s = s} {t = t} same first second) in
      (t, second, path, λ r. ap (answer r) path)
