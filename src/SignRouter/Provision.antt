-- ===== src/SignRouter/Provision.antt =====
-- internal/signrouter: which keys a server holds after `New`.
use mathlib.Core.List.{cons-ne-nil}
use besu_interbank_demo.Base.{
  true, false, List, [], ◌∷◌, none, some, ◌≡◌, ◌≢◌, ◌↔◌, ◌⊎◌, refl, Bytes, elem, ◌==◌, bytes_eq_iff,
  All, arith, Bool-cases, inl, inr,
}
use besu_interbank_demo.Base.Dict.{Dict, lookup, insert, lookup-insert}
use besu_interbank_demo.Base.Outcome.{ok, Result-cases}
use besu_interbank_demo.Platform.Geth.{Geth}
use besu_interbank_demo.SignRouter.Keystore.{Key, load_key}
use besu_interbank_demo.SignRouter.Server.{Server, load_keys, new}

module _ (G : Geth) where
  -- The key that the keystore gives for a KeyID.
  abbrev pub IsKeyOf : Bytes → Key G → Type 0
  IsKeyOf id k = load_key G id ≡ ok k

  -- The first step of a successful loop.
  load_keys-cons :
      (id : Bytes) (ids : List Bytes) (d : Dict (Key G)) {d' : Dict (Key G)}
      → load_keys G (id ∷ ids) d ≡ ok d'
      → (k : Key G) × IsKeyOf id k × (load_keys G ids (insert id k d) ≡ ok d')
  unfolding load_keys
  load_keys-cons id ids d h = elim (Result-cases (load_key G id)) [
    | inr (e, bad) ↦ absurd (ground arith)
    | inl (k, good) ↦ (k, good, ground arith)
  ]

  load_keys-absent :
      (ids : List Bytes) (d : Dict (Key G)) {d' : Dict (Key G)} (j : Bytes)
      → load_keys G ids d ≡ ok d'
      → elem j ids ≡ false
      → lookup j d' ≡ lookup j d
  unfolding elem
  load_keys-absent [] d j h e = unfold load_keys in cc
  load_keys-absent (id ∷ ids) d {d'} j h e =
      let (k, _, later) = load_keys-cons id ids d {d' = d'} h in
      ground (arith, load_keys-absent ids (insert id k d) {d' = d'} j later, lookup-insert id j k d)

  -- A KeyID that the loop has met is bound to its key, and so is one that it has not yet, if it was.
  load_keys-held :
      (ids : List Bytes) (d : Dict (Key G)) {d' : Dict (Key G)} (j : Bytes)
      → load_keys G ids d ≡ ok d'
      → (elem j ids ≡ true) ⊎ ((k : Key G) × IsKeyOf j k × (lookup j d ≡ some k))
      → (k : Key G) × IsKeyOf j k × (lookup j d' ≡ some k)
  unfolding elem
  load_keys-held [] d j h (inl e) = cc
  load_keys-held [] d j h (inr (k, of_j, e)) = unfold load_keys in (k, of_j, ground arith)
  load_keys-held (id ∷ ids) d {d'} j h before =
      let (k, of_id, later) = load_keys-cons id ids d {d' = d'} h in
      load_keys-held ids (insert id k d) j later (elim (Bool-cases (id == j)) [
        | inl same ↦
            inr (k, rw (← (bytes_eq_iff id j).0 same) of_id, ground (arith, lookup-insert id j k d))
        | inr differs ↦ elim before [
          | inl e ↦ inl (ground arith)
          | inr (k', of_j, e) ↦ inr (k', of_j, ground (arith, lookup-insert id j k d))
        ]
      ])

  pub new-allowed :
      (label : Bytes) (ids : List Bytes) {s : Server G}
      → new G label ids ≡ ok s
      → (ids ≢ []) × (load_keys G ids [] ≡ ok s.allowed) × (s.label ≡ label)
  unfolding new
  new-allowed label [] h = cc
  new-allowed label (id ∷ ids) h = (cons-ne-nil id ids, ground arith, ground arith)

  -- A server that `New` returns holds, for each KeyID that it was given, the keystore's key of that
  -- KeyID, and holds no key for any other KeyID; it was given at least one.
  pub new-IsExact :
      (label : Bytes) (ids : List Bytes) {s : Server G}
      → new G label ids ≡ ok s
      → (ids ≢ [])
        × ((j : Bytes)
            → elem j ids ≡ true
            → (k : Key G) × IsKeyOf j k × (lookup j s.allowed ≡ some k))
        × ((j : Bytes) → elem j ids ≡ false → lookup j s.allowed ≡ none)
  new-IsExact label ids {s} h =
      let (nonempty, loaded, _) = new-allowed label ids {s = s} h in
      (
        nonempty,
        λ j e. load_keys-held ids [] j loaded (inl e),
        λ j e. unfold lookup in load_keys-absent ids [] j loaded e,
      )

  load_keys-succeeds :
      (ids : List Bytes) (d : Dict (Key G))
      → All (λ id. (k : Key G) × IsKeyOf id k) ids
      → (d' : Dict (Key G)) × (load_keys G ids d ≡ ok d')
  unfolding load_keys
  load_keys-succeeds [] d h = (d, refl)
  load_keys-succeeds (id ∷ ids) d ((k, e), h) =
      rw (e, load_keys) (load_keys-succeeds ids (insert id k d) h)

  load_keys-All :
      (ids : List Bytes) (d : Dict (Key G)) {d' : Dict (Key G)}
      → load_keys G ids d ≡ ok d'
      → All (λ id. (k : Key G) × IsKeyOf id k) ids
  load_keys-All [] d h = tt
  load_keys-All (id ∷ ids) d {d'} h =
      let (k, of_id, later) = load_keys-cons id ids d {d' = d'} h in
      ((k, of_id), load_keys-All ids (insert id k d) later)

  new-succeeds :
      (label : Bytes) (ids : List Bytes)
      → ids ≢ []
      → (d : Dict (Key G)) × (load_keys G ids [] ≡ ok d)
      → (s : Server G) × (new G label ids ≡ ok s)
  unfolding new
  new-succeeds label [] nonempty _ = absurd (nonempty refl)
  new-succeeds label (id ∷ ids) _ (d, e) = (record { label = label; allowed = d }, rw (e, new))

  -- `New` succeeds exactly when it is given a KeyID and the keystore has a good key for each.
  pub new-succeeds_iff :
      (label : Bytes) (ids : List Bytes)
      → ((s : Server G) × (new G label ids ≡ ok s))
        ↔ ((ids ≢ []) × All (λ id. (k : Key G) × IsKeyOf id k) ids)
  new-succeeds_iff label ids = (
    λ (s, h).
        let (nonempty, loaded, _) = new-allowed label ids {s = s} h in
        (nonempty, load_keys-All ids [] loaded),
    λ (nonempty, good). new-succeeds label ids nonempty (load_keys-succeeds ids [] good),
  )
