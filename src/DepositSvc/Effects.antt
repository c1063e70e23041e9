-- ===== src/DepositSvc/Effects.antt =====
-- internal/depositsvc: what each write has done when it returns its result.
use mathlib.Core.Path.{ap₂, subst}
use besu_interbank_demo.Base.{
  ℕ, true, List, [], ◌∷◌, ◌++◌, append_assoc, append-nil, ◌≡◌, ◌↔◌, ◌⊎◌, ◌∙◌, ap, sym, refl, Bytes,
  utf8, arith, inl, inr,
}
use besu_interbank_demo.Base.Int.{ℤ}
use besu_interbank_demo.Base.Outcome.{M, Result, ok, err, done, lift, ◌>>=◌, ◌>>◌}
use besu_interbank_demo.Base.Runs.{bind-done, bind-fail, bind-eq-done, lift-ok, pure-eq-done}
use besu_interbank_demo.Chainx.{auth_registry_abi, deposit_token_abi, token_authority_abi}
use besu_interbank_demo.Config.{Role, issuer, holder, role_eq}
use besu_interbank_demo.DepositSvc.Broadcast.{IsBroadcast, build_sign_broadcast_iff}
use besu_interbank_demo.DepositSvc.Requests.{require_role_refused}
use besu_interbank_demo.DepositSvc.Service.{Service, TxResult}
use besu_interbank_demo.DepositSvc.Writes.{
  require_role, mint, transfer, authorize_steps, authorize_loop, authorize,
}
use besu_interbank_demo.Platform.Abi.{Address, address, big_int, uint64, bool}
use besu_interbank_demo.Platform.Geth.{Geth}
use besu_interbank_demo.Platform.Machine.{Machine}

Role-cases : (r : Role) → (r ≡ issuer) ⊎ (r ≡ holder)
Role-cases issuer = inl refl
Role-cases holder = inr refl

module _ {W A B : Type 0} where
  packed :
      (r : Result A) (k : A → M W B) (w w' : W) {b : B}
      → (lift r >>= k) w ≡ (done b, w')
      → (a : A) × (r ≡ ok a) × (k a w ≡ (done b, w'))
  unfolding ◌>>=◌ lift
  packed (ok a) k w w' h = (a, refl, h)
  packed (err x) k w w' h = absurd (ground arith)

module _ {G : Geth} (m : Machine G) (s : Service) where
  role_checked :
      (op : Bytes) (w : m.World)
      → s.bank.role ≡ issuer
      → require_role m s issuer op w ≡ (done tt, w)
  unfolding require_role role_eq
  role_checked op w e = ground arith

  issuer_only :
      {B : Type 0} (op : Bytes) (k : M m.World B) (w w' : m.World) {b : B}
      → (require_role m s issuer op >> k) w ≡ (done b, w')
      → (s.bank.role ≡ issuer) × (k w ≡ (done b, w'))
  issuer_only op k w w' {b} h = elim (Role-cases s.bank.role) [
    | inl e ↦ (e, sym (bind-done _ _ w w (role_checked op w e)) ∙ h)
    | inr e ↦
        let refused = sym (bind-fail _ (λ _. k) w w (require_role_refused m s op w e)) ∙ h in
        absurd (ground arith)
  ]

  -- A transfer returns a result exactly when `transfer` was packed for the recipient and the amount, and
  -- the pipeline broadcast that calldata to the deposit token and returned the result.
  pub transfer_iff :
      (to : Address) (amount : ℤ) (w w' : m.World) (res : TxResult)
      → (transfer m s to amount w ≡ (done res, w')) ↔ (
          (payload : Bytes) × (G.pack deposit_token_abi
              (utf8 "transfer")
              (address to ∷ big_int amount ∷ [])
            ≡ ok payload)
          × IsBroadcast m s (utf8 "transfer") s.dep.deposit_token payload w w' res)
  unfolding transfer
  transfer_iff to amount w w' res = (
    λ h.
        let (payload, e, ran) = packed _ _ w w' h in
        (payload, e, (build_sign_broadcast_iff m s _ _ payload w w' res).0 ran),
    λ (payload, e, g).
        bind-done _ _ w w (lift-ok w e) ∙ (build_sign_broadcast_iff m s _ _ payload w w' res).1 g,
  )

  -- A mint returns a result exactly when the bank is an issuer, `mint` was packed for the deposit token,
  -- the recipient and the amount, and the pipeline broadcast that calldata to the TokenAuthority and
  -- returned the result.
  pub mint_iff :
      (to : Address) (amount : ℤ) (w w' : m.World) (res : TxResult)
      → (mint m s to amount w ≡ (done res, w')) ↔ (
          (s.bank.role ≡ issuer)
          × (payload : Bytes) × (G.pack token_authority_abi
                (utf8 "mint")
                (address s.dep.deposit_token ∷ address to ∷ big_int amount ∷ [])
              ≡ ok payload)
          × IsBroadcast m s (utf8 "mint") s.dep.token_authority payload w w' res)
  unfolding mint
  mint_iff to amount w w' res = (
    λ h.
        let (role, h1) = issuer_only (utf8 "mint") _ w w' h in
        let (payload, e, ran) = packed _ _ w w' h1 in
        (role, payload, e, (build_sign_broadcast_iff m s _ _ payload w w' res).0 ran),
    λ (role, payload, e, g).
        bind-done _ _ w w (role_checked (utf8 "mint") w role)
        ∙ bind-done _ _ w w (lift-ok w e)
        ∙ (build_sign_broadcast_iff m s _ _ payload w w' res).1 g,
  )

  -- The account was added to each policy in turn, by one broadcast for each, with the results in order.
  abbrev pub Added : Address → List (ℕ × Bytes) → m.World → m.World → List TxResult → Type 0
  Added account [] w w' rs = (rs ≡ []) × (w ≡ w')
  Added account ((policy_id, tag) ∷ steps) w w' rs =
      (payload : Bytes) × (res : TxResult) × (rest : List TxResult) × (v : m.World) × (rs
        ≡ res ∷ rest)
      × (G.pack auth_registry_abi (utf8 "modifyPolicyWhitelist")
            (uint64 policy_id ∷ address account ∷ bool true ∷ [])
          ≡ ok payload)
      × IsBroadcast m s tag s.dep.auth_registry payload w v res
      × Added account steps v w' rest

  authorize_loop-Added :
      (account : Address) (steps : List (ℕ × Bytes)) (out : List TxResult) (w w' : m.World)
      {rs : List TxResult}
      → authorize_loop m s account steps out w ≡ (done rs, w')
      → (new : List TxResult) × (rs ≡ out ++ new) × Added account steps w w' new
  unfolding authorize_loop
  authorize_loop-Added account [] out w w' h =
      let (same, world) = pure-eq-done out w w' h in
      ([], same ∙ sym (append-nil out), (refl, world))
  authorize_loop-Added account ((policy_id, tag) ∷ steps) out w w' h =
      let (payload, e, h1) = packed _ _ w w' h in
      let (res, v, ran, h2) = bind-eq-done _ _ w w' h1 in
      let (new, same, added) = authorize_loop-Added account steps (out ++ res ∷ []) v w' h2 in
      (
        res ∷ new,
        same ∙ append_assoc out (res ∷ []) new,
        (
          payload,
          res,
          new,
          v,
          refl,
          e,
          (build_sign_broadcast_iff m s _ _ payload w v res).0 ran,
          added,
        ),
      )

  authorize_loop_of_Added :
      (account : Address) (steps : List (ℕ × Bytes)) (out new : List TxResult) (w w' : m.World)
      → Added account steps w w' new
      → authorize_loop m s account steps out w ≡ (done (out ++ new), w')
  unfolding authorize_loop
  authorize_loop_of_Added account [] out new w w' (none_new, world) =
      ap₂ (λ t v. (done t, v)) (sym (append-nil out) ∙ ap (λ t. out ++ t) (sym none_new)) world
  authorize_loop_of_Added account ((policy_id, tag) ∷ steps) out new w w'
        (payload, res, rest, v, same, e, g, added) =
      bind-done _ _ w w (lift-ok w e)
      ∙ bind-done _ _ w v ((build_sign_broadcast_iff m s _ _ payload w v res).1 g)
      ∙ authorize_loop_of_Added account steps (out ++ res ∷ []) rest v w' added
      ∙ ap (λ t. (done t, w')) (append_assoc out (res ∷ []) rest ∙ ap (λ t. out ++ t) (sym same))

  -- Authorize returns results exactly when the bank is an issuer and the account was added to the transfer
  -- policy and then to the mint-recipient policy, each by one broadcast to the AuthRegistry; the results
  -- are those of the two, in this order.
  pub authorize_iff :
      (account : Address) (w w' : m.World) (rs : List TxResult)
      → (authorize m s account w ≡ (done rs, w'))
        ↔ ((s.bank.role ≡ issuer) × Added account (authorize_steps m s) w w' rs)
  unfolding authorize
  authorize_iff account w w' rs = (
    λ h.
        let (role, h1) = issuer_only (utf8 "authorize") _ w w' h in
        let (new, same, added) = authorize_loop-Added account (authorize_steps m s) [] w w' h1 in
        (role, subst (Added account (authorize_steps m s) w w') (sym same) added),
    λ (role, added).
        bind-done _ _ w w (role_checked (utf8 "authorize") w role)
        ∙ authorize_loop_of_Added account (authorize_steps m s) [] rs w w' added,
  )
