-- ===== src/DepositSvc/Sends.antt =====
-- internal/depositsvc: which transactions a service hands to the chain. An invariant of the world that
-- the reads and the router's calls keep, and that the service's own transactions keep, holds after every
-- request, whatever fails on the way.
use besu_interbank_demo.Base.{
  ℕ, true, List, [], ◌∷◌, ◌++◌, ◌≡◌, refl, Bytes, utf8, Option-cases, eqb, inl, inr,
}
use besu_interbank_demo.Base.Int.{ℤ, pos}
use besu_interbank_demo.Base.Outcome.{ok}
use besu_interbank_demo.Base.Keeps.{KeepsExt}
use besu_interbank_demo.Base.Task.Schedule.{
  Respects, lift-Respects, call-Respects, wrap-Respects, try-Respects, bind-Respects, if-Respects,
  bind_lift-Respects, bind_wrap-lift-Respects,
}
use besu_interbank_demo.Chainx.{token_authority_abi, deposit_token_abi, auth_registry_abi}
use besu_interbank_demo.Config.{Bank, Role, role_eq, chain_id}
use besu_interbank_demo.DepositSvc.Service.{Service, TxResult}
use besu_interbank_demo.DepositSvc.Tasks.{
  read_reply, router_sign, estimated_gas, sign_broadcast, build_sign_broadcast, require_role, mint,
  authorize, authorize_loop, transfer,
}
use besu_interbank_demo.DepositSvc.Writes.{decode_sign_reply, build_tx, sign_call, authorize_steps}
use besu_interbank_demo.Platform.Abi.{Address, Hash, address, big_int, uint64, bool}
use besu_interbank_demo.Platform.Geth.{Geth, DynamicFeeTx}
use besu_interbank_demo.Platform.Http.{Response}
use besu_interbank_demo.Platform.Machine.{Machine, CallMsg}

module _ {G : Geth} (m : Machine G) where
  -- The calls that read the chain, and the calls of a router, keep `P`.
  pub record ReadsKeep (P : m.World → Type 0) (bank : Bank) : Type 0 where
    pub nonce : (a : Address) → KeepsExt P (m.pending_nonce_at a)
    pub base_fee : KeepsExt P m.header_base_fee
    pub gas : (msg : CallMsg) → KeepsExt P (m.estimate_gas msg)
    pub contract : (msg : CallMsg) → KeepsExt P (m.call_contract msg)
    pub mined : (tx : G.Transaction) → KeepsExt P (m.wait_mined tx)
    pub router : (hash : Hash) → KeepsExt P (m.http (sign_call m bank hash))

  -- A transaction that the pipeline assembled: chain 1337, no value and no tip, the given contract and
  -- calldata, and a signature.
  pub record IsAssembled (to : Address) (payload : Bytes) (tx : G.Transaction) : Type 0 where
    pub fields : DynamicFeeTx
    pub signature : Bytes
    pub chain : fields.chain_id ≡ 1337
    pub contract : fields.to ≡ to
    pub calldata : fields.payload ≡ payload
    pub no_value : fields.value ≡ pos 0
    pub no_tip : fields.gas_tip_cap ≡ pos 0
    pub assembled : G.with_signature chain_id (G.new_tx fields) signature ≡ ok tx

  -- Sending such a transaction keeps `P`.
  abbrev pub SendKeeps : (m.World → Type 0) → Address → Bytes → Type 0
  SendKeeps P to payload =
      (tx : G.Transaction) → IsAssembled to payload tx → KeepsExt P (m.send_transaction tx)

module _ {G : Geth} (m : Machine G) (P : m.World → Type 0) (s : Service)
    (reads : ReadsKeep m P s.bank) where
  read_reply-Respects : (resp : Response) → Respects P (read_reply m s.bank resp)
  unfolding read_reply Respects
  read_reply-Respects resp = elim (Option-cases (decode_sign_reply resp.body)) [
    | inl bad ↦ rw (bad, read_reply) tt
    | inr (out, decoded) ↦
        rw (decoded, read_reply)
          (if-Respects P (eqb resp.status 200) _ _
            (bind-Respects P _ _
              (wrap-Respects P _ _ (lift-Respects P (G.decode_hex out.signature))) (λ sig. tt))
            (tt))
  ]

  router_sign-Respects : (hash : Hash) → Respects P (router_sign m s hash)
  unfolding router_sign Respects
  router_sign-Respects hash =
      if-Respects P (m.is_url (sign_call m s.bank hash).url) _ _
        (bind-Respects P _ _ (wrap-Respects P _ _ (call-Respects P _ (reads.router hash)))
          read_reply-Respects)
        (tt)

  estimated_gas-Respects :
      (from to : Address) (payload : Bytes) → Respects P (estimated_gas m from to payload)
  unfolding estimated_gas Respects
  estimated_gas-Respects from to payload =
      try-Respects P _ _ (call-Respects P _ (reads.gas _)) λ r. tt

  sign_broadcast-Respects :
      (op : Bytes) (fields : DynamicFeeTx)
      → ((tx : G.Transaction) (sig : Bytes)
          → G.with_signature chain_id (G.new_tx fields) sig ≡ ok tx
          → KeepsExt P (m.send_transaction tx))
      → Respects P (sign_broadcast m s op fields)
  unfolding sign_broadcast Respects
  sign_broadcast-Respects op fields send = bind-Respects P _ _ (router_sign-Respects _) λ reply.
      bind_wrap-lift-Respects P _ _ _ λ tx assembled.
        bind-Respects P _ _ (wrap-Respects P _ _ (call-Respects P _ (send tx reply.0 assembled)))
          λ _.
            bind-Respects P _ _ (wrap-Respects P _ _ (call-Respects P _ (reads.mined tx)))
              λ receipt. tt

  pub build_sign_broadcast-Respects :
      (op : Bytes) (to : Address) (payload : Bytes)
      → SendKeeps m P to payload
      → Respects P (build_sign_broadcast m s op to payload)
  unfolding build_sign_broadcast Respects
  build_sign_broadcast-Respects op to payload send =
      bind-Respects P _ _ (wrap-Respects P _ _ (call-Respects P _ (reads.nonce _))) λ nonce.
        bind-Respects P _ _ (wrap-Respects P _ _ (call-Respects P _ reads.base_fee)) λ base_fee.
          bind-Respects P _ _ (estimated_gas-Respects _ _ _) λ gas.
            sign_broadcast-Respects op (build_tx nonce base_fee gas to payload) λ tx sig assembled.
              send tx (
                unfold build_tx in
                record {
                  fields = build_tx nonce base_fee gas to payload;
                  signature = sig;
                  chain = refl;
                  contract = refl;
                  calldata = refl;
                  no_value = refl;
                  no_tip = refl;
                  assembled = assembled;
                })

  require_role-Respects : (want : Role) (op : Bytes) → Respects P (require_role m s want op)
  unfolding require_role Respects
  require_role-Respects want op = if-Respects P (role_eq s.bank.role want) _ _ (tt) (tt)

  -- Minting sends no transaction but calls of the token authority's `mint` for the deposit token.
  pub mint-Respects :
      (to : Address) (amount : ℤ)
      → ((payload : Bytes)
          → G.pack token_authority_abi
              (utf8 "mint")
              (address s.dep.deposit_token ∷ address to ∷ big_int amount ∷ [])
            ≡ ok payload
          → SendKeeps m P s.dep.token_authority payload)
      → Respects P (mint m s to amount)
  unfolding mint Respects
  mint-Respects to amount send = bind-Respects P _ _ (require_role-Respects _ _) λ _.
      bind_lift-Respects P _ _
        λ payload packed. build_sign_broadcast-Respects _ _ payload (send payload packed)

  authorize_loop-Respects :
      (account : Address) (steps : List (ℕ × Bytes)) (out : List TxResult)
      → ((policy : ℕ) (payload : Bytes)
          → G.pack auth_registry_abi
              (utf8 "modifyPolicyWhitelist")
              (uint64 policy ∷ address account ∷ bool true ∷ [])
            ≡ ok payload
          → SendKeeps m P s.dep.auth_registry payload)
      → Respects P (authorize_loop m s account steps out)
  unfolding authorize_loop Respects
  authorize_loop-Respects account [] out send = tt
  authorize_loop-Respects account ((policy, tag) ∷ steps) out send =
      bind_lift-Respects P _ _ λ payload packed.
        bind-Respects P _ _ (build_sign_broadcast-Respects _ _ payload (send policy payload packed))
          λ res. authorize_loop-Respects account steps (out ++ res ∷ []) send

  pub authorize-Respects :
      (account : Address)
      → ((policy : ℕ) (payload : Bytes)
          → G.pack auth_registry_abi
              (utf8 "modifyPolicyWhitelist")
              (uint64 policy ∷ address account ∷ bool true ∷ [])
            ≡ ok payload
          → SendKeeps m P s.dep.auth_registry payload)
      → Respects P (authorize m s account)
  unfolding authorize Respects
  authorize-Respects account send =
      bind-Respects P _ _ (require_role-Respects _ _)
        λ _. authorize_loop-Respects account (authorize_steps m s) [] send

  pub transfer-Respects :
      (to : Address) (amount : ℤ)
      → ((payload : Bytes)
          → G.pack deposit_token_abi (utf8 "transfer") (address to ∷ big_int amount ∷ [])
            ≡ ok payload
          → SendKeeps m P s.dep.deposit_token payload)
      → Respects P (transfer m s to amount)
  unfolding transfer Respects
  transfer-Respects to amount send =
      bind_lift-Respects P _ _
        λ payload packed. build_sign_broadcast-Respects _ _ payload (send payload packed)
