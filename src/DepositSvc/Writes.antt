-- ===== src/DepositSvc/Writes.antt =====
-- internal/depositsvc/service.go: the pipeline build, sign, assemble, broadcast, and the writes on it.
use besu_interbank_demo.Base.{
  ℕ, ◌*◌, ◌%◌, ◌^◌, true, List, [], ◌∷◌, ◌++◌, Option, none, some, Bytes, utf8, eqb, if◌then◌else◌,
}
use besu_interbank_demo.Base.Int.{ℤ, pos}
use besu_interbank_demo.Base.Outcome.{
  M, Result, ok, err, pure, raise, crash, lift, call, wrap, try, ◌>>=◌, ◌>>◌,
}
use besu_interbank_demo.Chainx.{token_authority_abi, deposit_token_abi, auth_registry_abi}
use besu_interbank_demo.Config.{Bank, Role, issuer, role_text, role_eq, chain_id}
use besu_interbank_demo.Decimal.{decimal}
use besu_interbank_demo.DepositSvc.Service.{nil_string, Service, TxResult}
use besu_interbank_demo.Platform.Abi.{Address, Hash, address, big_int, uint64, bool}
use besu_interbank_demo.Platform.Geth.{Geth, DynamicFeeTx}
use besu_interbank_demo.Platform.Json.{
  string, object, field, end, Body, doc, struct_fields, string_field,
}
use besu_interbank_demo.Platform.Http.{post, Call, Response, application_json}
use besu_interbank_demo.Platform.Machine.{Machine}

-- The answer of a router, decoded.
pub record SignReply : Type 0 where
  pub signature : Bytes
  pub address : Bytes
  pub error : Bytes

unfoldable pub decode_sign_reply : Body → Option SignReply
decode_sign_reply body = elim (struct_fields body) [
  | none ↦ none
  | some fs ↦ elim (string_field (utf8 "signature") fs) [
    | none ↦ none
    | some signature ↦ elim (string_field (utf8 "address") fs) [
      | none ↦ none
      | some addr ↦ elim (string_field (utf8 "error") fs) [
        | none ↦ none
        | some error ↦ some (record { signature = signature; address = addr; error = error })
      ]
    ]
  ]
]

-- The gas of a transaction: the estimate, or 800,000 without one, doubled in uint64.
unfoldable pub gas_limit : ℕ → ℕ
gas_limit estimate = estimate * 2 % 2 ^ 64

abbrev pub gas_fallback : ℕ
gas_fallback = 800_000

unfoldable pub gas_or_fallback : Result ℕ → ℕ
gas_or_fallback (ok gas) = gas
gas_or_fallback (err _) = gas_fallback

abbrev pub fee_cap : Option ℤ → ℤ
fee_cap none = pos 0
fee_cap (some v) = v

unfoldable pub build_tx : ℕ → Option ℤ → ℕ → Address → Bytes → DynamicFeeTx
unfolding gas_limit
build_tx nonce base_fee gas to payload = record {
  chain_id = chain_id;
  nonce = nonce;
  to = to;
  value = pos 0;
  payload = payload;
  gas_tip_cap = pos 0;
  gas_fee_cap = fee_cap base_fee;
  gas = gas_limit gas;
}

unfoldable pub status_text : ℕ → Bytes
status_text status = if eqb status 1 then utf8 "success" else utf8 "reverted"

-- The body that `routerSign` sends: a map, which is written in the order of its keys.
unfoldable pub sign_body : Bytes → Bytes → Body
sign_body key_id hash =
    doc (object (field (utf8 "hash") (string hash) (field (utf8 "keyId") (string key_id) end)))

module _ {G : Geth} (m : Machine G) where
  unfoldable pub sign_call : Bank → Hash → Call
  unfolding sign_body
  sign_call bank hash = record {
    method = post;
    url = bank.signing_router_url ++ utf8 "/sign";
    content_type = application_json;
    body = sign_body bank.key_id (G.encode_hex hash);
  }

  -- What `routerSign` makes of a response.
  unfoldable pub read_reply : Bank → Response → M m.World (Bytes × Bytes)
  read_reply bank resp = elim (decode_sign_reply resp.body) [
    | none ↦ raise (utf8 "signing-router decode: " ++ m.json_error resp.body)
    | some out ↦
        if eqb resp.status 200
        then (wrap (λ e. utf8 "signing-router bad signature: " ++ e)
              (lift (G.decode_hex out.signature))
            >>= λ sig. pure (sig, out.address))
        else raise (
            utf8 "signing-router "
            ++ bank.signing_router_url
            ++ utf8 " refused: "
            ++ decimal resp.status
            ++ utf8 " "
            ++ out.error)
  ]

  -- A URL that does not parse gives a nil request, whose header is then set.
  unfoldable pub router_sign : Service → Hash → M m.World (Bytes × Bytes)
  router_sign s hash =
      if m.is_url (sign_call s.bank hash).url
      then wrap (λ e. utf8 "signing-router: " ++ e) (call (m.http (sign_call s.bank hash)))
        >>= read_reply s.bank
      else crash

  unfoldable pub estimated_gas : Address → Address → Bytes → M m.World ℕ
  estimated_gas from to payload =
      try (call (m.estimate_gas (record { from = some from; to = to; payload = payload })))
        λ r. pure (gas_or_fallback r)

  -- Steps 2 to 4, from the transaction that step 1 has built.
  unfoldable pub sign_broadcast : Service → Bytes → DynamicFeeTx → M m.World TxResult
  sign_broadcast s op fields = do
    let tx = G.new_tx fields
    reply ← router_sign s (G.signer_hash chain_id tx)
    signed_tx ← wrap (λ e. utf8 "assemble: " ++ e) (lift (G.with_signature chain_id tx reply.0))
    wrap (λ e. utf8 "broadcast: " ++ e) (call (m.send_transaction signed_tx))
    receipt ← wrap (λ e. utf8 "wait mined: " ++ e) (call (m.wait_mined signed_tx))
    pure (record {
      op = op;
      tx_hash = G.hash_hex (G.tx_hash signed_tx);
      status = status_text receipt.status;
      block_number = nil_string receipt.block_number;
      gas_used = decimal receipt.gas_used;
      signed_by = reply.1;
    })

  unfoldable pub build_sign_broadcast : Service → Bytes → Address → Bytes → M m.World TxResult
  build_sign_broadcast s op to payload = do
    let from = s.bank.address
    nonce ← wrap (λ e. utf8 "nonce: " ++ e) (call (m.pending_nonce_at from))
    base_fee ← wrap (λ e. utf8 "head: " ++ e) (call m.header_base_fee)
    gas ← estimated_gas from to payload
    sign_broadcast s op (build_tx nonce base_fee gas to payload)

  unfoldable pub require_role : Service → Role → Bytes → M m.World (Unit {0})
  require_role s want op =
      if role_eq s.bank.role want
      then pure tt
      else raise (
          s.bank.label
          ++ utf8 " ("
          ++ role_text s.bank.role
          ++ utf8 ") may not perform "
          ++ G.quote op
          ++ utf8 " — requires "
          ++ role_text want)

  unfoldable pub mint : Service → Address → ℤ → M m.World TxResult
  mint s to amount = do
    require_role s issuer (utf8 "mint")
    payload ← lift (
        G.pack token_authority_abi (utf8 "mint")
          (address s.dep.deposit_token ∷ address to ∷ big_int amount ∷ []))
    build_sign_broadcast s (utf8 "mint") s.dep.token_authority payload

  -- The policies that an account is added to, with the tag of each transaction.
  unfoldable pub authorize_steps : Service → List (ℕ × Bytes)
  authorize_steps s =
      (s.dep.transfer_policy_id, utf8 "authorize:transfer")
      ∷ (s.dep.sc_mint_policy_id, utf8 "authorize:mint-recipient")
      ∷ []

  -- The loop of `Authorize`: an error drops the results of the transactions already sent.
  unfoldable pub authorize_loop :
      Service → Address → List (ℕ × Bytes) → List TxResult → M m.World (List TxResult)
  authorize_loop s account [] out = pure out
  authorize_loop s account ((policy_id, tag) ∷ steps) out = do
    payload ← lift (
        G.pack auth_registry_abi (utf8 "modifyPolicyWhitelist")
          (uint64 policy_id ∷ address account ∷ bool true ∷ []))
    res ← build_sign_broadcast s tag s.dep.auth_registry payload
    authorize_loop s account steps (out ++ res ∷ [])

  unfoldable pub authorize : Service → Address → M m.World (List TxResult)
  authorize s account = do
    require_role s issuer (utf8 "authorize")
    authorize_loop s account (authorize_steps s) []

  unfoldable pub transfer : Service → Address → ℤ → M m.World TxResult
  transfer s to amount = do
    payload ← lift (G.pack deposit_token_abi (utf8 "transfer") (address to ∷ big_int amount ∷ []))
    build_sign_broadcast s (utf8 "transfer") s.dep.deposit_token payload
