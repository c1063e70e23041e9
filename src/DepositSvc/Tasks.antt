-- ===== src/DepositSvc/Tasks.antt =====
-- internal/depositsvc/service.go, as tasks that other requests may interleave with: the text is that of
-- Service and Writes, and the combinators are those of Base/Task.
pub mod Serve
pub mod Alone
pub mod Served
use mathlib.Core.List.{head?}
use besu_interbank_demo.Base.{
  ℕ, true, List, [], ◌∷◌, ◌++◌, Option, none, some, Bytes, utf8, eqb, if◌then◌else◌,
}
use besu_interbank_demo.Base.Int.{ℤ, pos}
use besu_interbank_demo.Base.Outcome.{Result, ok, err}
use besu_interbank_demo.Base.Task.{
  Task, pure, raise, crash, lift, call, wrap, attempt, deref, try, ◌>>=◌, ◌>>◌,
}
use besu_interbank_demo.Chainx.{
  token_authority_abi, deposit_token_abi, auth_registry_abi, reserve_ledger_abi,
}
use besu_interbank_demo.Config.{Bank, Role, issuer, role_text, role_eq, chain_id}
use besu_interbank_demo.Decimal.{decimal}
use besu_interbank_demo.DepositSvc.Service.{
  Service, TxResult, TokenInfo, type_name, nil_string, low_byte, string_or_empty, or_empty,
}
use besu_interbank_demo.DepositSvc.Writes.{
  decode_sign_reply, gas_or_fallback, build_tx, status_text, sign_call, authorize_steps,
}
use besu_interbank_demo.Platform.Abi.{
  Abi, Address, Hash, Value, address, big_int, uint64, uint8, bool,
}
use besu_interbank_demo.Platform.Geth.{Geth, DynamicFeeTx}
use besu_interbank_demo.Platform.Http.{Response}
use besu_interbank_demo.Platform.Machine.{Machine}

module _ {G : Geth} (m : Machine G) where
  unfoldable pub call_method : Address → Abi → Bytes → List Value → Task m.World (List Value)
  call_method to a method args = do
    payload ← lift (G.pack a method args)
    out ← call (m.call_contract (record { from = none; to = to; payload = payload }))
    lift (G.unpack a method out)

  -- The type switch of `readUint`.
  unfoldable pub uint_value : Value → Task m.World ℤ
  uint_value (big_int v) = pure v
  uint_value (uint8 v) = pure (pos v)
  uint_value v = raise (utf8 "readUint: unexpected type " ++ type_name v)

  unfoldable pub read_uint : Address → Abi → Bytes → List Value → Task m.World ℤ
  read_uint to a method args = do
    vals ← call_method to a method args
    v ← deref (head? vals)
    uint_value v

  unfoldable pub read_string : Address → Abi → Bytes → Task m.World Bytes
  read_string to a method = do
    vals ← call_method to a method []
    v ← deref (head? vals)
    pure (string_or_empty v)

  unfoldable pub balance_of : Service → Address → Task m.World ℤ
  balance_of s account =
      read_uint s.dep.deposit_token deposit_token_abi (utf8 "balanceOf") (address account ∷ [])

  -- The errors of all reads but the first are dropped; `dec.Uint64()` panics on the nil that came with
  -- an error.
  unfoldable pub token_info : Service → Task m.World TokenInfo
  token_info s = do
    name ← read_string s.dep.deposit_token deposit_token_abi (utf8 "name")
    symbol ← attempt (read_string s.dep.deposit_token deposit_token_abi (utf8 "symbol"))
    dec ← attempt (read_uint s.dep.deposit_token deposit_token_abi (utf8 "decimals") [])
    supply ← attempt (read_uint s.dep.deposit_token deposit_token_abi (utf8 "totalSupply") [])
    rl ← attempt (read_uint s.dep.reserve_ledger reserve_ledger_abi (utf8 "totalSupply") [])
    decimals ← deref dec
    pure (record {
      name = name;
      symbol = or_empty symbol;
      decimals = low_byte decimals;
      total_supply = nil_string supply;
      reserve_ledger_supply = nil_string rl;
    })

  -- What `routerSign` makes of a response.
  unfoldable pub read_reply : Bank → Response → Task m.World (Bytes × Bytes)
  read_reply bank resp = elim (decode_sign_reply resp.body) [
    | none ↦ raise (utf8 "signing-router decode: " ++ m.json_error resp.body)
    | some out ↦
        if eqb resp.status 200
        then (wrap (λ e. utf8 "signing-router bad signature: " ++ e)
              (lift (G.decode_hex out.signature))
            >>= λ sig. pure (sig, out.address))
        else raise (
            utf8 "signing-router "
            ++ bank.signing_router_url
            ++ utf8 " refused: "
            ++ decimal resp.status
            ++ utf8 " "
            ++ out.error)
  ]

  -- A URL that does not parse gives a nil request, whose header is then set.
  unfoldable pub router_sign : Service → Hash → Task m.World (Bytes × Bytes)
  router_sign s hash =
      if m.is_url (sign_call m s.bank hash).url
      then wrap (λ e. utf8 "signing-router: " ++ e) (call (m.http (sign_call m s.bank hash)))
        >>= read_reply s.bank
      else crash

  unfoldable pub estimated_gas : Address → Address → Bytes → Task m.World ℕ
  estimated_gas from to payload =
      try (call (m.estimate_gas (record { from = some from; to = to; payload = payload })))
        λ r. pure (gas_or_fallback r)

  -- Steps 2 to 4, from the transaction that step 1 has built.
  unfoldable pub sign_broadcast : Service → Bytes → DynamicFeeTx → Task m.World TxResult
  sign_broadcast s op fields = do
    let tx = G.new_tx fields
    reply ← router_sign s (G.signer_hash chain_id tx)
    signed_tx ← wrap (λ e. utf8 "assemble: " ++ e) (lift (G.with_signature chain_id tx reply.0))
    wrap (λ e. utf8 "broadcast: " ++ e) (call (m.send_transaction signed_tx))
    receipt ← wrap (λ e. utf8 "wait mined: " ++ e) (call (m.wait_mined signed_tx))
    pure (record {
      op = op;
      tx_hash = G.hash_hex (G.tx_hash signed_tx);
      status = status_text receipt.status;
      block_number = nil_string receipt.block_number;
      gas_used = decimal receipt.gas_used;
      signed_by = reply.1;
    })

  unfoldable pub build_sign_broadcast : Service → Bytes → Address → Bytes → Task m.World TxResult
  build_sign_broadcast s op to payload = do
    let from = s.bank.address
    nonce ← wrap (λ e. utf8 "nonce: " ++ e) (call (m.pending_nonce_at from))
    base_fee ← wrap (λ e. utf8 "head: " ++ e) (call m.header_base_fee)
    gas ← estimated_gas from to payload
    sign_broadcast s op (build_tx nonce base_fee gas to payload)

  unfoldable pub require_role : Service → Role → Bytes → Task m.World (Unit {0})
  require_role s want op =
      if role_eq s.bank.role want
      then pure tt
      else raise (
          s.bank.label
          ++ utf8 " ("
          ++ role_text s.bank.role
          ++ utf8 ") may not perform "
          ++ G.quote op
          ++ utf8 " — requires "
          ++ role_text want)

  unfoldable pub mint : Service → Address → ℤ → Task m.World TxResult
  mint s to amount = do
    require_role s issuer (utf8 "mint")
    payload ← lift (
        G.pack token_authority_abi (utf8 "mint")
          (address s.dep.deposit_token ∷ address to ∷ big_int amount ∷ []))
    build_sign_broadcast s (utf8 "mint") s.dep.token_authority payload

  -- The loop of `Authorize`: an error drops the results of the transactions already sent.
  unfoldable pub authorize_loop :
      Service → Address → List (ℕ × Bytes) → List TxResult → Task m.World (List TxResult)
  authorize_loop s account [] out = pure out
  authorize_loop s account ((policy_id, tag) ∷ steps) out = do
    payload ← lift (
        G.pack auth_registry_abi (utf8 "modifyPolicyWhitelist")
          (uint64 policy_id ∷ address account ∷ bool true ∷ []))
    res ← build_sign_broadcast s tag s.dep.auth_registry payload
    authorize_loop s account steps (out ++ res ∷ [])

  unfoldable pub authorize : Service → Address → Task m.World (List TxResult)
  authorize s account = do
    require_role s issuer (utf8 "authorize")
    authorize_loop s account (authorize_steps m s) []

  unfoldable pub transfer : Service → Address → ℤ → Task m.World TxResult
  transfer s to amount = do
    payload ← lift (G.pack deposit_token_abi (utf8 "transfer") (address to ∷ big_int amount ∷ []))
    build_sign_broadcast s (utf8 "transfer") s.dep.deposit_token payload
