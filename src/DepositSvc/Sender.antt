-- ===== src/DepositSvc/Sender.antt =====
-- internal/depositsvc with internal/signrouter: who a broadcast transaction is from.
use besu_interbank_demo.Base.{
  ℕ, Option-cases, true, List, ◌≡◌, ◌∙◌, ap, sym, Bytes, elem, length, arith, inl, inr,
}
use besu_interbank_demo.Base.Dict.{lookup}
use besu_interbank_demo.Base.Outcome.{ok, done, Result-cases}
use besu_interbank_demo.Config.{chain_id}
use besu_interbank_demo.DepositSvc.Broadcast.{IsBroadcast, build_sign_broadcast_iff}
use besu_interbank_demo.DepositSvc.Service.{Service, TxResult}
use besu_interbank_demo.DepositSvc.Signing.{IsWired, router_sign_signs}
use besu_interbank_demo.DepositSvc.Writes.{build_tx, build_sign_broadcast}
use besu_interbank_demo.Platform.Abi.{Address, Hash}
use besu_interbank_demo.Platform.Geth.{Geth}
use besu_interbank_demo.Platform.Machine.{Machine}
use besu_interbank_demo.SignRouter.Keystore.{Key, load_key, keystore}
use besu_interbank_demo.SignRouter.Provision.{new-IsExact}
use besu_interbank_demo.SignRouter.Server.{Server, new}
use besu_interbank_demo.SignRouter.Sign.{DecodesHex}

-- What go-ethereum documents of hex text, signing hashes, signatures and the sender that is recovered
-- from them.
pub record SigningLaws (G : Geth) : Type 0 where
  pub hex_length : DecodesHex G
  pub hex_round_trip : (b : Bytes) → G.decode_hex (G.encode_hex b) ≡ ok b
  pub hash_size : (c : ℕ) (tx : G.Transaction) → length (G.signer_hash c tx) ≡ 32
  pub signs :
      (hash : Hash) (k : G.PrivateKey) → length hash ≡ 32 → (sig : Bytes) × (G.sign hash k ≡ ok sig)
  pub recovers :
      (c : ℕ) (tx tx' : G.Transaction) (k : G.PrivateKey) (sig : Bytes)
      → G.sign (G.signer_hash c tx) k ≡ ok sig
      → G.with_signature c tx sig ≡ ok tx'
      → G.sender c tx' ≡ ok (G.pubkey_to_address k)

load_key-address :
    (G : Geth) (id : Bytes) {k : Key G}
    → load_key G id ≡ ok k
    → k.address ≡ G.pubkey_to_address k.priv
unfolding load_key
load_key-address G id {k} h = elim (Option-cases (lookup id keystore)) [
  | inl missing ↦ absurd (ground arith)
  | inr (hex, known) ↦ elim (Result-cases (G.hex_to_ecdsa hex)) [
    | inr (e, bad) ↦ absurd (ground arith)
    | inl (priv, good) ↦ ground arith
  ]
]

-- The sender of a broadcast that the pipeline has done, and the world that the router's call leaves.
pub IsBroadcast-sender :
    {G : Geth} (m : Machine G) (s : Service)
    → SigningLaws G
    → (label : Bytes) (ids : List Bytes) {router : Server G} → new G label ids ≡ ok router
    → IsWired m s router
    → elem s.bank.key_id ids ≡ true
    → (op : Bytes) (to : Address) (payload : Bytes) (w w' : m.World) {res : TxResult}
      (g : IsBroadcast m s op to payload w w' res)
    → (k : Key G) × (load_key G s.bank.key_id ≡ ok k)
      × (G.sender chain_id g.sending.signed_tx ≡ ok k.address)
      × (res.signed_by ≡ G.address_hex k.address)
      × (g.sending.at_send ≡ g.at_sign)
IsBroadcast-sender {G} m s laws label ids {router} made wired listed op to payload w w' {res} g =
    let (k, of_id, held) = (new-IsExact G label ids {s = router} made).1 s.bank.key_id listed in
    let unsigned = G.new_tx (build_tx g.nonce g.base_fee g.gas to payload) in
    let hash = G.signer_hash chain_id unsigned in
    let size = laws.hash_size chain_id unsigned in
    let (sig, signed) = laws.signs hash k.priv size in
    let replied =
      router_sign_signs m s laws.hex_length laws.hex_round_trip label ids {router = router} made
        wired listed hash g.at_sign {k = k} {sig = sig} size of_id signed in
    let same : g.sending.reply ≡ (sig, G.address_hex k.address) =
      ground (arith, replied, g.sending.signed) in
    let unmoved : g.sending.at_send ≡ g.at_sign = ground (arith, replied, g.sending.signed) in
    (
      k,
      of_id,
      laws.recovers chain_id unsigned g.sending.signed_tx k.priv sig signed (
            ap (λ (r : Bytes × Bytes). G.with_signature chain_id unsigned r.0) (sym same)
            ∙ g.sending.assembled)
          ∙ ap ok (sym (load_key-address G s.bank.key_id {k = k} of_id)),
      ap (λ (t : TxResult). t.signed_by) g.sending.result ∙ ap (λ (r : Bytes × Bytes). r.1) same,
      unmoved,
    )

-- Given the documented laws of hex text, signing hashes and recovered senders: where the pipeline of a
-- service returns a result, and its router URL reaches a router that was provisioned with its KeyID, the
-- transaction broadcast is from the address of the keystore's key of that KeyID, and the result names
-- that address as the signer.
pub build_sign_broadcast-sender :
    {G : Geth} (m : Machine G) (s : Service)
    → SigningLaws G
    → (label : Bytes) (ids : List Bytes) {router : Server G} → new G label ids ≡ ok router
    → IsWired m s router
    → elem s.bank.key_id ids ≡ true
    → (op : Bytes) (to : Address) (payload : Bytes) (w w' : m.World) {res : TxResult}
    → build_sign_broadcast m s op to payload w ≡ (done res, w')
    → (g : IsBroadcast m s op to payload w w' res) × (k : Key G) × (load_key G s.bank.key_id ≡ ok k)
      × (G.sender chain_id g.sending.signed_tx ≡ ok k.address)
      × (res.signed_by ≡ G.address_hex k.address)
build_sign_broadcast-sender {G} m s laws label ids {router} made wired listed op to payload w w'
      {res} h =
    let g = (build_sign_broadcast_iff m s op to payload w w' res).0 h in
    let (k, of_id, sender, signer, _) =
      IsBroadcast-sender m s laws label ids {router = router} made wired listed op to payload w w'
        g in
    (g, k, of_id, sender, signer)
