-- ===== src/DepositSvc/Broadcast.antt =====
-- internal/depositsvc: what has happened when the pipeline returns a result.
use besu_interbank_demo.Base.{ℕ, ◌*◌, ◌<◌, ◌^◌, Option, ◌≡◌, ◌↔◌, ◌∙◌, ap, sym, refl, Bytes, arith}
use besu_interbank_demo.Base.Int.{ℤ}
use besu_interbank_demo.Base.Outcome.{ok, err, done}
use besu_interbank_demo.Base.Runs.{
  bind-done, bind-eq-done, bind_lift-eq-done, bind_call-eq-done, bind_call-pure-eq-done, lift-ok,
  call-ok, wrap-done,
}
use besu_interbank_demo.Config.{chain_id}
use besu_interbank_demo.Decimal.{decimal}
use besu_interbank_demo.DepositSvc.Service.{nil_string, Service, TxResult}
use besu_interbank_demo.DepositSvc.Writes.{
  gas_limit, gas_or_fallback, build_tx, status_text, router_sign, estimated_gas, sign_broadcast,
  build_sign_broadcast,
}
use besu_interbank_demo.Platform.Abi.{Address}
use besu_interbank_demo.Platform.Geth.{Geth, DynamicFeeTx}
use besu_interbank_demo.Platform.Machine.{Machine, Receipt}

-- The gas limit is twice the estimate for every estimate below 2 ^ 63, and twice 800,000 where the
-- estimate failed.
pub build_tx_gas :
    (nonce : ℕ) (base_fee : Option ℤ) (to : Address) (payload : Bytes)
    → ((gas : ℕ)
        → gas < 2 ^ 63
        → (build_tx nonce base_fee (gas_or_fallback (ok gas)) to payload).gas ≡ 2 * gas)
      × ((e : Bytes)
          → (build_tx nonce base_fee (gas_or_fallback (err e)) to payload).gas ≡ 1_600_000)
unfolding build_tx gas_limit gas_or_fallback
build_tx_gas nonce base_fee to payload = (λ gas h. omega arith, λ e. refl)

module _ {G : Geth} (m : Machine G) (s : Service) where
  -- The result of a mined transaction.
  abbrev pub tx_result : Bytes → G.Transaction → Bytes → Receipt → TxResult
  tx_result op tx signer receipt = record {
    op = op;
    tx_hash = G.hash_hex (G.tx_hash tx);
    status = status_text receipt.status;
    block_number = nil_string receipt.block_number;
    gas_used = decimal receipt.gas_used;
    signed_by = signer;
  }

  -- The signed half: the router's reply for the transaction's signing hash, the transaction with that
  -- signature, its broadcast and its receipt, in this order.
  pub record IsSent (op : Bytes) (fields : DynamicFeeTx) (w w' : m.World) (res : TxResult)
      : Type 0 where
    pub reply : Bytes × Bytes
    pub signed_tx : G.Transaction
    pub receipt : Receipt
    pub at_send : m.World
    pub at_mine : m.World
    pub signed :
        router_sign m s (G.signer_hash chain_id (G.new_tx fields)) w ≡ (done reply, at_send)
    pub assembled : G.with_signature chain_id (G.new_tx fields) reply.0 ≡ ok signed_tx
    pub sent : m.send_transaction signed_tx at_send ≡ (ok tt, at_mine)
    pub mined : m.wait_mined signed_tx at_mine ≡ (ok receipt, w')
    pub result : res ≡ tx_result op signed_tx reply.1 receipt

  sign_broadcast-IsSent :
      (op : Bytes) (fields : DynamicFeeTx) (w w' : m.World) {res : TxResult}
      → sign_broadcast m s op fields w ≡ (done res, w')
      → IsSent op fields w w' res
  unfolding sign_broadcast
  sign_broadcast-IsSent op fields w w' h =
      let (reply, w1, signed, h1) = bind-eq-done _ _ w w' h in
      let (tx, assembled, h2) = bind_lift-eq-done _ _ _ w1 w' h1 in
      let (_, w2, sent, h3) = bind_call-eq-done _ _ _ w1 w' h2 in
      let (receipt, mined, result) = bind_call-pure-eq-done _ _ _ w2 w' h3 in
      record {
        reply = reply;
        signed_tx = tx;
        receipt = receipt;
        at_send = w1;
        at_mine = w2;
        signed = signed;
        assembled = assembled;
        sent = sent;
        mined = mined;
        result = result;
      }

  sign_broadcast_of_IsSent :
      (op : Bytes) (fields : DynamicFeeTx) (w w' : m.World) {res : TxResult}
      → IsSent op fields w w' res
      → sign_broadcast m s op fields w ≡ (done res, w')
  unfolding sign_broadcast
  sign_broadcast_of_IsSent op fields w w' g =
      bind-done _ _ w g.at_send g.signed
      ∙ bind-done _ _ g.at_send g.at_send
          (wrap-done _ _ g.at_send g.at_send (lift-ok g.at_send g.assembled))
      ∙ bind-done _ _ g.at_send g.at_mine
          (wrap-done _ _ g.at_send g.at_mine (call-ok _ g.at_send g.at_mine g.sent))
      ∙ bind-done _ _ g.at_mine w' (wrap-done _ _ g.at_mine w' (call-ok _ g.at_mine w' g.mined))
      ∙ ap (λ r. (done r, w')) (sym g.result)

  -- The whole pipeline: the reads that fill in the transaction, and then the signed half.
  pub record IsBroadcast (op : Bytes) (to : Address) (payload : Bytes) (w w' : m.World)
      (res : TxResult) : Type 0 where
    pub nonce : ℕ
    pub base_fee : Option ℤ
    pub gas : ℕ
    pub at_head : m.World
    pub at_gas : m.World
    pub at_sign : m.World
    pub read_nonce : m.pending_nonce_at s.bank.address w ≡ (ok nonce, at_head)
    pub read_head : m.header_base_fee at_head ≡ (ok base_fee, at_gas)
    pub read_gas : estimated_gas m s.bank.address to payload at_gas ≡ (done gas, at_sign)
    pub sending : IsSent op (build_tx nonce base_fee gas to payload) at_sign w' res

  build_sign_broadcast-IsBroadcast :
      (op : Bytes) (to : Address) (payload : Bytes) (w w' : m.World) {res : TxResult}
      → build_sign_broadcast m s op to payload w ≡ (done res, w')
      → IsBroadcast op to payload w w' res
  unfolding build_sign_broadcast
  build_sign_broadcast-IsBroadcast op to payload w w' h =
      let (nonce, w1, read_nonce, h1) = bind_call-eq-done _ _ _ w w' h in
      let (base_fee, w2, read_head, h2) = bind_call-eq-done _ _ _ w1 w' h1 in
      let (gas, w3, read_gas, h3) = bind-eq-done _ _ w2 w' h2 in
      record {
        nonce = nonce;
        base_fee = base_fee;
        gas = gas;
        at_head = w1;
        at_gas = w2;
        at_sign = w3;
        read_nonce = read_nonce;
        read_head = read_head;
        read_gas = read_gas;
        sending = sign_broadcast-IsSent op (build_tx nonce base_fee gas to payload) w3 w' h3;
      }

  build_sign_broadcast_of_IsBroadcast :
      (op : Bytes) (to : Address) (payload : Bytes) (w w' : m.World) {res : TxResult}
      → IsBroadcast op to payload w w' res
      → build_sign_broadcast m s op to payload w ≡ (done res, w')
  unfolding build_sign_broadcast
  build_sign_broadcast_of_IsBroadcast op to payload w w' g =
      bind-done _ _ w g.at_head (wrap-done _ _ w g.at_head (call-ok _ w g.at_head g.read_nonce))
      ∙ bind-done _ _ g.at_head g.at_gas
          (wrap-done _ _ g.at_head g.at_gas (call-ok _ g.at_head g.at_gas g.read_head))
      ∙ bind-done _ _ g.at_gas g.at_sign g.read_gas
      ∙ sign_broadcast_of_IsSent op _ g.at_sign w' g.sending

  -- The pipeline returns a result exactly when nonce, base fee and gas were read, the router signed the
  -- hash of the transaction built from them, and that transaction was assembled, broadcast and mined;
  -- the result is that of its receipt.
  pub build_sign_broadcast_iff :
      (op : Bytes) (to : Address) (payload : Bytes) (w w' : m.World) (res : TxResult)
      → (build_sign_broadcast m s op to payload w ≡ (done res, w'))
        ↔ IsBroadcast op to payload w w' res
  build_sign_broadcast_iff op to payload w w' res = (
    build_sign_broadcast-IsBroadcast op to payload w w',
    build_sign_broadcast_of_IsBroadcast op to payload w w',
  )
