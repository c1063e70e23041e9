-- ===== src/Webui/Tx.antt =====
-- internal/webui/server.go: one transaction with its receipt.
use besu_interbank_demo.Base.{
  ℕ, suc, ◌%◌, ◌^◌, Bool, List, [], ◌++◌, Option, none, some, Bytes, utf8, if◌then◌else◌,
}
use besu_interbank_demo.Base.Int.{ℤ, pos, negsuc}
use besu_interbank_demo.Base.Outcome.{M, Result, ok, err, pure, call, try, deref, ◌>>=◌}
use besu_interbank_demo.Config.{chain_id}
use besu_interbank_demo.Config.Deployment.{Deployment}
use besu_interbank_demo.Decimal.{decimal, int_string}
use besu_interbank_demo.DepositSvc.Writes.{status_text}
use besu_interbank_demo.Platform.Abi.{Address, Hash}
use besu_interbank_demo.Platform.Geth.{Geth}
use besu_interbank_demo.Platform.Http.{Request, Response, query_get, write_json, write_err}
use besu_interbank_demo.Platform.Machine.{Machine, Receipt}
use besu_interbank_demo.Webui.Decode.{
  Param, LogEntry, label, decode_input, decode_logs, method_name,
}
use besu_interbank_demo.Webui.Shapes.{TxDetail, tx_detail_json}

-- `v.Uint64()`: the low 64 bits of the magnitude.
unfoldable pub low_uint64 : ℤ → ℕ
low_uint64 (pos n) = n % 2 ^ 64
low_uint64 (negsuc n) = suc n % 2 ^ 64

abbrev price_text : Option ℤ → Bytes
price_text none = []
price_text (some v) = int_string v

abbrev time_text : Result (Option ℕ) → Bytes
time_text (ok (some t)) = decimal t
time_text (ok none) = []
time_text (err _) = []

module _ {G : Geth} (m : Machine G) (dep : Deployment) where
  -- The text of the recovered sender, or "".
  abbrev from_text : Result Address → Bytes
  from_text (err _) = []
  from_text (ok a) = G.address_hex a

  abbrev to_label : Option Address → Bytes
  to_label none = []
  to_label (some a) = label m dep a

  abbrev to_text : Option Address → Bytes
  to_text none = []
  to_text (some a) = G.address_hex a

  unfoldable pub pending_detail : Hash → G.Transaction → Option (List Param) → TxDetail
  pending_detail hash tx decoded =
      let from = from_text (G.sender chain_id tx) in
      record {
        hash = G.hash_hex hash;
        status = utf8 "pending";
        method = method_name G (G.tx_payload tx);
        block = 0;
        block_hash = [];
        timestamp = [];
        from = label m dep (G.hex_to_address from);
        from_addr = from;
        to = to_label (G.tx_to tx);
        to_addr = to_text (G.tx_to tx);
        value = int_string (G.tx_value tx);
        nonce = G.tx_nonce tx;
        tx_type = G.tx_type tx;
        gas_limit = G.tx_gas tx;
        gas_used = 0;
        gas_price = [];
        input = utf8 "0x" ++ G.bytes_to_hex (G.tx_payload tx);
        decoded = decoded;
        logs = none;
      }

  unfoldable pub mined_detail :
      TxDetail → Receipt → ℤ → List LogEntry → Result (Option ℕ) → TxDetail
  unfolding low_uint64
  mined_detail d rcpt number entries time = record d {
    status = status_text rcpt.status;
    block = low_uint64 number;
    block_hash = G.hash_hex rcpt.block_hash;
    timestamp = time_text time;
    gas_used = rcpt.gas_used;
    gas_price = price_text rcpt.effective_gas_price;
    logs = some entries;
  }

  -- A receipt with no block number or with a nil log panics.
  unfoldable pub add_receipt : TxDetail → Result (Option Receipt) → M m.World TxDetail
  add_receipt d (err _) = pure d
  add_receipt d (ok none) = pure d
  add_receipt d (ok (some rcpt)) = deref rcpt.block_number >>= λ number.
      deref (decode_logs m dep rcpt.logs) >>= λ entries.
      try (call (m.header_by_hash rcpt.block_hash))
        λ time. pure (mined_detail d rcpt number entries time)

  unfoldable pub tx_detail : Hash → G.Transaction → Bool → M m.World TxDetail
  tx_detail hash tx pending = deref (decode_input m dep (G.tx_payload tx)) >>= λ decoded.
      if pending
      then pure (pending_detail hash tx decoded)
      else try (call (m.transaction_receipt hash)) (add_receipt (pending_detail hash tx decoded))

  unfoldable pub reply_tx : Hash → Result (G.Transaction × Bool) → M m.World Response
  reply_tx hash (err e) = pure (write_err 404 (utf8 "tx not found"))
  reply_tx hash (ok (tx, pending)) =
      tx_detail hash tx pending >>= λ d. pure (write_json 200 (tx_detail_json d))

  unfoldable pub handle_tx : Request → M m.World Response
  handle_tx r =
      let hash = G.hex_to_hash (query_get (utf8 "hash") r.query) in
      try (call (m.transaction_by_hash hash)) (reply_tx hash)
