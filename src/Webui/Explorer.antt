-- ===== src/Webui/Explorer.antt =====
-- internal/webui/server.go: the block explorer's two requests.
use besu_interbank_demo.Base.{
  ℕ, zero, suc, ◌+◌, ◌-◌, ◌^◌, Bool, true, ◌&&◌, List, [], ◌∷◌, ◌++◌, map, Option, none, some,
  Bytes, utf8, length, ltb, leb, ◌==◌, if◌then◌else◌,
}
use besu_interbank_demo.Base.Int.{ℤ, pos}
use besu_interbank_demo.Base.Outcome.{M, Result, ok, err, pure, call, try, ◌>>=◌}
use besu_interbank_demo.Config.{chain_id}
use besu_interbank_demo.Config.Deployment.{Deployment}
use besu_interbank_demo.Decimal.{int_string, atoi}
use besu_interbank_demo.DepositSvc.Writes.{status_text}
use besu_interbank_demo.Platform.Abi.{Address}
use besu_interbank_demo.Platform.Geth.{Geth}
use besu_interbank_demo.Platform.Http.{Request, Response, query_get, write_json, write_err}
use besu_interbank_demo.Platform.Json.{slice}
use besu_interbank_demo.Platform.Machine.{Machine, Block, Receipt}
use besu_interbank_demo.Webui.Decode.{label, method_name}
use besu_interbank_demo.Webui.Shapes.{ExTx, ExBlock, ex_block_json}

unfoldable pub receipt_status : Result (Option Receipt) → Bytes
receipt_status (err _) = utf8 "pending"
receipt_status (ok none) = utf8 "pending"
receipt_status (ok (some rcpt)) = status_text rcpt.status

-- The `n` of a query: 12, unless the query gives a number from 1 to 50.
abbrev pub in_range : ℤ × Bool → ℕ
in_range (pos v, true) = if ltb 0 v && leb v 50 then v else 12
in_range (_, _) = 12

unfoldable pub block_count : Bytes → ℕ
block_count q = if q == [] then 12 else in_range (atoi q)

-- `int64(head)-int64(i) >= 0` for a uint64 `head` and a small `i`.
abbrev pub not_past_genesis : ℕ → ℕ → Bool
not_past_genesis head i = ltb head (2 ^ 63) && leb i head

module _ {G : Geth} (m : Machine G) (dep : Deployment) where
  abbrev label_or_empty : Option Address → Bytes
  label_or_empty none = []
  label_or_empty (some a) = label m dep a

  abbrev sender_label : Result Address → Bytes
  sender_label (err _) = []
  sender_label (ok a) = label m dep a

  unfoldable pub ex_tx : ℕ → G.Transaction → Result (Option Receipt) → ExTx
  ex_tx block tx rcpt = record {
    hash = G.hash_hex (G.tx_hash tx);
    from = sender_label (G.sender chain_id tx);
    to = label_or_empty (G.tx_to tx);
    method = method_name G (G.tx_payload tx);
    status = receipt_status rcpt;
    block = block;
    value = int_string (G.tx_value tx);
  }

  unfoldable pub decode_tx : ℕ → G.Transaction → M m.World ExTx
  decode_tx block tx =
      try (call (m.transaction_receipt (G.tx_hash tx))) λ rcpt. pure (ex_tx block tx rcpt)

  unfoldable pub decode_txs : ℕ → List G.Transaction → List ExTx → M m.World (List ExTx)
  decode_txs block [] out = pure out
  decode_txs block (tx ∷ txs) out = decode_tx block tx >>= λ t. decode_txs block txs (out ++ t ∷ [])

  unfoldable pub ex_block : Block G → List ExTx → ExBlock
  ex_block blk txs = record {
    number = blk.number;
    hash = G.hash_hex blk.hash;
    time = blk.time;
    tx_count = length blk.transactions;
    txs = txs;
  }

  -- `break` on an error.
  unfoldable pub after_block :
      {A : Type 0} → Result (Block G) → (Block G → M m.World A) → M m.World A → M m.World A
  after_block (err e) visit stop = stop
  after_block (ok blk) visit stop = visit blk

  -- The loop of `handleBlocks`: `rounds` is `n - i`.
  unfoldable pub blocks_loop : ℕ → ℕ → ℕ → List ExBlock → M m.World (List ExBlock)
  blocks_loop zero i head out = pure out
  blocks_loop (suc rounds) i head out =
      if not_past_genesis head i
      then try (call (m.block_by_number (head - i))) (λ r.
        after_block r
          (λ blk. decode_txs blk.number blk.transactions [] >>= λ txs.
            blocks_loop rounds (i + 1) head (out ++ ex_block blk txs ∷ []))
          (pure out))
      else pure out

  unfoldable pub reply_blocks : ℕ → Result ℕ → M m.World Response
  reply_blocks n (err e) = pure (write_err 502 e)
  reply_blocks n (ok head) =
      blocks_loop n 0 head [] >>= λ out. pure (write_json 200 (slice (map ex_block_json out)))

  unfoldable pub handle_blocks : Request → M m.World Response
  handle_blocks r =
      try (call m.block_number) (reply_blocks (block_count (query_get (utf8 "n") r.query)))
