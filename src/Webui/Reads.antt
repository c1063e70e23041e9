-- ===== src/Webui/Reads.antt =====
-- internal/webui/server.go: what a request to the web UI can change.
use besu_interbank_demo.Base.{
  ℕ, zero, suc, ◌+◌, Bool, List, [], ◌∷◌, ◌++◌, Option, none, some, Bytes, utf8,
}
use besu_interbank_demo.Base.Keeps.{
  Keeps, KeepsExt, call-Keeps, deref-Keeps, attempt-Keeps, try-Keeps, bind-Keeps, if-Keeps,
}
use besu_interbank_demo.Base.Outcome.{M, Result, ok, err, pure}
use besu_interbank_demo.Config.{bank_a, bank_b}
use besu_interbank_demo.Config.Deployment.{Deployment}
use besu_interbank_demo.Platform.Abi.{Abi, Address, Value}
use besu_interbank_demo.Platform.Geth.{Geth}
use besu_interbank_demo.Platform.Http.{Request, Response, Routed, found, wrong_method, no_route}
use besu_interbank_demo.Platform.Machine.{Machine, CallMsg, Block, Receipt}
use besu_interbank_demo.Webui.Shapes.{ExTx, ExBlock, TxDetail}
use besu_interbank_demo.Webui.Explorer.{
  decode_tx, decode_txs, after_block, blocks_loop, reply_blocks, handle_blocks, not_past_genesis,
}
use besu_interbank_demo.Webui.Server.{
  Server, Endpoint, get_state, get_blocks, get_tx, post_authorize, post_mint, post_transfer,
  contract_value, read_uint, read_str, balance_of, handle_state, forward, proxy, handle, dispatch,
  handler,
}
use besu_interbank_demo.Webui.Tx.{add_receipt, tx_detail, reply_tx, handle_tx}

module _ {G : Geth} (m : Machine G) (P : m.World → Type 0) where
  -- The reads of the explorer keep `P`.
  pub record ExplorerReadsKeep : Type 0 where
    pub contract : (msg : CallMsg) → KeepsExt P (m.call_contract msg)
    pub head : KeepsExt P m.block_number
    pub block : (n : ℕ) → KeepsExt P (m.block_by_number n)
    pub transaction : (hash : Bytes) → KeepsExt P (m.transaction_by_hash hash)
    pub receipt : (hash : Bytes) → KeepsExt P (m.transaction_receipt hash)
    pub header : (hash : Bytes) → KeepsExt P (m.header_by_hash hash)

  -- The forwarding of a request's body to a URL keeps `P`.
  abbrev pub ForwardKeeps : Bytes → Bytes → Type 0
  ForwardKeeps base path = (r : Request) → KeepsExt P (m.http (forward m base path r))

  module _ (reads : ExplorerReadsKeep) where
    pure-Keeps : {A : Type 0} (a : A) → Keeps P (pure {W = m.World} a)
    pure-Keeps a w h = h

    contract_value-Keeps :
        (to : Address) (a : Abi) (method : Bytes) (packed : Result Bytes)
        → Keeps P (contract_value m to a method packed)
    unfolding contract_value
    contract_value-Keeps to a method (err e) = λ w h. h
    contract_value-Keeps to a method (ok payload) =
        try-Keeps P _ _ (call-Keeps P _ (reads.contract _)) (λ out w h. h)

    read_uint-Keeps :
        (to : Address) (a : Abi) (method : Bytes) (args : List Value)
        → Keeps P (read_uint m to a method args)
    unfolding read_uint
    read_uint-Keeps to a method args =
        bind-Keeps P _ _ (contract_value-Keeps to a method _) (λ v w h. h)

    read_str-Keeps : (to : Address) (method : Bytes) → Keeps P (read_str m to method)
    unfolding read_str
    read_str-Keeps to method = bind-Keeps P _ _ (contract_value-Keeps to _ method _) (λ v w h. h)

    balance_of-Keeps : (s : Server) (a : Address) → Keeps P (balance_of m s a)
    unfolding balance_of
    balance_of-Keeps s a = read_uint-Keeps _ _ _ _

    handle_state-Keeps : (s : Server) → Keeps P (handle_state m s)
    unfolding handle_state
    handle_state-Keeps s = bind-Keeps P _ _ (read_str-Keeps _ _) λ name.
        bind-Keeps P _ _ (read_str-Keeps _ _) λ symbol.
          bind-Keeps P _ _ (read_uint-Keeps _ _ _ _) λ supply.
            bind-Keeps P _ _ (read_uint-Keeps _ _ _ _) λ rl.
              bind-Keeps P _ _ (balance_of-Keeps s _) λ b.
                bind-Keeps P _ _ (balance_of-Keeps s _) λ shop.
                  bind-Keeps P _ _ (attempt-Keeps P _ (call-Keeps P _ reads.head)) λ head w h. h

    module _ (dep : Deployment) where
      decode_txs-Keeps :
          (block : ℕ) (txs : List G.Transaction) (out : List ExTx)
          → Keeps P (decode_txs m dep block txs out)
      unfolding decode_txs decode_tx
      decode_txs-Keeps block [] out = λ w h. h
      decode_txs-Keeps block (tx ∷ txs) out =
          bind-Keeps P _ _ (try-Keeps P _ _ (call-Keeps P _ (reads.receipt _)) (λ rcpt w h. h))
            (λ t. decode_txs-Keeps block txs (out ++ t ∷ []))

      after_block-Keeps :
          {A : Type 0} (r : Result (Block G)) (visit : Block G → M m.World A) (stop : M m.World A)
          → ((blk : Block G) → Keeps P (visit blk))
          → Keeps P stop
          → Keeps P (after_block m dep r visit stop)
      unfolding after_block
      after_block-Keeps (ok blk) visit stop kv ks = kv blk
      after_block-Keeps (err e) visit stop kv ks = ks

      blocks_loop-Keeps :
          (rounds i head : ℕ) (out : List ExBlock) → Keeps P (blocks_loop m dep rounds i head out)
      unfolding blocks_loop
      blocks_loop-Keeps zero i head out = λ w h. h
      blocks_loop-Keeps (suc rounds) i head out =
          if-Keeps P (not_past_genesis head i) _ _
            (try-Keeps P _ _ (call-Keeps P _ (reads.block _)) λ r.
              after_block-Keeps r _ _
                (λ blk.
                  bind-Keeps P _ _ (decode_txs-Keeps _ _ _)
                    λ txs. blocks_loop-Keeps rounds (i + 1) head _)
                (λ w h. h))
            (λ w h. h)

      reply_blocks-Keeps : (n : ℕ) (r : Result ℕ) → Keeps P (reply_blocks m dep n r)
      unfolding reply_blocks
      reply_blocks-Keeps n (err e) = λ w h. h
      reply_blocks-Keeps n (ok head) = bind-Keeps P _ _ (blocks_loop-Keeps n 0 head []) λ out w h. h

      handle_blocks-Keeps : (r : Request) → Keeps P (handle_blocks m dep r)
      unfolding handle_blocks
      handle_blocks-Keeps r = try-Keeps P _ _ (call-Keeps P _ reads.head) (reply_blocks-Keeps _)

      add_receipt-Keeps :
          (d : TxDetail) (r : Result (Option Receipt)) → Keeps P (add_receipt m dep d r)
      unfolding add_receipt
      add_receipt-Keeps d (err e) = λ w h. h
      add_receipt-Keeps d (ok none) = λ w h. h
      add_receipt-Keeps d (ok (some rcpt)) = bind-Keeps P _ _ (deref-Keeps P _) λ number.
          bind-Keeps P _ _ (deref-Keeps P _)
            λ entries. try-Keeps P _ _ (call-Keeps P _ (reads.header _)) λ time w h. h

      tx_detail-Keeps :
          (hash : Bytes) (tx : G.Transaction) (pending : Bool)
          → Keeps P (tx_detail m dep hash tx pending)
      unfolding tx_detail
      tx_detail-Keeps hash tx pending = bind-Keeps P _ _ (deref-Keeps P _) λ decoded.
          if-Keeps P pending _ _ (λ w h. h)
            (try-Keeps P _ _ (call-Keeps P _ (reads.receipt hash)) (add_receipt-Keeps _))

      reply_tx-Keeps :
          (hash : Bytes) (r : Result (G.Transaction × Bool)) → Keeps P (reply_tx m dep hash r)
      unfolding reply_tx
      reply_tx-Keeps hash (err e) = λ w h. h
      reply_tx-Keeps hash (ok (tx, pending)) =
          bind-Keeps P _ _ (tx_detail-Keeps hash tx pending) λ d w h. h

      handle_tx-Keeps : (r : Request) → Keeps P (handle_tx m dep r)
      unfolding handle_tx
      handle_tx-Keeps r = try-Keeps P _ _ (call-Keeps P _ (reads.transaction _)) (reply_tx-Keeps _)

    proxy-Keeps :
        (base path : Bytes) → ForwardKeeps base path → (r : Request) → Keeps P (proxy m base path r)
    unfolding proxy
    proxy-Keeps base path kept r =
        if-Keeps P (m.is_url (base ++ path)) _ _
          (try-Keeps P _ _ (call-Keeps P _ (kept r)) λ resp w h. h) (λ w h. h)

    dispatch-Keeps :
        (files : Request → Response) (s : Server)
        → ForwardKeeps (bank_a m).deposit_svc_url (utf8 "/authorize")
        → ForwardKeeps (bank_a m).deposit_svc_url (utf8 "/mint")
        → ForwardKeeps (bank_b m).deposit_svc_url (utf8 "/transfer")
        → (to : Routed Endpoint) (r : Request) → Keeps P (dispatch m files to s r)
    unfolding dispatch handle
    dispatch-Keeps files s auth mint transfer (found get_state) r = handle_state-Keeps s
    dispatch-Keeps files s auth mint transfer (found get_blocks) r = handle_blocks-Keeps s.dep r
    dispatch-Keeps files s auth mint transfer (found get_tx) r = handle_tx-Keeps s.dep r
    dispatch-Keeps files s auth mint transfer (found post_authorize) r = proxy-Keeps _ _ auth r
    dispatch-Keeps files s auth mint transfer (found post_mint) r = proxy-Keeps _ _ mint r
    dispatch-Keeps files s auth mint transfer (found post_transfer) r = proxy-Keeps _ _ transfer r
    dispatch-Keeps files s auth mint transfer wrong_method r = λ w h. h
    dispatch-Keeps files s auth mint transfer no_route r = λ w h. h

    -- A request to the web UI does nothing but read the chain and forward its body, to bank A's
    -- /authorize and /mint and to bank B's /transfer: a property of the world that these reads and these
    -- posts keep is kept by the handler, for every request.
    pub web_handler-Keeps :
        (files : Request → Response) (s : Server)
        → ForwardKeeps (bank_a m).deposit_svc_url (utf8 "/authorize")
        → ForwardKeeps (bank_a m).deposit_svc_url (utf8 "/mint")
        → ForwardKeeps (bank_b m).deposit_svc_url (utf8 "/transfer")
        → (r : Request) → Keeps P (handler m files s r)
    unfolding handler
    web_handler-Keeps files s auth mint transfer r = dispatch-Keeps files s auth mint transfer _ r
