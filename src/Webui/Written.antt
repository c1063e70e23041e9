-- ===== src/Webui/Written.antt =====
-- internal/webui with internal/depositsvc: how the explorer shows the transaction that a write has sent.
use besu_interbank_demo.Base.{
  Bool, true, false, Option, none, refl, ℕ, ◌<◌, ◌^◌, some, ◌≡◌, ◌∙◌, ap, Bytes, utf8,
}
use besu_interbank_demo.Base.Int.{pos}
use besu_interbank_demo.Base.Outcome.{Result, ok, err, done, pure, deref, ◌>>=◌}
use besu_interbank_demo.Base.Runs.{bind-done, try-call}
use besu_interbank_demo.Config.Deployment.{Deployment}
use besu_interbank_demo.DepositSvc.Broadcast.{IsBroadcast}
use besu_interbank_demo.DepositSvc.Effects.{mint_iff, transfer_iff}
use besu_interbank_demo.DepositSvc.Service.{Service, TxResult}
use besu_interbank_demo.DepositSvc.Writes.{mint, transfer, build_tx}
use besu_interbank_demo.Platform.Abi.{Address, Hash}
use besu_interbank_demo.Platform.AbiLaws.{AbiLaws}
use besu_interbank_demo.Platform.Geth.{Geth, DynamicFeeTx}
use besu_interbank_demo.Platform.Machine.{Machine, Receipt}
use besu_interbank_demo.Platform.Http.{Request, query_get, write_json}
use besu_interbank_demo.Webui.Shapes.{TxDetail, tx_detail_json}
use besu_interbank_demo.Webui.Tx.{
  add_receipt, mined_detail, pending_detail, tx_detail, reply_tx, handle_tx,
}
use besu_interbank_demo.Webui.Calls.{
  InRange, packed, WriteCall, mint_call, transfer_call, shown, shown_method, explorer_shows_writes,
}
use besu_interbank_demo.Webui.Answers.{decode_logs-some, IsMined, ReceiptsAreMined}
use besu_interbank_demo.Webui.Decode.{decode_input, method_name}
use besu_interbank_demo.Webui.Selectors.{DistinctSelectors}

-- A signed transaction has the data of what was signed.
abbrev pub KeepsPayload : Geth → Type 0
KeepsPayload G =
    (c : ℕ) (fields : DynamicFeeTx) (sig : Bytes) (tx : G.Transaction)
    → G.with_signature c (G.new_tx fields) sig ≡ ok tx
    → G.tx_payload tx ≡ fields.payload

module _ {G : Geth} (m : Machine G) (dep : Deployment) where
  -- The explorer shows this transaction as this call.
  abbrev pub IsShownAs : WriteCall → G.Transaction → Type 0
  IsShownAs call tx =
      (decode_input m dep (G.tx_payload tx) ≡ some (some (shown m dep call)))
      × (method_name G (G.tx_payload tx) ≡ shown_method m dep call)

  -- A detail that shows the call.
  abbrev pub Shows : WriteCall → TxDetail → Type 0
  Shows call detail =
      (detail.method ≡ shown_method m dep call) × (detail.decoded ≡ some (shown m dep call))

  receipt-Shows :
      (call : WriteCall) (detail : TxDetail) (r : Result (Option Receipt)) (w : m.World)
      → IsMined m dep r
      → Shows call detail
      → (detail' : TxDetail) × (w' : m.World) × (add_receipt m dep detail r w ≡ (done detail', w'))
        × Shows call detail'
  unfolding add_receipt deref ◌>>=◌ pure mined_detail
  receipt-Shows call detail (err e) w mined shows = (detail, w, refl, shows)
  receipt-Shows call detail (ok none) w mined shows = (detail, w, refl, shows)
  receipt-Shows call detail (ok (some rcpt)) w (number, has, whole) shows =
      let (entries, decoded) = decode_logs-some m dep rcpt.logs whole in
      (
        mined_detail m dep detail rcpt number entries (m.header_by_hash rcpt.block_hash w).0,
        (m.header_by_hash rcpt.block_hash w).1,
        rw (has, decoded) (try-call _ _ w),
        shows,
      )

  detail-Shows :
      (call : WriteCall) (hash : Hash) (tx : G.Transaction) (pending : Bool) (w : m.World)
      → ReceiptsAreMined m dep
      → IsShownAs call tx
      → (detail : TxDetail) × (w' : m.World) × (tx_detail m dep hash tx pending w
          ≡ (done detail, w'))
        × Shows call detail
  unfolding tx_detail deref ◌>>=◌ pure pending_detail
  detail-Shows call hash tx true w mined (params, name) = (
    pending_detail m dep hash tx (some (shown m dep call)),
    w,
    rw (params, tx_detail) refl,
    (name, refl),
  )
  detail-Shows call hash tx false w mined (params, name) =
      let r = m.transaction_receipt hash w in
      let (detail, w', ran, shows) =
        receipt-Shows call (pending_detail m dep hash tx (some (shown m dep call))) r.0 r.1
          (mined hash w) (name, refl) in
      (detail, w', rw (params, tx_detail) (try-call (m.transaction_receipt hash) _ w ∙ ran), shows)

  -- Where the chain has the transaction of the hash that is asked for, and the transaction is shown as a
  -- call, the explorer's answer is 200 with a detail that has the call's method and parameters, whether
  -- the transaction is pending or mined. The receipt of a transaction has a block number and no nil log.
  pub handle_tx-Shows :
      (call : WriteCall) (r : Request) (tx : G.Transaction) (pending : Bool) (w v : m.World)
      → ReceiptsAreMined m dep
      → IsShownAs call tx
      → m.transaction_by_hash (G.hex_to_hash (query_get (utf8 "hash") r.query)) w
        ≡ (ok (tx, pending), v)
      → (detail : TxDetail) × (w' : m.World) × (handle_tx m dep r w
          ≡ (done (write_json 200 (tx_detail_json detail)), w'))
        × Shows call detail
  unfolding handle_tx reply_tx pure
  handle_tx-Shows call r tx pending w v mined is_shown found =
      let hash = G.hex_to_hash (query_get (utf8 "hash") r.query) in
      let (detail, w', ran, shows) = detail-Shows call hash tx pending v mined is_shown in
      (
        detail,
        w',
        try-call (m.transaction_by_hash hash) (reply_tx m dep hash) w
            ∙ ap (λ p. reply_tx m dep hash p.0 p.1) found
            ∙ bind-done _ _ v w' ran,
        shows,
      )

module _ {G : Geth} (m : Machine G) (s : Service) (laws : AbiLaws G) (d : DistinctSelectors G)
    (keeps : KeepsPayload G) where
  sent_payload :
      (op : Bytes) (to : Address) (payload : Bytes) (w w' : m.World) {res : TxResult}
      (g : IsBroadcast m s op to payload w w' res)
      → G.tx_payload g.sending.signed_tx ≡ payload
  unfolding build_tx
  sent_payload op to payload w w' g =
      keeps _ _ g.sending.reply.0 g.sending.signed_tx g.sending.assembled

  shown_payload :
      (call : WriteCall) (payload : Bytes) (tx : G.Transaction)
      → InRange call
      → packed m s.dep call ≡ ok payload
      → G.tx_payload tx ≡ payload
      → IsShownAs m s.dep call tx
  shown_payload call payload tx small is_packed same =
      let (params, name) = explorer_shows_writes m s.dep laws d call payload small is_packed in
      (ap (decode_input m s.dep) same ∙ params, ap (method_name G) same ∙ name)

  -- A mint of less than 2 ^ 256 base units that returned a result has broadcast a transaction that an
  -- explorer with the same deployment book shows as that mint, with its recipient and amount. ABI coding is
  -- as documented, the four selectors differ, and a signed transaction keeps its data.
  pub explorer_shows_mint :
      (to : Address) (n : ℕ) (w w' : m.World) {res : TxResult}
      → n < 2 ^ 256
      → mint m s to (pos n) w ≡ (done res, w')
      → (payload : Bytes) × (g : IsBroadcast m s
          (utf8 "mint")
          s.dep.token_authority
          payload
          w
          w'
          res)
        × IsShownAs m s.dep (mint_call to n) g.sending.signed_tx
  explorer_shows_mint to n w w' {res} small ran =
      let (_, payload, is_packed, g) = (mint_iff m s to (pos n) w w' res).0 ran in
      (
        payload,
        g,
        shown_payload (mint_call to n) payload g.sending.signed_tx small is_packed
            (sent_payload _ _ payload w w' g),
      )

  -- A transfer of less than 2 ^ 256 base units that returned a result has broadcast a transaction that an
  -- explorer with the same deployment book shows as that transfer, with its recipient and amount.
  pub explorer_shows_transfer :
      (to : Address) (n : ℕ) (w w' : m.World) {res : TxResult}
      → n < 2 ^ 256
      → transfer m s to (pos n) w ≡ (done res, w')
      → (payload : Bytes) × (g : IsBroadcast m s
          (utf8 "transfer")
          s.dep.deposit_token
          payload
          w
          w'
          res)
        × IsShownAs m s.dep (transfer_call to n) g.sending.signed_tx
  explorer_shows_transfer to n w w' {res} small ran =
      let (payload, is_packed, g) = (transfer_iff m s to (pos n) w w' res).0 ran in
      (
        payload,
        g,
        shown_payload (transfer_call to n) payload g.sending.signed_tx small is_packed
            (sent_payload _ _ payload w w' g),
      )
