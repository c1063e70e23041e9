-- ===== src/Webui/Answers.antt =====
-- internal/webui/server.go: a transaction's request is always answered.
use mathlib.Core.Path.{subst}
use besu_interbank_demo.Base.{
  ap, ◌≤◌, true, false, List, [], ◌∷◌, Option, none, some, ◌≡◌, ◌⊎◌, ◌∙◌, sym, refl, Bool, Bytes,
  utf8, length, ltb, take, drop, arith, Bool-cases, inl, inr,
}
use besu_interbank_demo.Base.Outcome.{
  Result, ok, err, Outcome, done, pure, deref, ◌>>=◌, Result-cases,
}
use besu_interbank_demo.Base.Runs.{bind-done, try-call}
use besu_interbank_demo.Base.Int.{ℤ}
use besu_interbank_demo.Config.Deployment.{Deployment}
use besu_interbank_demo.Platform.Abi.{Hash, type_string, Argument, Function, Value}
use besu_interbank_demo.Platform.Geth.{Geth}
use besu_interbank_demo.Platform.Http.{Request, Response, query_get, write_json, write_err}
use besu_interbank_demo.Platform.Machine.{Machine, Log, Receipt}
use besu_interbank_demo.Webui.DecoderAbi.{decoder_abi}
use besu_interbank_demo.Webui.Decode.{
  LogEntry, log_entries, decode_log, decode_logs, Param, non_indexed, fmt_param, fmt_params,
  decode_input,
}
use besu_interbank_demo.Webui.Shapes.{TxDetail}
use besu_interbank_demo.Webui.Tx.{
  mined_detail, pending_detail, add_receipt, tx_detail, reply_tx, handle_tx,
}

abbrev pub IsOneOf : Function → List Function → Type 0
IsOneOf f [] = ⊥
IsOneOf f (g ∷ gs) = (f ≡ g) ⊎ IsOneOf f gs

-- What go-ethereum documents: a method found by its selector is one of the ABI's, and unpacking gives a
-- value for each argument that is not indexed.
pub record DecodingLaws (G : Geth) : Type 0 where
  pub found :
      (id : Bytes) (f : Function)
      → G.method_by_id decoder_abi id ≡ ok f
      → IsOneOf f decoder_abi.functions
  pub unpacked :
      (args : List Argument) (payload : Bytes) (vals : List Value)
      → G.unpack_arguments args payload ≡ ok vals
      → length vals ≡ length (non_indexed args)

plain_inputs :
    (f : Function)
    → IsOneOf f decoder_abi.functions
    → length (non_indexed f.inputs) ≡ length f.inputs
unfolding decoder_abi non_indexed
plain_inputs f (inl e) = subst (λ g. length (non_indexed g.inputs) ≡ length g.inputs) (sym e) refl
plain_inputs f (inr (inl e)) =
    subst (λ g. length (non_indexed g.inputs) ≡ length g.inputs) (sym e) refl
plain_inputs f (inr (inr (inl e))) =
    subst (λ g. length (non_indexed g.inputs) ≡ length g.inputs) (sym e) refl
plain_inputs f (inr (inr (inr (inl e)))) =
    subst (λ g. length (non_indexed g.inputs) ≡ length g.inputs) (sym e) refl
plain_inputs f (inr (inr (inr (inr none_left)))) = elim none_left [ ]

-- No log is nil.
abbrev pub NoNil : List (Option Log) → Type 0
NoNil [] = Unit
NoNil (none ∷ logs) = ⊥
NoNil (some lg ∷ logs) = NoNil logs

module _ {G : Geth} (m : Machine G) (dep : Deployment) where
  fmt_params-some :
      (args : List Argument) (vals : List Value)
      → length args ≤ length vals
      → (ps : List Param) × (fmt_params m dep args vals ≡ some ps)
  unfolding fmt_params
  fmt_params-some [] vals h = ([], refl)
  fmt_params-some (a ∷ args) [] h = absurd (omega (arith, h))
  fmt_params-some (a ∷ args) (v ∷ vals) h =
      let (ps, e) = fmt_params-some args vals (omega (arith, h)) in
      (fmt_param m dep a.name (type_string a.type) v ∷ ps, rw (e, fmt_params) refl)

  -- Decoding calldata never runs past the values that were unpacked.
  decode_input-some :
      DecodingLaws G
      → (payload : Bytes)
      → (decoded : Option (List Param)) × (decode_input m dep payload ≡ some decoded)
  unfolding decode_input
  decode_input-some laws payload = elim (Bool-cases (ltb (length payload) 4)) [
    | inl short ↦ (none, rw (short, decode_input) refl)
    | inr long ↦ elim (Result-cases (G.method_by_id decoder_abi (take 4 payload))) [
      | inr (e, unknown) ↦ (none, rw (long, unknown, decode_input) refl)
      | inl (f, known) ↦ elim (Result-cases (G.unpack_arguments f.inputs (drop 4 payload))) [
        | inr (e, bad) ↦ (none, rw (long, known, bad, decode_input) refl)
        | inl (vals, good) ↦
            let (ps, e) = fmt_params-some f.inputs vals (
              omega (
                arith,
                plain_inputs f (laws.found _ f known),
                laws.unpacked f.inputs (drop 4 payload) vals good,
              )) in
            (some ps, rw (long, known, good, e, decode_input) refl)
      ]
    ]
  ]

  -- What an Ethereum node documents: the receipt of a transaction has the number of its block and its
  -- logs.
  abbrev pub IsMined : Result (Option Receipt) → Type 0
  IsMined (err e) = Unit
  IsMined (ok none) = Unit
  IsMined (ok (some rcpt)) = (number : ℤ) × (rcpt.block_number ≡ some number) × NoNil rcpt.logs

  abbrev pub ReceiptsAreMined : Type 0
  ReceiptsAreMined = (hash : Hash) (w : m.World) → IsMined (m.transaction_receipt hash w).0

  log_entries-some :
      (lg : Log) (topics : List Hash) (entries : List LogEntry)
      → (out : List LogEntry) × (log_entries m dep lg topics (some entries) ≡ some out)
  log_entries-some lg [] entries = (entries, refl)
  log_entries-some lg (t ∷ ts) entries = (decode_log m dep lg t ts ∷ entries, refl)

  pub decode_logs-some :
      (logs : List (Option Log))
      → NoNil logs
      → (entries : List LogEntry) × (decode_logs m dep logs ≡ some entries)
  unfolding decode_logs
  decode_logs-some [] whole = ([], refl)
  decode_logs-some (none ∷ logs) whole = absurd whole
  decode_logs-some (some lg ∷ logs) whole =
      let (entries, e) = decode_logs-some logs whole in
      let (out, shown) = log_entries-some lg lg.topics entries in
      (out, ap (log_entries m dep lg lg.topics) e ∙ shown)

  add_receipt-done :
      (d : TxDetail) (r : Result (Option Receipt)) (w : m.World)
      → IsMined r
      → (d' : TxDetail) × (w' : m.World) × (add_receipt m dep d r w ≡ (done d', w'))
  unfolding add_receipt deref ◌>>=◌ pure
  add_receipt-done d (err e) w mined = (d, w, refl)
  add_receipt-done d (ok none) w mined = (d, w, refl)
  add_receipt-done d (ok (some rcpt)) w (number, has, whole) =
      let (entries, decoded) = decode_logs-some rcpt.logs whole in
      (
        mined_detail m dep d rcpt number entries (m.header_by_hash rcpt.block_hash w).0,
        (m.header_by_hash rcpt.block_hash w).1,
        rw (has, decoded) (try-call _ _ w),
      )

  -- The answer to a request of a transaction.
  abbrev pub IsAnswered : Outcome Response → Type 0
  IsAnswered (done resp) = (resp.status ≡ 200) ⊎ (resp.status ≡ 404)
  IsAnswered _ = ⊥

  tx_detail-done :
      DecodingLaws G
      → ReceiptsAreMined
      → (hash : Bytes) (tx : G.Transaction) (pending : Bool) (w : m.World)
      → (d : TxDetail) × (w' : m.World) × (tx_detail m dep hash tx pending w ≡ (done d, w'))
  unfolding tx_detail deref ◌>>=◌ pure
  tx_detail-done laws mined hash tx true w =
      let (decoded, e) = decode_input-some laws (G.tx_payload tx) in
      (pending_detail m dep hash tx decoded, w, rw (e, tx_detail) refl)
  tx_detail-done laws mined hash tx false w =
      let (decoded, e) = decode_input-some laws (G.tx_payload tx) in
      let r = m.transaction_receipt hash w in
      let (d, w', ran) =
        add_receipt-done (pending_detail m dep hash tx decoded) r.0 r.1 (mined hash w) in
      (d, w', rw (e, tx_detail) (try-call (m.transaction_receipt hash) _ w ∙ ran))

  replied :
      DecodingLaws G
      → ReceiptsAreMined
      → (hash : Bytes) (r : Result (G.Transaction × Bool)) (w : m.World)
      → IsAnswered (reply_tx m dep hash r w).0
  unfolding reply_tx pure write_err write_json
  replied laws mined hash (err e) w = inr refl
  replied laws mined hash (ok (tx, pending)) w =
      let (d, w', ran) = tx_detail-done laws mined hash tx pending w in
      subst (λ o. IsAnswered o.0) (sym (bind-done _ _ w w' ran)) (inl refl)

  -- Every request of a transaction is answered with status 200 or 404, and the handler does not panic,
  -- where a method found by its selector is one of the ABI's, and unpacking gives a value for each argument
  -- that is not indexed, and the receipt of a transaction has a block number and no nil log.
  pub handle_tx-IsAnswered :
      DecodingLaws G
      → ReceiptsAreMined
      → (r : Request) (w : m.World) → IsAnswered (handle_tx m dep r w).0
  unfolding handle_tx
  handle_tx-IsAnswered laws mined r w =
      let hash = G.hex_to_hash (query_get (utf8 "hash") r.query) in
      let found = m.transaction_by_hash hash w in
      subst (λ o. IsAnswered o.0) (sym (try-call _ _ w)) (replied laws mined hash found.0 found.1)
