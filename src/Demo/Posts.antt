-- ===== src/Demo/Posts.antt =====
-- internal/demo with internal/depositsvc: what a post of the demo has made a service do.
use besu_interbank_demo.Base.{
  List, [], map, Option, some, ◌≡◌, ◌∙◌, sym, ap, refl, Bytes, utf8, bytes_eq, eqb, arith,
  Bool-cases, Option-cases, inl, inr,
}
use besu_interbank_demo.Base.Int.{ℤ}
use besu_interbank_demo.Base.Outcome.{M, Outcome, ok, done, fail, panic, try}
use besu_interbank_demo.Base.Runs.{bind-eq-done, call-eq-done}
use besu_interbank_demo.Decimal.{int_string}
use besu_interbank_demo.Demo.Client.{
  account_body, to_amount_body, decoded, send, post_call, read_response, post_json,
}
use besu_interbank_demo.Demo.Decoding.{kept, decode_to_amount-to_amount_body, demo_reads_service}
use besu_interbank_demo.Demo.Replies.{TxResult, decode_tx_result, decode_tx_results}
use besu_interbank_demo.DepositSvc.Server.{
  tx_result_json, account_field, reply, respond, endpoints, handle_mint, handle_authorize,
  handle_transfer, handle, dispatch, handler,
}
use besu_interbank_demo.DepositSvc.Service as Service
use besu_interbank_demo.DepositSvc.Service.{Service}
use besu_interbank_demo.DepositSvc.Writes as Writes
use besu_interbank_demo.Platform.Geth.{Geth}
use besu_interbank_demo.Platform.Http.{Call, Request, Response, route, write_json, write_err}
use besu_interbank_demo.Platform.Json.{Json, Body, struct_fields, string_field, doc, slice}
use besu_interbank_demo.Platform.Machine.{Machine}

module _ {G : Geth} (m : Machine G) where
  send-eq-done :
      (c : Call) (w w' : m.World) {resp : Response}
      → send m c w ≡ (done resp, w')
      → m.http c w ≡ (ok resp, w')
  unfolding send
  send-eq-done c w w' h = elim (Bool-cases (m.is_url c.url)) [
    | inl good ↦ call-eq-done (m.http c) w w' (ground arith)
    | inr bad ↦ absurd (ground arith)
  ]

  read_response-eq-done :
      {A : Type 0} (decode : Body → Option A) (resp : Response) (w w' : m.World) {a : A}
      → read_response m decode resp w ≡ (done a, w')
      → (w ≡ w') × (resp.status ≡ 200) × (decode resp.body ≡ some a)
  unfolding read_response decoded
  read_response-eq-done decode resp w w' h = elim (Bool-cases (eqb resp.status 200)) [
    | inl good ↦ elim (Option-cases (decode resp.body)) [
      | inl bad ↦ absurd (ground arith)
      | inr (a, e) ↦ (ground arith, ground (arith, good), ground arith)
    ]
    | inr bad ↦ absurd (ground arith)
  ]

  -- A post that is done was answered with 200 and a body that decodes to its value.
  abbrev Answered : {A : Type 0} → Call → (Body → Option A) → m.World → m.World → A → Type 0
  Answered c decode w w' a =
      (resp : Response) × (m.http c w ≡ (ok resp, w'))
      × (resp.status ≡ 200)
      × (decode resp.body ≡ some a)

  post_json-Answered :
      {A : Type 0} (url : Bytes) (body : Body) (decode : Body → Option A) (w w' : m.World) {a : A}
      → post_json m url body decode w ≡ (done a, w')
      → Answered (post_call m url body) decode w w' a
  unfolding post_json
  post_json-Answered url body decode w w' h =
      let (resp, v, sent, read) =
        bind-eq-done (send m (post_call m url body)) (read_response m decode) w w' h in
      let (world, good, value) = read_response-eq-done decode resp v w' read in
      (resp, send-eq-done _ w v sent ∙ ap (λ u. (ok resp, u)) world, good, value)

  -- A call as a service gets it at a path.
  abbrev pub at_path : Bytes → Call → Request
  at_path path c = record { method = c.method; path = path; query = []; body = c.body }

  -- The responses to a call are those of a service, in whose worlds they come.
  abbrev pub Reaches : Service → Bytes → Call → Type 0
  Reaches s path c =
      (w w' : m.World) (resp : Response)
      → m.http c w ≡ (ok resp, w')
      → handler m s (at_path path c) w ≡ (done resp, w')

  -- A response of 200 to a write is that of its result.
  abbrev Replied : {A : Type 0} → (A → Json) → M m.World A → m.World → m.World → Response → Type 0
  Replied {A} to_json res w w' resp =
      (a : A) × (res w ≡ (done a, w')) × (resp ≡ write_json 200 (to_json a))

  respond-Replied :
      {A : Type 0} (to_json : A → Json) (res : M m.World A) (w w' : m.World) (resp : Response)
      → respond m to_json res w ≡ (done resp, w')
      → resp.status ≡ 200
      → Replied to_json res w w' resp
  unfolding respond try reply write_err write_json
  respond-Replied to_json res w w' resp h good = ran (res w).0 (res w).1 h
    where
      ran :
          (o : Outcome _) (v : m.World)
          → respond m to_json (λ _. (o, v)) w ≡ (done resp, w')
          → Replied to_json (λ _. (o, v)) w w' resp
      ran (done a) v e = (a, ground arith, ground arith)
      ran (fail x) v e = absurd (ground arith)
      ran panic v e = absurd (ground arith)

  decoded_same :
      {A : Type 0} (decode : Body → Option A) (resp : Response) (j : Json) {a b : A}
      → resp ≡ write_json 200 j
      → decode (doc j) ≡ some b
      → decode resp.body ≡ some a
      → a ≡ b
  unfolding write_json
  decoded_same decode resp j same e e' = let body = ap (λ r. decode r.body) same in ground arith

  -- A post that is done, to a service that answers it with the results of `res`.
  post-Replied :
      {A B : Type 0} (s : Service) (path url : Bytes) (body : Body) (to_json : A → Json)
      (res : M m.World A) (decode : Body → Option B) (back : A → B)
      → ((w : m.World)
          → handler m s (at_path path (post_call m url body)) w ≡ respond m to_json res w)
      → ((a : A) → decode (doc (to_json a)) ≡ some (back a))
      → Reaches s path (post_call m url body)
      → (w w' : m.World) (b : B) → post_json m url body decode w ≡ (done b, w')
      → (a : A) × (res w ≡ (done a, w')) × (b ≡ back a)
  post-Replied s path url body to_json res decode back handled reads reaches w w' b h =
      let (resp, got, good, value) = post_json-Answered url body decode w w' h in
      let (a, ran, same) =
        respond-Replied to_json res w w' resp (sym (handled w) ∙ reaches w w' resp got) good in
      (a, ran, decoded_same decode resp (to_json a) same (reads a) value)

  module _ (s : Service) where
    -- What a mint, a transfer and an authorization of the demo have done where they reach a service.
    pub mint_body-Replied :
        (url to : Bytes) (amount : ℤ)
        → Reaches s (utf8 "/mint") (post_call m url (to_amount_body to (int_string amount)))
        → (w w' : m.World) (t : TxResult)
        → post_json m url (to_amount_body to (int_string amount)) decode_tx_result w ≡ (done t, w')
        → (res : Service.TxResult) × (Writes.mint m s (G.hex_to_address to) amount w
            ≡ (done res, w'))
          × (t ≡ kept res)
    unfolding handler dispatch handle handle_mint endpoints route bytes_eq
    mint_body-Replied url to amount =
        post-Replied s (utf8 "/mint") url (to_amount_body to (int_string amount)) tx_result_json
          (Writes.mint m s (G.hex_to_address to) amount) decode_tx_result kept
          (λ w. rw (decode_to_amount-to_amount_body G to amount, handle_mint) refl)
          (demo_reads_service m s).0

    pub transfer_body-Replied :
        (url to : Bytes) (amount : ℤ)
        → Reaches s (utf8 "/transfer") (post_call m url (to_amount_body to (int_string amount)))
        → (w w' : m.World) (t : TxResult)
        → post_json m url (to_amount_body to (int_string amount)) decode_tx_result w ≡ (done t, w')
        → (res : Service.TxResult) × (Writes.transfer m s (G.hex_to_address to) amount w
            ≡ (done res, w'))
          × (t ≡ kept res)
    unfolding handler dispatch handle handle_transfer endpoints route bytes_eq
    transfer_body-Replied url to amount =
        post-Replied s (utf8 "/transfer") url (to_amount_body to (int_string amount)) tx_result_json
          (Writes.transfer m s (G.hex_to_address to) amount) decode_tx_result kept
          (λ w. rw (decode_to_amount-to_amount_body G to amount, handle_transfer) refl)
          (demo_reads_service m s).0

    pub account_body-Replied :
        (url account : Bytes)
        → Reaches s (utf8 "/authorize") (post_call m url (account_body account))
        → (w w' : m.World) (ts : List TxResult)
        → post_json m url (account_body account) decode_tx_results w ≡ (done ts, w')
        → (rs : List Service.TxResult) × (Writes.authorize m s (G.hex_to_address account) w
            ≡ (done rs, w'))
          × (ts ≡ map kept rs)
    unfolding handler dispatch handle handle_authorize endpoints route account_field account_body
        struct_fields string_field bytes_eq
    account_body-Replied url account =
        post-Replied s (utf8 "/authorize") url (account_body account)
          (λ rs. slice (map tx_result_json rs)) (Writes.authorize m s (G.hex_to_address account))
          decode_tx_results (map kept) (λ w. refl) (demo_reads_service m s).1
