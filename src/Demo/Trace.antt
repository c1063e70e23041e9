-- ===== src/Demo/Trace.antt =====
-- internal/demo/demo.go: the two checks of the demo's last step, and the wait for a service.
use besu_interbank_demo.Base.{
  ℕ, true, false, List, [], ◌∷◌, ◌≢◌, ◌++◌, some, ◌≡◌, ◌∙◌, ap, refl, Bytes, utf8, bytes_eq, elem,
  inl, replicate,
}
use besu_interbank_demo.Base.Outcome.{ok, done, fail, pure}
use besu_interbank_demo.Base.Runs.{bind-done, try-done, try-fail, call-ok}
use besu_interbank_demo.Config.{bank_a, bank_b, holder}
use besu_interbank_demo.Demo.Replies.{decode_nothing}
use besu_interbank_demo.Demo.Client.{
  to_amount_body, send, read_response, post_json, refusal_text, wrong_key_call, sign_with_wrong_key,
}
use besu_interbank_demo.Demo.Replies.{error_text}
use besu_interbank_demo.Demo.Scenario.{bank_b_cannot_mint}
use besu_interbank_demo.Base.Int.{pos}
use besu_interbank_demo.Decimal.{set_string}
use besu_interbank_demo.DepositSvc.Errors.{holder_mint_refused}
use besu_interbank_demo.DepositSvc.Requests.{refusal, refusal-ne-nil}
use besu_interbank_demo.DepositSvc.Server.{handler, decode_to_amount, to_amount_fields}
use besu_interbank_demo.DepositSvc.Service.{Service}
use besu_interbank_demo.DepositSvc.Signing.{at_router, decode_sign_request-sign_body}
use besu_interbank_demo.Platform.Geth.{Geth}
use besu_interbank_demo.Platform.Json.{struct_fields, string_field}
use besu_interbank_demo.Platform.Http.{
  post, Call, Request, Response, application_json, write_err, write_json,
}
use besu_interbank_demo.Platform.Machine.{Machine}
use besu_interbank_demo.SignRouter.Server.{Server, new, decode_sign_request}
use besu_interbank_demo.SignRouter.Listening.{ListensAt, sign_reaches}
use besu_interbank_demo.SignRouter.Sign.{handle_sign_isolated}

module _ {G : Geth} (m : Machine G) where
  sent :
      (c : Call) (w w' : m.World) {resp : Response}
      → m.is_url c.url ≡ true
      → m.http c w ≡ (ok resp, w')
      → send m c w ≡ (done resp, w')
  unfolding send
  sent c w w' url got = rw (url, send) (call-ok _ w w' got)

  write_err-status : (status : ℕ) (msg : Bytes) → (write_err status msg).status ≡ status
  unfolding write_err write_json
  write_err-status status msg = refl

  decode_wrong_key :
      decode_sign_request (at_router (wrong_key_call m)).body
      ≡ some (record { key_id = (bank_b m).key_id; hash = utf8 "0x" ++ replicate 64 b'1' })
  unfolding wrong_key_call
  decode_wrong_key =
      decode_sign_request-sign_body (bank_b m).key_id (utf8 "0x" ++ replicate 64 b'1')

  -- Where a router that was provisioned without bank B's KeyID listens at bank A's router URL,
  -- the demo's request for a signature with bank B's key gets 403, and the world is as it was.
  pub sign_with_wrong_key_403 :
      (label : Bytes) (ids : List Bytes) {router : Server G}
      → new G label ids ≡ ok router
      → elem (bank_b m).key_id ids ≡ false
      → ListensAt m (bank_a m).signing_router_url router
      → (w : m.World) → sign_with_wrong_key m w ≡ (done 403, w)
  unfolding sign_with_wrong_key wrong_key_call pure
  sign_with_wrong_key_403 label ids {router} made absent there w =
      let refused =
        handle_sign_isolated G label ids {s = router} made (at_router (wrong_key_call m))
          decode_wrong_key absent in
      try-done (send m (wrong_key_call m)) _ w w
        {a = write_err 403 (
          utf8 "router "
          ++ G.quote router.label
          ++ utf8 " does not hold key "
          ++ (bank_b m).key_id)}
        (sent (wrong_key_call m) w w (there.url (utf8 "/sign") (inl refl)) (
          sign_reaches m (bank_a m).signing_router_url {router = router} there (wrong_key_call m)
            refl refl w _ refused))
      ∙ ap (λ n. (done n, w)) (write_err-status 403 _)

  -- The mint request of the demo's last step.
  abbrev pub mint_call : Call
  mint_call = record {
    method = post;
    url = (bank_b m).deposit_svc_url ++ utf8 "/mint";
    content_type = application_json;
    body = to_amount_body (G.address_hex (bank_b m).address) (utf8 "1");
  }

  abbrev pub at_mint : Call → Request
  at_mint c = record { method = c.method; path = utf8 "/mint"; query = []; body = c.body }

  pub one_unit :
      decode_to_amount G (at_mint mint_call).body
      ≡ ok (G.hex_to_address (G.address_hex (bank_b m).address), pos 1)
  unfolding decode_to_amount to_amount_fields to_amount_body struct_fields string_field bytes_eq
      set_string
  one_unit = refl

  posted :
      (msg : Bytes) (w : m.World)
      → m.is_url mint_call.url ≡ true
      → m.http mint_call w ≡ (ok (write_err 400 msg), w)
      → post_json m mint_call.url mint_call.body decode_nothing w
        ≡ (fail (refusal_text m (write_err 400 msg).body), w)
  unfolding post_json send read_response write_err write_json
  posted msg w url got =
      bind-done (send m mint_call) _ w w {a = write_err 400 msg} (sent mint_call w w url got)

  -- The error that the demo makes of a service's refusal is the refusal's text.
  refusal_text-write_err :
      (status : ℕ) (msg : Bytes) → msg ≢ [] → refusal_text m (write_err status msg).body ≡ msg
  unfolding refusal_text error_text write_err write_json struct_fields string_field bytes_eq
  refusal_text-write_err status [] h = absurd (h refl)
  refusal_text-write_err status (c ∷ msg) h = refl

  -- The check holds where the mint call gets a refusal, and has its text.
  pub bank_b_cannot_mint_refused :
      (msg : Bytes) (w : m.World)
      → msg ≢ []
      → m.is_url mint_call.url ≡ true
      → m.http mint_call w ≡ (ok (write_err 400 msg), w)
      → bank_b_cannot_mint m w ≡ (done (some msg), w)
  unfolding bank_b_cannot_mint pure
  bank_b_cannot_mint_refused msg w nonempty url got =
      try-fail _ _ w w (posted msg w url got)
      ∙ ap (λ e. (done (some e), w)) (refusal_text-write_err 400 msg nonempty)

  -- Where bank B's service URL parses and reaches the handler of a holder's service in the same world,
  -- the demo's mint for bank B gets the service's refusal, and the world is as it was.
  pub bank_b_cannot_mint_holds :
      (s : Service)
      → s.bank.role ≡ holder
      → m.is_url mint_call.url ≡ true
      → ((w w' : m.World) (resp : Response)
          → handler m s (at_mint mint_call) w ≡ (done resp, w')
          → m.http mint_call w ≡ (ok resp, w'))
      → (w : m.World) → bank_b_cannot_mint m w ≡ (done (some (refusal m s (utf8 "mint"))), w)
  bank_b_cannot_mint_holds s is_holder url reaches w =
      let refused = holder_mint_refused m s (at_mint mint_call) w is_holder refl refl one_unit in
      bank_b_cannot_mint_refused (refusal m s (utf8 "mint")) w (refusal-ne-nil m s (utf8 "mint"))
        url (reaches w w _ refused)
