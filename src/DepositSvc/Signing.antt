-- ===== src/DepositSvc/Signing.antt =====
-- internal/depositsvc with internal/signrouter: a service whose router URL reaches a router.
use besu_interbank_demo.Base.{
  ℕ, true, false, [], ◌++◌, List, some, ◌≡◌, refl, ◌∙◌, Bytes, utf8, bytes_eq, eqb, elem, length,
  inl, arith,
}
use besu_interbank_demo.Base.Outcome.{ok, done, fail}
use besu_interbank_demo.Base.Runs.{bind-done, lift-ok, call-ok, wrap-done}
use besu_interbank_demo.Decimal.{decimal}
use besu_interbank_demo.DepositSvc.Service.{Service}
use besu_interbank_demo.DepositSvc.Writes.{
  decode_sign_reply, sign_body, sign_call, read_reply, router_sign,
}
use besu_interbank_demo.Platform.Abi.{Hash}
use besu_interbank_demo.Platform.Geth.{Geth}
use besu_interbank_demo.Platform.Http.{at_path, Call, Request, Response, write_json, write_err}
use besu_interbank_demo.Platform.Json.{struct_fields, string_field}
use besu_interbank_demo.Platform.Machine.{Machine}
use besu_interbank_demo.SignRouter.Keystore.{Key, load_key}
use besu_interbank_demo.SignRouter.Listening.{ListensAt, sign_reaches}
use besu_interbank_demo.SignRouter.Provision.{new-IsExact}
use besu_interbank_demo.SignRouter.Server.{
  sign_response_json, decode_sign_request, Server, new, handle_sign,
}
use besu_interbank_demo.SignRouter.Sign.{
  DecodesHex, IsSigned, handle_sign-signs, handle_sign_isolated,
}

-- The router reads what the service wrote, and the service what the router wrote.
pub decode_sign_request-sign_body :
    (key_id hash : Bytes)
    → decode_sign_request (sign_body key_id hash) ≡ some (record { key_id = key_id; hash = hash })
unfolding decode_sign_request sign_body struct_fields string_field bytes_eq
decode_sign_request-sign_body key_id hash = refl

decode_sign_reply-signed :
    (sig addr : Bytes)
    → decode_sign_reply
        (write_json 200 (sign_response_json (record { signature = sig; address = addr }))).body
      ≡ some (record { signature = sig; address = addr; error = [] })
unfolding decode_sign_reply sign_response_json write_json struct_fields string_field bytes_eq
decode_sign_reply-signed sig addr = refl

decode_sign_reply-refused :
    (status : ℕ) (msg : Bytes)
    → decode_sign_reply (write_err status msg).body
      ≡ some (record { signature = []; address = []; error = msg })
unfolding decode_sign_reply write_err struct_fields string_field bytes_eq
decode_sign_reply-refused status msg = refl

-- A call as a router gets it at /sign.
abbrev pub at_router : Call → Request
at_router c = at_path (utf8 "/sign") c

module _ {G : Geth} (m : Machine G) (s : Service) where
  -- The server `router` listens at the bank's router URL.
  abbrev pub IsWired : Server G → Type 0
  IsWired router = ListensAt m s.bank.signing_router_url router

  wired_url :
      {router : Server G}
      → IsWired router
      → (hash : Hash) → m.is_url (sign_call m s.bank hash).url ≡ true
  unfolding sign_call
  wired_url wired hash = wired.url (utf8 "/sign") (inl refl)

  -- The service's sign call is a post to /sign below its router URL.
  wired_reaches :
      {router : Server G}
      → IsWired router
      → (hash : Hash) (w : m.World) (resp : Response)
      → handle_sign G router (at_router (sign_call m s.bank hash)) ≡ done resp
      → m.http (sign_call m s.bank hash) w ≡ (ok resp, w)
  unfolding sign_call
  wired_reaches {router} wired hash w resp answered =
      sign_reaches m s.bank.signing_router_url {router = router} wired _ refl refl w resp answered

  -- `router_sign` from the response that the call gets.
  router_sign-reply :
      (hash : Hash) (w w' : m.World) {resp : Response}
      → m.is_url (sign_call m s.bank hash).url ≡ true
      → m.http (sign_call m s.bank hash) w ≡ (ok resp, w')
      → router_sign m s hash w ≡ read_reply m s.bank resp w'
  unfolding router_sign
  router_sign-reply hash w w' url got =
      rw (url, router_sign) (bind-done _ _ w w' (wrap-done _ _ w w' (call-ok _ w w' got)))

  read_signed :
      (w : m.World) (sig addr : Bytes)
      → G.decode_hex (G.encode_hex sig) ≡ ok sig
      → read_reply m s.bank
          (write_json 200
            (sign_response_json (record { signature = G.encode_hex sig; address = addr })))
          w
        ≡ (done (sig, addr), w)
  unfolding read_reply
  read_signed w sig addr e =
      rw (decode_sign_reply-signed (G.encode_hex sig) addr, read_reply)
        (unfold write_json in bind-done _ _ w w (wrap-done _ _ w w (lift-ok w e)))

  read_refused :
      (w : m.World) (status : ℕ) (msg : Bytes)
      → eqb status 200 ≡ false
      → read_reply m s.bank (write_err status msg) w ≡ (
        fail (
            utf8 "signing-router "
            ++ s.bank.signing_router_url
            ++ utf8 " refused: "
            ++ decimal status
            ++ utf8 " "
            ++ msg),
        w,
      )
  unfolding read_reply
  read_refused w status msg e =
      rw (decode_sign_reply-refused status msg, read_reply) (unfold write_err write_json in rw e)

  decode_at_router :
      (hash : Hash)
      → decode_sign_request (at_router (sign_call m s.bank hash)).body
        ≡ some (record { key_id = s.bank.key_id; hash = G.encode_hex hash })
  unfolding sign_call
  decode_at_router hash = decode_sign_request-sign_body s.bank.key_id (G.encode_hex hash)

  -- Where a router that was provisioned with a service's KeyID listens at its router URL, the service gets
  -- the signature of a 32-byte hash by that key, which the key gives, and the key's address, and the
  -- world is as it was; hex text decodes to what was encoded, and to half its length.
  pub router_sign_signs :
      DecodesHex G
      → ((b : Bytes) → G.decode_hex (G.encode_hex b) ≡ ok b)
      → (label : Bytes) (ids : List Bytes) {router : Server G} → new G label ids ≡ ok router
      → IsWired router
      → elem s.bank.key_id ids ≡ true
      → (hash : Hash) (w : m.World) {k : Key G} {sig : Bytes} → length hash ≡ 32
      → load_key G s.bank.key_id ≡ ok k
      → G.sign hash k.priv ≡ ok sig
      → router_sign m s hash w ≡ (done (sig, G.address_hex k.address), w)
  router_sign_signs hex_length round_trip label ids {router} made wired listed hash w {k} {sig} size
        of_id signed =
      let (k', of_id', held) = (new-IsExact G label ids {s = router} made).1 s.bank.key_id listed in
      let same : k' ≡ k = ground (arith, of_id, of_id') in
      let signature : IsSigned G router (at_router (sign_call m s.bank hash)) (
          write_json 200 (
            sign_response_json
              (record { signature = G.encode_hex sig; address = G.address_hex k.address }))) =
        record {
          request = record { key_id = s.bank.key_id; hash = G.encode_hex hash };
          key = k;
          hash = hash;
          signature = sig;
          decoded = decode_at_router hash;
          held = rw (← same) held;
          hex = round_trip hash;
          size = size;
          signed = signed;
          reply = refl;
        } in
      router_sign-reply hash w w (wired_url {router = router} wired hash) (
        wired_reaches {router = router} wired hash w _
          (handle_sign-signs G hex_length router _ signature))
      ∙ read_signed w sig (G.address_hex k.address) (round_trip sig)

  -- Where a router that was not provisioned with a service's KeyID listens at its router URL, the service
  -- gets no signature: the call fails with the router's 403, and the world is as it was.
  pub router_sign_refused :
      (label : Bytes) (ids : List Bytes) {router : Server G}
      → new G label ids ≡ ok router
      → IsWired router
      → elem s.bank.key_id ids ≡ false
      → (hash : Hash) (w : m.World)
      → router_sign m s hash w ≡ (
        fail (
            utf8 "signing-router "
            ++ s.bank.signing_router_url
            ++ utf8 " refused: "
            ++ decimal 403
            ++ utf8 " "
            ++ (utf8 "router "
                ++ G.quote router.label
                ++ utf8 " does not hold key "
                ++ s.bank.key_id)),
        w,
      )
  router_sign_refused label ids {router} made wired absent hash w =
      router_sign-reply hash w w (wired_url {router = router} wired hash) (
        wired_reaches {router = router} wired hash w _
          (handle_sign_isolated G label ids {s = router} made _ (decode_at_router hash) absent))
      ∙ read_refused w 403 _ refl
