-- ===== src/SignRouter/Sign.antt =====
-- internal/signrouter: when a request is signed, and what else it may get.
use besu_interbank_demo.Base.{
  ◌+◌, ◌*◌, true, false, List, ◌++◌, none, some, ◌≡◌, ◌⊎◌, Bytes, utf8, elem, length, arith,
  Option-cases, Bool-cases, inl, inr,
}
use besu_interbank_demo.Base.Dict.{lookup}
use besu_interbank_demo.Base.Outcome.{ok, Outcome, done, fail, panic, Result-cases}
use besu_interbank_demo.Platform.Geth.{Geth}
use besu_interbank_demo.Platform.Http.{Request, Response, write_json, write_err}
use besu_interbank_demo.SignRouter.Keystore.{Key, load_key, sign_hash}
use besu_interbank_demo.SignRouter.Server.{
  SignRequest, sign_response_json, Server, new, decode_sign_request, sign_and_reply, handle_sign,
}
use besu_interbank_demo.SignRouter.Provision.{new-IsExact}

-- The call ends with a response that has one of the handler's statuses.
abbrev pub Answers : Outcome Response → Type 0
Answers (done resp) =
    (resp.status ≡ 200) ⊎ (resp.status ≡ 400) ⊎ (resp.status ≡ 403) ⊎ (resp.status ≡ 500)
Answers (fail e) = ⊥
Answers panic = ⊥

module _ (G : Geth) where
  -- The documented length of what `hexutil.Decode` reads: "0x" and two digits for each byte.
  abbrev pub DecodesHex : Type 0
  DecodesHex = (t h : Bytes) → G.decode_hex t ≡ ok h → length t ≡ 2 + 2 * length h

  -- What a signature rests on: a body that decodes, a key that the server holds, a 32-byte hash and a
  -- signature of it by that key.
  pub record IsSigned (s : Server G) (r : Request) (resp : Response) : Type 0 where
    pub request : SignRequest
    pub key : Key G
    pub hash : Bytes
    pub signature : Bytes
    pub decoded : decode_sign_request r.body ≡ some request
    pub held : lookup request.key_id s.allowed ≡ some key
    pub hex : G.decode_hex request.hash ≡ ok hash
    pub size : length hash ≡ 32
    pub signed : G.sign hash key.priv ≡ ok signature
    pub reply :
        resp
        ≡ write_json 200 (
            sign_response_json
              (record { signature = G.encode_hex signature; address = G.address_hex key.address }))

  -- A reply of status 200 to a sign request comes of a body that decodes, a key that the server holds, a
  -- 32-byte hash and a signature of it by that key, and carries that signature and the key's address.
  pub handle_sign-IsSigned :
      (s : Server G) (r : Request) {resp : Response}
      → handle_sign G s r ≡ done resp
      → resp.status ≡ 200
      → IsSigned s r resp
  unfolding handle_sign sign_and_reply sign_hash write_err write_json
  handle_sign-IsSigned s r {resp} h ok_status = elim (Option-cases (decode_sign_request r.body)) [
    | inl bad ↦ absurd (ground arith)
    | inr (req, decoded) ↦ elim (Option-cases (lookup req.key_id s.allowed)) [
      | inl missing ↦ absurd (ground arith)
      | inr (k, held) ↦ elim (Result-cases (G.decode_hex req.hash)) [
        | inr (e, bad_hex) ↦ absurd (ground arith)
        | inl (hash, hex) ↦ elim (Result-cases (G.sign hash k.priv)) [
          | inr (e, failed) ↦ absurd (ground arith)
          | inl (sig, signed) ↦ record {
            request = req;
            key = k;
            hash = hash;
            signature = sig;
            decoded = decoded;
            held = held;
            hex = hex;
            size = ground arith;
            signed = signed;
            reply = ground arith;
          }
        ]
      ]
    ]
  ]

  -- A body that decodes, a held key, a 32-byte hash and a signature of it by that key give the reply of
  -- status 200 with that signature, where hex text of n bytes has 2 + 2 * n characters.
  pub handle_sign-signs :
      DecodesHex
      → (s : Server G) (r : Request) {resp : Response} → IsSigned s r resp
      → handle_sign G s r ≡ done resp
  unfolding handle_sign sign_and_reply sign_hash
  handle_sign-signs hex_length s r g = ground (
    arith,
    hex_length g.request.hash g.hash g.hex,
    g.decoded,
    g.held,
    g.hex,
    g.size,
    g.signed,
    g.reply,
  )

  -- A request for a KeyID that is not held is refused with 403, whatever its hash.
  handle_sign-not_held :
      (s : Server G) (r : Request) {req : SignRequest}
      → decode_sign_request r.body ≡ some req
      → lookup req.key_id s.allowed ≡ none
      → handle_sign G s r
        ≡ done (
            write_err 403
              (utf8 "router " ++ G.quote s.label ++ utf8 " does not hold key " ++ req.key_id))
  unfolding handle_sign
  handle_sign-not_held s r decoded missing = ground arith

  -- Key isolation: a router that `New` provisioned with some KeyIDs answers 403 to a request, in a body
  -- that decodes, for any other KeyID, whatever the hash.
  pub handle_sign_isolated :
      (label : Bytes) (ids : List Bytes) {s : Server G}
      → new G label ids ≡ ok s
      → (r : Request) {req : SignRequest} → decode_sign_request r.body ≡ some req
      → elem req.key_id ids ≡ false
      → handle_sign G s r
        ≡ done (
            write_err 403
              (utf8 "router " ++ G.quote s.label ++ utf8 " does not hold key " ++ req.key_id))
  handle_sign_isolated label ids {s} made r {req} decoded absent =
      handle_sign-not_held s r decoded ((new-IsExact G label ids {s = s} made).2 req.key_id absent)

  -- A reply of status 200 by a router that `New` provisioned with some KeyIDs is a signature by the
  -- keystore's key of one of these KeyIDs.
  pub handle_sign_provisioned :
      (label : Bytes) (ids : List Bytes) {s : Server G}
      → new G label ids ≡ ok s
      → (r : Request) {resp : Response} → handle_sign G s r ≡ done resp
      → resp.status ≡ 200
      → (g : IsSigned s r resp) × (elem g.request.key_id ids ≡ true)
        × (load_key G g.request.key_id ≡ ok g.key)
  handle_sign_provisioned label ids {s} made r {resp} h status =
      let g = handle_sign-IsSigned s r {resp = resp} h status in
      let (_, held, absent) = new-IsExact G label ids {s = s} made in
      elim (Bool-cases (elem g.request.key_id ids)) [
        | inl e ↦ let (k, of_id, same) = held g.request.key_id e in (g, e, ground (arith, g.held))
        | inr e ↦ absurd (ground (arith, g.held, absent g.request.key_id e))
      ]

  -- Every sign request is answered with status 200, 400, 403 or 500, where hex text of n bytes has
  -- 2 + 2 * n characters: the handler never panics.
  pub handle_sign-Answers : DecodesHex → (s : Server G) (r : Request) → Answers (handle_sign G s r)
  unfolding handle_sign sign_and_reply write_err write_json
  handle_sign-Answers hex_length s r = elim (Option-cases (decode_sign_request r.body)) [
    | inl bad ↦ ground arith
    | inr (req, decoded) ↦ elim (Option-cases (lookup req.key_id s.allowed)) [
      | inl missing ↦ ground arith
      | inr (k, held) ↦ elim (Result-cases (G.decode_hex req.hash)) [
        | inr (e, bad_hex) ↦ ground arith
        | inl (hash, hex) ↦ ground (arith, hex_length req.hash hash hex)
      ]
    ]
  ]
