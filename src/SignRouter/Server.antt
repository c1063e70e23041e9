-- ===== src/SignRouter/Server.antt =====
-- internal/signrouter/server.go.
use besu_interbank_demo.Base.{
  true, List, [], ◌∷◌, ◌++◌, map, Option, none, some, Bytes, utf8, length, leb, eqb, if◌then◌else◌,
}
use besu_interbank_demo.Base.Dict.{Dict, lookup, insert}
use besu_interbank_demo.Base.Outcome.{Result, ok, err, Outcome, done, panic}
use besu_interbank_demo.Base.Int.{ℤ}
use besu_interbank_demo.Decimal.{int_string}
use besu_interbank_demo.Platform.Geth.{Geth}
use besu_interbank_demo.Platform.Json.{
  Json, boolean, string, object, field, end, slice, Body, struct_fields, string_field,
}
use besu_interbank_demo.Platform.Http.{
  get, post, Request, Response, Route, found, wrong_method, no_route, route, not_found,
  method_not_allowed, write_json, write_err,
}
use besu_interbank_demo.SignRouter.Keystore.{Key, load_key, sign_hash}

pub record SignRequest : Type 0 where
  pub key_id : Bytes
  pub hash : Bytes

pub record SignResponse : Type 0 where
  pub signature : Bytes
  pub address : Bytes

-- Decoding a body into a SignRequest; `none` is the decoder's error.
unfoldable pub decode_sign_request : Body → Option SignRequest
decode_sign_request body = elim (struct_fields body) [
  | none ↦ none
  | some fs ↦ elim (string_field (utf8 "keyId") fs) [
    | none ↦ none
    | some key_id ↦ elim (string_field (utf8 "hash") fs) [
      | none ↦ none
      | some hash ↦ some (record { key_id = key_id; hash = hash })
    ]
  ]
]

unfoldable pub sign_response_json : SignResponse → Json
sign_response_json r =
    object (
      field (utf8 "signature") (string r.signature) (field (utf8 "address") (string r.address) end))

-- The two patterns of the server.
pub data Endpoint : Type 0 where
  health sign : Endpoint

unfoldable pub endpoints : List (Route Endpoint)
endpoints =
    record { method = get; path = utf8 "/health"; handler = health }
    ∷ record { method = post; path = utf8 "/sign"; handler = sign }
    ∷ []

module _ (G : Geth) where
  pub record Server : Type 0 where
    pub label : Bytes
    pub allowed : Dict (Key G)

  -- The loop of `New` over the KeyIDs.
  unfoldable pub load_keys : List Bytes → Dict (Key G) → Result (Dict (Key G))
  load_keys [] allowed = ok allowed
  load_keys (id ∷ ids) allowed = elim (load_key G id) [
    | err e ↦ err e
    | ok k ↦ load_keys ids (insert id k allowed)
  ]

  unfoldable pub new : Bytes → List Bytes → Result Server
  new label [] = err (utf8 "signing-router: refusing to start with no keys")
  new label (id ∷ ids) = elim (load_keys (id ∷ ids) []) [
    | err e ↦ err e
    | ok allowed ↦ ok (record { label = label; allowed = allowed })
  ]

  -- The answer of GET /health; `ids` are the KeyIDs in the order in which Go visits the map.
  unfoldable pub handle_health : List Bytes → Server → Response
  handle_health ids s = write_json 200 (
      object (
        field (utf8 "keyIds") (slice (map string ids))
          (field (utf8 "label") (string s.label) (field (utf8 "ok") (boolean true) end))))

  -- The last part of `handleSign`: the key is held and the hash is decoded. `req.Hash[:12]` in the log
  -- line panics on a shorter text.
  unfoldable pub sign_and_reply : Key G → SignRequest → Bytes → Outcome Response
  sign_and_reply k req hash = elim (sign_hash G k hash) [
    | err e ↦ done (write_err 500 e)
    | ok sig ↦
        if leb 12 (length req.hash)
        then done (
            write_json 200 (
              sign_response_json
                (record { signature = G.encode_hex sig; address = G.address_hex k.address })))
        else panic
  ]

  unfoldable pub handle_sign : Server → Request → Outcome Response
  handle_sign s r = elim (decode_sign_request r.body) [
    | none ↦ done (write_err 400 (utf8 "bad json"))
    | some req ↦ elim (lookup req.key_id s.allowed) [
      | none ↦ done (
          write_err 403
            (utf8 "router " ++ G.quote s.label ++ utf8 " does not hold key " ++ req.key_id))
      | some k ↦ elim (G.decode_hex req.hash) [
        | err _ ↦ done (write_err 400 (utf8 "hash must be a 32-byte 0x-hex string"))
        | ok hash ↦
            if eqb (length hash) 32
            then sign_and_reply k req hash
            else done (write_err 400 (utf8 "hash must be a 32-byte 0x-hex string"))
      ]
    ]
  ]

  unfoldable pub handler : List Bytes → Server → Request → Outcome Response
  handler ids s r = elim (route endpoints r.method r.path no_route) [
    | found health ↦ done (handle_health ids s)
    | found sign ↦ handle_sign s r
    | wrong_method ↦ done method_not_allowed
    | no_route ↦ done not_found
  ]

  -- `Run` up to its listener: the address and the server behind it.
  unfoldable pub run : ℤ → Bytes → List Bytes → Result (Bytes × Server)
  run port label key_ids = elim (new label key_ids) [
    | err e ↦ err e
    | ok srv ↦ ok (b':' ∷ int_string port, srv)
  ]
