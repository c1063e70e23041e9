-- ===== src/Tests/Routers.antt =====
-- Signing routers at concrete requests.
use mathlib.Core.Quot
use besu_interbank_demo.SignRouter.KeySet.{SameIds, Router, new-same}
use besu_interbank_demo.Base.{
  arith, true, false, [], ◌∷◌, ◌++◌, some, none, ◌≡◌, ◌≢◌, ◌↔◌, refl, Bytes, utf8, elem, bytes_eq,
  All, replicate,
}
use besu_interbank_demo.Base.Dict.{lookup, insert}
use besu_interbank_demo.Base.Outcome.{ok, done}
use besu_interbank_demo.DepositSvc.Signing.{decode_sign_request-sign_body}
use besu_interbank_demo.DepositSvc.Writes.{sign_body}
use besu_interbank_demo.Platform.Http.{post, Request, Response, write_json, write_err}
use besu_interbank_demo.Platform.Json.{struct_fields, string_field}
use besu_interbank_demo.SignRouter.Keystore.{Key, load_key, sign_hash, keystore}
use besu_interbank_demo.SignRouter.Provision.{IsKeyOf, new-IsExact, new-succeeds_iff}
use besu_interbank_demo.SignRouter.Server.{
  Server, load_keys, new, handle_sign, sign_and_reply, decode_sign_request, sign_response_json,
}
use besu_interbank_demo.SignRouter.Sign.{
  IsSigned, Answers, handle_sign-IsSigned, handle_sign_isolated, handle_sign_provisioned,
  handle_sign-Answers,
}
use besu_interbank_demo.Tests.Fake.{fake_geth, fake_hex_length}

abbrev pub key_a : Bytes
key_a = utf8 "key://bank-a/issuer"

abbrev pub key_b : Bytes
key_b = utf8 "key://bank-b/holder"

abbrev pub hex_a : Bytes
hex_a = utf8 "ac0974bec39a17e36ba4a6b4d238ff944bacb478cbed5efcae784d7bf4f2ff80"

abbrev pub the_key_a : Key fake_geth
the_key_a = record { priv = hex_a; address = hex_a }

-- Bank A's router.
abbrev pub router_a : Server fake_geth
router_a = record { label = utf8 "A"; allowed = (key_a, the_key_a) ∷ [] }

pub load_a : load_key fake_geth key_a ≡ ok the_key_a
unfolding load_key keystore lookup bytes_eq
load_a = refl

pub made_a : new fake_geth (utf8 "A") (key_a ∷ []) ≡ ok router_a
unfolding new load_keys load_key keystore lookup insert bytes_eq
made_a = refl

pub listed_a : elem key_a (key_a ∷ []) ≡ true
unfolding elem bytes_eq
listed_a = refl

pub unlisted_b : elem key_b (key_a ∷ []) ≡ false
unfolding elem bytes_eq
unlisted_b = refl

-- A request to sign the hash of 32 zero bytes.
abbrev ask : Bytes → Request
ask id = record {
  method = post;
  path = utf8 "/sign";
  query = [];
  body = sign_body id (fake_geth.encode_hex (replicate 32 0));
}

abbrev answer : Response
answer =
    write_json 200
      (sign_response_json (record { signature = fake_geth.encode_hex hex_a; address = hex_a }))

signed_a : handle_sign fake_geth router_a (ask key_a) ≡ done answer
unfolding handle_sign sign_and_reply decode_sign_request sign_body lookup bytes_eq struct_fields
    string_field sign_hash
signed_a = refl

answer_200 : answer.status ≡ 200
unfolding write_json
answer_200 = refl

new-IsExact_example :
    (key_a ∷ [] ≢ [])
    × ((j : Bytes)
        → elem j (key_a ∷ []) ≡ true
        → (k : Key fake_geth) × IsKeyOf fake_geth j k × (lookup j router_a.allowed ≡ some k))
    × ((j : Bytes) → elem j (key_a ∷ []) ≡ false → lookup j router_a.allowed ≡ none)
new-IsExact_example = new-IsExact fake_geth (utf8 "A") (key_a ∷ []) {s = router_a} made_a

new-succeeds_iff_example :
    ((s : Server fake_geth) × (new fake_geth (utf8 "A") (key_a ∷ []) ≡ ok s))
    ↔ ((key_a ∷ [] ≢ []) × All (λ id. (k : Key fake_geth) × IsKeyOf fake_geth id k) (key_a ∷ []))
new-succeeds_iff_example = new-succeeds_iff fake_geth (utf8 "A") (key_a ∷ [])

handle_sign-IsSigned_example : IsSigned fake_geth router_a (ask key_a) answer
handle_sign-IsSigned_example =
    handle_sign-IsSigned fake_geth router_a (ask key_a) {resp = answer} signed_a answer_200

IsSigned-a : IsSigned fake_geth router_a (ask key_a) answer
unfolding decode_sign_request sign_body lookup bytes_eq struct_fields string_field
IsSigned-a = record {
  request = record { key_id = key_a; hash = fake_geth.encode_hex (replicate 32 0) };
  key = the_key_a;
  hash = replicate 32 0;
  signature = hex_a;
  decoded = refl;
  held = refl;
  hex = refl;
  size = refl;
  signed = refl;
  reply = refl;
}

handle_sign_isolated_example :
    handle_sign fake_geth router_a (ask key_b)
    ≡ done (
        write_err 403
          (utf8 "router " ++ fake_geth.quote (utf8 "A") ++ utf8 " does not hold key " ++ key_b))
handle_sign_isolated_example =
    handle_sign_isolated fake_geth (utf8 "A") (key_a ∷ []) {s = router_a} made_a (ask key_b)
      (decode_sign_request-sign_body key_b (fake_geth.encode_hex (replicate 32 0))) unlisted_b

handle_sign_provisioned_example :
    (g : IsSigned fake_geth router_a (ask key_a) answer) × (elem g.request.key_id (key_a ∷ [])
      ≡ true)
    × (load_key fake_geth g.request.key_id ≡ ok g.key)
handle_sign_provisioned_example =
    handle_sign_provisioned fake_geth (utf8 "A") (key_a ∷ []) {s = router_a} made_a (ask key_a)
      {resp = answer} signed_a answer_200

handle_sign-Answers_example : Answers (handle_sign fake_geth router_a (ask key_b))
handle_sign-Answers_example = handle_sign-Answers fake_geth fake_hex_length router_a (ask key_b)

-- Both keys, in either order, and one of them twice.
abbrev pub hex_b : Bytes
hex_b = utf8 "59c6995e998f97a5a0044966f0945389dc9e86dae88c7a8412f4603b6b78690d"

abbrev router_both : Server fake_geth
router_both = record {
  label = utf8 "A";
  allowed = (key_a, the_key_a) ∷ (key_b, record { priv = hex_b; address = hex_b }) ∷ [];
}

made_both : new fake_geth (utf8 "A") (key_a ∷ key_b ∷ []) ≡ ok router_both
unfolding new load_keys load_key keystore lookup insert bytes_eq
made_both = refl

both_same : SameIds (key_a ∷ key_b ∷ []) (key_b ∷ key_a ∷ key_b ∷ [])
unfolding elem
both_same j = ground arith

new-same_example :
    (t : Server fake_geth) × (new fake_geth (utf8 "A") (key_b ∷ key_a ∷ key_b ∷ []) ≡ ok t)
    × ◌≡◌ {A = Router fake_geth} (Quot.mk router_both) (Quot.mk t)
    × ((r : Request) → handle_sign fake_geth router_both r ≡ handle_sign fake_geth t r)
new-same_example =
    new-same fake_geth (utf8 "A") (key_a ∷ key_b ∷ []) (key_b ∷ key_a ∷ key_b ∷ []) both_same
      made_both
