-- ===== src/Tests/Deposits.antt =====
-- Deposit services at concrete requests.
use besu_interbank_demo.Base.{
  true, false, List, [], ◌∷◌, ◌++◌, ◌≡◌, ◌⊎◌, refl, Bytes, utf8, elem, All, replicate, arith,
}
use besu_interbank_demo.Base.Keeps.{Keeps}
use besu_interbank_demo.Base.Outcome.{ok, done, fail}
use besu_interbank_demo.Config.{bank_a, bank_b, holder}
use besu_interbank_demo.Config.Deployment.{Deployment}
use besu_interbank_demo.Decimal.{decimal}
use besu_interbank_demo.DepositSvc.Requests.{holder_handler-Keeps, handler-Keeps_lem}
use besu_interbank_demo.DepositSvc.Sends.{ReadsKeep, IsAssembled}
use besu_interbank_demo.DepositSvc.Server.{handler}
use besu_interbank_demo.DepositSvc.Service.{Service}
use besu_interbank_demo.DepositSvc.Signing.{IsWired, router_sign_signs, router_sign_refused}
use besu_interbank_demo.DepositSvc.Writes.{router_sign}
use besu_interbank_demo.Platform.Abi.{Address}
use besu_interbank_demo.Platform.Http.{post, Request}
use besu_interbank_demo.Platform.Json.{string, object, field, end, doc}
use besu_interbank_demo.Platform.Machine.{Machine}
use besu_interbank_demo.SignRouter.Keystore.{load_key}
use besu_interbank_demo.Tests.Fake.{
  FakeTx, fake_geth, fake_machine, fake_listens, fake_hex_length, fake_hex_round_trip,
}
use besu_interbank_demo.Tests.Routers.{
  key_a, router_a, the_key_a, load_a, made_a, listed_a, unlisted_b,
}

abbrev pub machine : Machine fake_geth
machine = fake_machine router_a

abbrev pub book : Deployment
book = record {
  auth_registry = utf8 "registry";
  reserve_ledger = utf8 "ledger";
  token_authority = utf8 "authority";
  token_handler = utf8 "handler";
  deposit_token = utf8 "token";
  transfer_policy_id = 1;
  rl_mint_policy_id = 2;
  sc_mint_policy_id = 3;
  chain_id = 1337;
}

abbrev pub service_a : Service
service_a = record { bank = bank_a machine; dep = book }

abbrev pub service_b : Service
service_b = record { bank = bank_b machine; dep = book }

pub is_holder_b : service_b.bank.role ≡ holder
unfolding bank_b
is_holder_b = refl

-- Every transaction in the world calls `transfer`.
abbrev pub OnlyTransfers : List FakeTx → Type 0
OnlyTransfers = All (λ tx. tx.fields.payload ≡ utf8 "transfer")

pub reads_b : ReadsKeep machine OnlyTransfers service_b.bank
reads_b = record {
  nonce = λ a w h. h;
  base_fee = λ w h. h;
  gas = λ msg w h. h;
  contract = λ msg w h. h;
  mined = λ tx w h. h;
  router = λ hash w h. h;
}

pub sent_transfer :
    (to : Address) (payload : Bytes) (tx : FakeTx)
    → ok (utf8 "transfer") ≡ ok payload
    → IsAssembled machine to payload tx
    → tx.fields.payload ≡ utf8 "transfer"
sent_transfer to payload tx packed a = ground (arith, a.assembled, a.calldata)

abbrev pub mint_request : Request
mint_request = record {
  method = post;
  path = utf8 "/mint";
  query = [];
  body = doc (
      object (
        field (utf8 "amount") (string (utf8 "250")) (field (utf8 "to") (string (utf8 "bob")) end)));
}

holder_handler-Keeps_example : Keeps OnlyTransfers (handler machine service_b mint_request)
holder_handler-Keeps_example =
    holder_handler-Keeps machine OnlyTransfers service_b reads_b is_holder_b
      (λ to amount payload packed tx a w h. (sent_transfer _ payload tx packed a, h)) mint_request

-- Every transaction in the world is one of the three calls that an issuer's service makes.
abbrev pub OnlyKnown : List FakeTx → Type 0
OnlyKnown = All (λ tx.
    (tx.fields.payload ≡ utf8 "mint")
    ⊎ (tx.fields.payload ≡ utf8 "modifyPolicyWhitelist")
    ⊎ (tx.fields.payload ≡ utf8 "transfer"))

pub reads_a : ReadsKeep machine OnlyKnown service_a.bank
reads_a = record {
  nonce = λ a w h. h;
  base_fee = λ w h. h;
  gas = λ msg w h. h;
  contract = λ msg w h. h;
  mined = λ tx w h. h;
  router = λ hash w h. h;
}

module _ (to : Address) (payload : Bytes) (tx : FakeTx)
    (a : IsAssembled machine to payload tx) where
  pub sent_payload : tx.fields.payload ≡ payload
  sent_payload = ground (arith, a.assembled, a.calldata)

handler-Keeps_lem_example : Keeps OnlyKnown (handler machine service_a mint_request)
handler-Keeps_lem_example =
    handler-Keeps_lem machine OnlyKnown service_a reads_a
      (λ to amount payload packed tx a w h. (ground (arith, sent_payload _ payload tx a), h))
      (λ account policy payload packed tx a w h. (ground (arith, sent_payload _ payload tx a), h))
      (λ to amount payload packed tx a w h. (ground (arith, sent_payload _ payload tx a), h))
      mint_request

pub IsWired-a : IsWired machine service_a router_a
IsWired-a = fake_listens router_a service_a.bank.signing_router_url

IsWired-b : IsWired machine service_b router_a
IsWired-b = fake_listens router_a service_b.bank.signing_router_url

pub bank_a_listed : elem service_a.bank.key_id (key_a ∷ []) ≡ true
unfolding bank_a
bank_a_listed = listed_a

bank_b_unlisted : elem service_b.bank.key_id (key_a ∷ []) ≡ false
unfolding bank_b
bank_b_unlisted = unlisted_b

pub bank_a_key : load_key fake_geth service_a.bank.key_id ≡ ok the_key_a
unfolding bank_a
bank_a_key = load_a

router_sign_signs_example :
    router_sign machine service_a (replicate 32 7) []
    ≡ (done (the_key_a.priv, fake_geth.address_hex the_key_a.address), [])
router_sign_signs_example =
    router_sign_signs machine service_a fake_hex_length fake_hex_round_trip (utf8 "A") (key_a ∷ [])
      {router = router_a} made_a IsWired-a bank_a_listed (replicate 32 7) [] {k = the_key_a}
      {sig = the_key_a.priv} refl bank_a_key refl

router_sign_refused_example : router_sign machine service_b (replicate 32 7) [] ≡ (
  fail (
      utf8 "signing-router "
      ++ service_b.bank.signing_router_url
      ++ utf8 " refused: "
      ++ decimal 403
      ++ utf8 " "
      ++ (utf8 "router "
          ++ fake_geth.quote (utf8 "A")
          ++ utf8 " does not hold key "
          ++ service_b.bank.key_id)),
  [],
)
router_sign_refused_example =
    router_sign_refused machine service_b (utf8 "A") (key_a ∷ []) {router = router_a} made_a
      IsWired-b bank_b_unlisted (replicate 32 7) []
