-- ===== src/Tests/Nonces.antt =====
-- An authorization and its nonces, at a concrete request.
use besu_interbank_demo.Base.{
  ◌↔◌, none, ℕ, ◌+◌, true, List, [], ◌∷◌, ◌≡◌, refl, Bytes, utf8, elem, length, bytes_eq, arith,
}
use besu_interbank_demo.Base.Dict.{lookup}
use besu_interbank_demo.Base.Outcome.{ok, done, effects}
use besu_interbank_demo.Config.{issuer, env_or, bank_a, role_eq}
use besu_interbank_demo.DepositSvc.Effects.{authorize_iff, Added}
use besu_interbank_demo.DepositSvc.Nonces.{NonceLaws, nonces, authorize-nonces}
use besu_interbank_demo.DepositSvc.Service.{nil_string, Service, TxResult}
use besu_interbank_demo.DepositSvc.Signing.{IsWired}
use besu_interbank_demo.DepositSvc.Writes.{
  authorize, authorize_loop, authorize_steps, require_role, build_sign_broadcast, sign_broadcast,
  estimated_gas, router_sign, read_reply, gas_or_fallback, build_tx, sign_call, sign_body,
  decode_sign_reply, status_text,
}
use besu_interbank_demo.Decimal.{decimal, int_string}
use besu_interbank_demo.Platform.Http.{write_json}
use besu_interbank_demo.Platform.Json.{struct_fields, string_field}
use besu_interbank_demo.SignRouter.Keystore.{Key, load_key, sign_hash}
use besu_interbank_demo.SignRouter.Server.{
  handle_sign, sign_and_reply, decode_sign_request, sign_response_json,
}
use besu_interbank_demo.Tests.Deposits.{machine, book}
use besu_interbank_demo.Tests.Fake.{FakeTx, fake_listens, fake_geth, fake_laws}
use besu_interbank_demo.Tests.Routers.{key_a, router_a, the_key_a, load_a, made_a, listed_a}

-- Bank A's service, where the bank has the address of the fake key.
abbrev service_o : Service
service_o = record { bank = record (bank_a machine) { address = the_key_a.address }; dep = book }

IsWired-o : IsWired machine service_o router_a
IsWired-o = fake_listens router_a service_o.bank.signing_router_url

listed_o : elem service_o.bank.key_id (key_a ∷ []) ≡ true
unfolding bank_a
listed_o = listed_a

own_o :
    (k : Key fake_geth)
    → load_key fake_geth service_o.bank.key_id ≡ ok k
    → k.address ≡ service_o.bank.address
unfolding bank_a
own_o k of_id = ground (arith, load_a, of_id)

counts : NonceLaws machine service_o.bank length
counts = record {
  read = λ w w' n e. ground arith;
  reads = λ c. record {
    nonce = λ a w h. h;
    base_fee = λ w h. h;
    gas = λ msg w h. h;
    contract = λ msg w h. h;
    mined = λ tx w h. h;
    router = λ hash w h. h;
  };
  numbered = λ c fields sig tx e. ground arith;
  sent = λ tx w w' own next e. ground arith;
}

-- The transaction of one step, and its result.
abbrev step_tx : ℕ → FakeTx
step_tx n = record {
  fields = build_tx n none 100_000 (utf8 "registry") (utf8 "modifyPolicyWhitelist");
  signature = the_key_a.priv;
}

abbrev added : Bytes → Bytes → TxResult
added tag block = record {
  op = tag;
  tx_hash = the_key_a.priv;
  status = utf8 "success";
  block_number = block;
  gas_used = utf8 "90000";
  signed_by = the_key_a.address;
}

abbrev both : List TxResult
both =
    added (utf8 "authorize:transfer") (utf8 "1")
    ∷ added (utf8 "authorize:mint-recipient") (utf8 "2")
    ∷ []

authorized : authorize machine service_o (utf8 "bob") [] ≡ (done both, step_tx 1 ∷ step_tx 0 ∷ [])
unfolding authorize authorize_loop authorize_steps require_role role_eq build_sign_broadcast
    sign_broadcast estimated_gas router_sign read_reply gas_or_fallback build_tx sign_call env_or
    sign_body decode_sign_reply status_text decimal nil_string int_string effects handle_sign
    sign_and_reply decode_sign_request sign_hash sign_response_json write_json lookup bytes_eq
    struct_fields string_field bank_a
authorized = refl

authorize_iff_example :
    (authorize machine service_o (utf8 "bob") [] ≡ (done both, step_tx 1 ∷ step_tx 0 ∷ [])) ↔ (
      (service_o.bank.role ≡ issuer)
      × Added machine service_o
          (utf8 "bob")
          (authorize_steps machine service_o)
          []
          (step_tx 1 ∷ step_tx 0 ∷ [])
          both)
authorize_iff_example =
    authorize_iff machine service_o (utf8 "bob") [] (step_tx 1 ∷ step_tx 0 ∷ []) both

authorize-nonces_example :
    (a : Added machine service_o
      (utf8 "bob")
      (authorize_steps machine service_o)
      []
      (step_tx 1 ∷ step_tx 0 ∷ [])
      both)
    × (nonces machine service_o
          (utf8 "bob")
          (authorize_steps machine service_o)
          []
          (step_tx 1 ∷ step_tx 0 ∷ [])
          both
          a
        ≡ 0 ∷ 1 ∷ [])
    × (2 ≡ 0 + 2)
authorize-nonces_example =
    authorize-nonces machine service_o length counts fake_laws (utf8 "A") (key_a ∷ [])
      {router = router_a} made_a IsWired-o listed_o own_o (utf8 "bob") []
      (step_tx 1 ∷ step_tx 0 ∷ []) both authorized
