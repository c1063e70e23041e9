-- ===== src/Tests/Broadcasts.antt =====
-- The pipeline of a deposit service at a concrete request.
use besu_interbank_demo.Base.{
  some, ℕ, [], ◌∷◌, none, ◌≡◌, ◌↔◌, refl, Bytes, utf8, bytes_eq, replicate, ◌*◌, ◌<◌, ◌^◌,
}
use besu_interbank_demo.Base.Int.{pos}
use besu_interbank_demo.Base.Outcome.{ok, err, done, effects}
use besu_interbank_demo.Config.{chain_id}
use besu_interbank_demo.Decimal.{set_string}
use besu_interbank_demo.DepositSvc.Broadcast.{
  IsBroadcast, tx_result, build_tx_gas, build_sign_broadcast_iff,
}
use besu_interbank_demo.DepositSvc.Sender.{build_sign_broadcast-sender}
use besu_interbank_demo.DepositSvc.Server.{decode_to_amount, to_amount_fields}
use besu_interbank_demo.DepositSvc.Service.{TxResult}
use besu_interbank_demo.DepositSvc.Signing.{router_sign_signs}
use besu_interbank_demo.DepositSvc.Writes.{
  build_tx, gas_or_fallback, estimated_gas, build_sign_broadcast,
}
use besu_interbank_demo.Platform.Http.{Request}
use besu_interbank_demo.Platform.Json.{text, struct_fields, string_field}
use besu_interbank_demo.SignRouter.Keystore.{Key, load_key}
use besu_interbank_demo.Tests.Fake.{
  FakeTx, fake_geth, fake_hex_length, fake_hex_round_trip, fake_laws,
}
use besu_interbank_demo.Tests.Routers.{key_a, router_a, the_key_a, made_a}
use besu_interbank_demo.Tests.Deposits.{
  machine, service_a, mint_request, IsWired-a, bank_a_listed, bank_a_key,
}

abbrev pub minted_tx : FakeTx
minted_tx = record {
  fields = build_tx 0 none 100_000 (utf8 "token") (utf8 "data");
  signature = the_key_a.priv;
}

abbrev pub minted : TxResult
minted =
    tx_result machine service_a (utf8 "mint") minted_tx (fake_geth.address_hex the_key_a.address)
      (record {
        status = 1;
        block_number = some (pos 1);
        block_hash = [];
        gas_used = 90_000;
        effective_gas_price = none;
        logs = [];
      })

IsBroadcast-a :
    IsBroadcast machine service_a
      (utf8 "mint")
      (utf8 "token")
      (utf8 "data")
      []
      (minted_tx ∷ [])
      minted
unfolding estimated_gas gas_or_fallback effects
IsBroadcast-a = record {
  nonce = 0;
  base_fee = none;
  gas = 100_000;
  at_head = [];
  at_gas = [];
  at_sign = [];
  read_nonce = refl;
  read_head = refl;
  read_gas = refl;
  sending = record {
    reply = (the_key_a.priv, fake_geth.address_hex the_key_a.address);
    signed_tx = minted_tx;
    receipt = record {
      status = 1;
      block_number = some (pos 1);
      block_hash = [];
      gas_used = 90_000;
      effective_gas_price = none;
      logs = [];
    };
    at_send = [];
    at_mine = minted_tx ∷ [];
    signed =
        router_sign_signs machine service_a fake_hex_length fake_hex_round_trip (utf8 "A")
          (key_a ∷ []) {router = router_a} made_a IsWired-a bank_a_listed (replicate 32 0) []
          {k = the_key_a} {sig = the_key_a.priv} refl bank_a_key refl;
    assembled = refl;
    sent = refl;
    mined = refl;
    result = refl;
  };
}

build_sign_broadcast_iff_example :
    (build_sign_broadcast machine service_a (utf8 "mint") (utf8 "token") (utf8 "data") []
      ≡ (done minted, minted_tx ∷ []))
    ↔ IsBroadcast machine service_a
        (utf8 "mint")
        (utf8 "token")
        (utf8 "data")
        []
        (minted_tx ∷ [])
        minted
build_sign_broadcast_iff_example =
    build_sign_broadcast_iff machine service_a (utf8 "mint") (utf8 "token") (utf8 "data") []
      (minted_tx ∷ []) minted

ran_a :
    build_sign_broadcast machine service_a (utf8 "mint") (utf8 "token") (utf8 "data") []
    ≡ (done minted, minted_tx ∷ [])
ran_a = build_sign_broadcast_iff_example.1 IsBroadcast-a

build_sign_broadcast-sender_example :
    (g : IsBroadcast machine service_a
      (utf8 "mint")
      (utf8 "token")
      (utf8 "data")
      []
      (minted_tx ∷ [])
      minted)
    × (k : Key fake_geth) × (load_key fake_geth service_a.bank.key_id ≡ ok k)
    × (fake_geth.sender chain_id g.sending.signed_tx ≡ ok k.address)
    × (minted.signed_by ≡ fake_geth.address_hex k.address)
build_sign_broadcast-sender_example =
    build_sign_broadcast-sender machine service_a fake_laws (utf8 "A") (key_a ∷ [])
      {router = router_a} made_a IsWired-a bank_a_listed (utf8 "mint") (utf8 "token") (utf8 "data")
      [] (minted_tx ∷ []) {res = minted} ran_a

build_tx_gas_example :
    ((gas : ℕ)
      → gas < 2 ^ 63
      → (build_tx 0 none (gas_or_fallback (ok gas)) (utf8 "token") []).gas ≡ 2 * gas)
    × ((e : Bytes) → (build_tx 0 none (gas_or_fallback (err e)) (utf8 "token") []).gas ≡ 1_600_000)
build_tx_gas_example = build_tx_gas 0 none (utf8 "token") []

abbrev bad_request : Request
bad_request = record mint_request { body = text (utf8 "{") }

bad_body : decode_to_amount fake_geth bad_request.body ≡ err (utf8 "bad json")
unfolding decode_to_amount to_amount_fields struct_fields
bad_body = refl

good_body : decode_to_amount fake_geth mint_request.body ≡ ok (utf8 "bob", pos 250)
unfolding decode_to_amount to_amount_fields struct_fields string_field set_string bytes_eq
good_body = refl
