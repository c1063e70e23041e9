-- ===== src/Tests/Concurrent.antt =====
-- Requests to the deposit services that interleave.
use besu_interbank_demo.Base.{ℕ, List, [], ◌∷◌, map, ◌≡◌, refl, utf8, bytes_eq, inl, inr, arith}
use besu_interbank_demo.Base.Task.{after, lift, call, wrap, try, ◌>>=◌}
use besu_interbank_demo.Base.Task.Schedule.{System, arrive, Reach, here, next_step}
use besu_interbank_demo.Base.Task.Turns.{turn, turns, turns-Reach}
use besu_interbank_demo.DepositSvc.Concurrent.{
  IsRequestTo, IsRequestToEither, quiet, holder_concurrent, banks_concurrent,
}
use besu_interbank_demo.DepositSvc.Sends.{ReadsKeep}
use besu_interbank_demo.Base.Dict.{lookup}
use besu_interbank_demo.Config.{env_or, bank_a}
use besu_interbank_demo.DepositSvc.Service.{TxResult}
use besu_interbank_demo.DepositSvc.Writes.{
  gas_or_fallback, build_tx, sign_call, sign_body, decode_sign_reply,
}
use besu_interbank_demo.Platform.Json.{struct_fields, string_field}
use besu_interbank_demo.SignRouter.Keystore.{sign_hash}
use besu_interbank_demo.SignRouter.Server.{
  handle_sign, sign_and_reply, decode_sign_request, sign_response_json,
}
use besu_interbank_demo.DepositSvc.Tasks.{
  build_sign_broadcast, sign_broadcast, estimated_gas, router_sign, read_reply,
}
use besu_interbank_demo.DepositSvc.Tasks.Serve.{serve}
use besu_interbank_demo.Platform.Http.{Request, Response, write_json}
use besu_interbank_demo.Tests.Deposits.{
  machine, service_a, service_b, is_holder_b, mint_request, OnlyTransfers, reads_b, sent_transfer,
  OnlyKnown, reads_a, sent_payload,
}
use besu_interbank_demo.Tests.Fake.{FakeTx}

-- Two pipelines of bank A's service.
abbrev two_writes : System (List FakeTx) TxResult
two_writes = record {
  world = [];
  tasks =
      build_sign_broadcast machine service_a (utf8 "mint") (utf8 "token") (utf8 "one")
      ∷ build_sign_broadcast machine service_a (utf8 "mint") (utf8 "token") (utf8 "two")
      ∷ [];
}

-- The nonces of the transactions sent, the last first.
abbrev nonces : System (List FakeTx) TxResult → List ℕ
nonces s = map (λ tx. tx.fields.nonce) s.world

-- One after the other, the two transactions have different nonces.
one_by_one :
    nonces (turns (0 ∷ 0 ∷ 0 ∷ 0 ∷ 0 ∷ 0 ∷ 1 ∷ 1 ∷ 1 ∷ 1 ∷ 1 ∷ 1 ∷ []) two_writes) ≡ 1 ∷ 0 ∷ []
unfolding turns turn build_sign_broadcast sign_broadcast estimated_gas router_sign read_reply ◌>>=◌
    after call lift wrap try gas_or_fallback build_tx sign_call env_or sign_body decode_sign_reply
    handle_sign sign_and_reply decode_sign_request sign_hash sign_response_json write_json lookup
    bytes_eq struct_fields string_field bank_a
one_by_one = refl

-- Where both read the nonce before either is sent, the two transactions have the same one.
same_nonce :
    nonces (turns (0 ∷ 1 ∷ 0 ∷ 0 ∷ 0 ∷ 0 ∷ 0 ∷ 1 ∷ 1 ∷ 1 ∷ 1 ∷ 1 ∷ []) two_writes) ≡ 0 ∷ 0 ∷ []
unfolding turns turn build_sign_broadcast sign_broadcast estimated_gas router_sign read_reply ◌>>=◌
    after call lift wrap try gas_or_fallback build_tx sign_call env_or sign_body decode_sign_reply
    handle_sign sign_and_reply decode_sign_request sign_hash sign_response_json write_json lookup
    bytes_eq struct_fields string_field bank_a
same_nonce = refl

abbrev transfer_request : Request
transfer_request = record mint_request { path = utf8 "/transfer" }

-- Two requests to bank B's service, turn by turn.
abbrev at_b : System (List FakeTx) Response
at_b = record {
  world = [];
  tasks = serve machine service_b transfer_request ∷ serve machine service_b mint_request ∷ [];
}

abbrev turns_taken : List ℕ
turns_taken = 0 ∷ 1 ∷ 0 ∷ 0 ∷ 0 ∷ 0 ∷ []

at_b-Reach : Reach (IsRequestTo machine service_b) (quiet machine []) (turns turns_taken at_b)
at_b-Reach = turns-Reach (IsRequestTo machine service_b) turns_taken (
    next_step
      (next_step here (arrive (serve machine service_b transfer_request) (transfer_request, refl)))
      (arrive (serve machine service_b mint_request) (mint_request, refl)))

holder_concurrent_example : OnlyTransfers (turns turns_taken at_b).world
holder_concurrent_example =
    holder_concurrent machine OnlyTransfers service_b reads_b is_holder_b
      (λ to amount payload packed tx a w h. (sent_transfer _ payload tx packed a, h)) []
      {u = turns turns_taken at_b} tt at_b-Reach

-- A mint at bank A and a transfer at bank B, turn by turn.
abbrev at_both : System (List FakeTx) Response
at_both = record {
  world = [];
  tasks = serve machine service_a mint_request ∷ serve machine service_b transfer_request ∷ [];
}

at_both-Reach :
    Reach
      (IsRequestToEither machine service_a service_b)
      (quiet machine [])
      (turns turns_taken at_both)
at_both-Reach = turns-Reach (IsRequestToEither machine service_a service_b) turns_taken (
    next_step
      (next_step here (arrive (serve machine service_a mint_request) (inl (mint_request, refl))))
      (arrive (serve machine service_b transfer_request) (inr (transfer_request, refl))))

reads_known : ReadsKeep machine OnlyKnown service_b.bank
reads_known = record {
  nonce = λ a w h. h;
  base_fee = λ w h. h;
  gas = λ msg w h. h;
  contract = λ msg w h. h;
  mined = λ tx w h. h;
  router = λ hash w h. h;
}

banks_concurrent_example : OnlyKnown (turns turns_taken at_both).world
banks_concurrent_example =
    banks_concurrent machine OnlyKnown service_a service_b reads_a reads_known is_holder_b
      (λ to amount payload packed tx a w h. (ground (arith, sent_payload _ payload tx a), h))
      (λ account policy payload packed tx a w h. (ground (arith, sent_payload _ payload tx a), h))
      (λ to amount payload packed tx a w h. (ground (arith, sent_payload _ payload tx a), h))
      (λ to amount payload packed tx a w h. (ground (arith, sent_payload _ payload tx a), h)) []
      {u = turns turns_taken at_both} tt at_both-Reach
