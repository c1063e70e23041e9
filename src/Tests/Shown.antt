-- ===== src/Tests/Shown.antt =====
-- What the explorer shows of a deposit service's writes, at concrete calls.
use besu_interbank_demo.Base.{
  ◌↔◌, some, false, List, [], ◌∷◌, none, ◌≡◌, refl, Bytes, utf8, bytes_eq, arith,
}
use besu_interbank_demo.Base.Dict.{lookup}
use besu_interbank_demo.Base.Int.{pos}
use besu_interbank_demo.Base.Outcome.{ok, err, done, effects}
use besu_interbank_demo.Chainx.{token_authority_abi}
use besu_interbank_demo.Config.{issuer, env_or, bank_a, role_eq}
use besu_interbank_demo.DepositSvc.Broadcast.{IsBroadcast}
use besu_interbank_demo.DepositSvc.Effects.{mint_iff}
use besu_interbank_demo.DepositSvc.Writes.{
  mint, require_role, build_sign_broadcast, sign_broadcast, estimated_gas, router_sign, read_reply,
  gas_or_fallback, build_tx, sign_call, sign_body, decode_sign_reply,
}
use besu_interbank_demo.Platform.Abi.{address, big_int}
use besu_interbank_demo.Platform.AbiLaws.{function_named}
use besu_interbank_demo.Platform.Http.{get, Request, write_json}
use besu_interbank_demo.Platform.Json.{struct_fields, string_field, text}
use besu_interbank_demo.Platform.Machine.{Machine}
use besu_interbank_demo.SignRouter.Keystore.{sign_hash}
use besu_interbank_demo.SignRouter.Server.{
  handle_sign, sign_and_reply, decode_sign_request, sign_response_json,
}
use besu_interbank_demo.Tests.Coded.{coded_geth, coded_laws, coded_payload, encode_all}
use besu_interbank_demo.Tests.Broadcasts.{minted}
use besu_interbank_demo.Tests.Deposits.{machine, service_a}
use besu_interbank_demo.Tests.Fake.{FakeTx}
use besu_interbank_demo.Tests.Routers.{the_key_a}
use besu_interbank_demo.Webui.Calls.{packed, mint_call, explorer_shows_writes}
use besu_interbank_demo.Webui.Shapes.{TxDetail, tx_detail_json}
use besu_interbank_demo.Webui.Selectors.{DistinctSelectors}
use besu_interbank_demo.Webui.Decode.{selector}
use besu_interbank_demo.Webui.Tx.{handle_tx}
use besu_interbank_demo.Webui.Written.{
  KeepsPayload, IsShownAs, Shows, handle_tx-Shows, explorer_shows_mint,
}

-- The data of a mint of 250 for bob.
abbrev mint_data : Bytes
mint_data =
    coded_payload (utf8 "mint") token_authority_abi
      (address (utf8 "token") ∷ address (utf8 "bob") ∷ big_int (pos 250) ∷ [])

abbrev sent_tx : FakeTx
sent_tx = record {
  fields = build_tx 0 none 100_000 (utf8 "authority") mint_data;
  signature = the_key_a.priv;
}

-- The fake machine over the coded ABI; it finds the mint by any hash.
abbrev chain : Machine coded_geth
chain = record {
  World = List FakeTx;
  getenv = machine.getenv;
  repo_root = machine.repo_root;
  stat = machine.stat;
  read_file = machine.read_file;
  unmarshal_address = machine.unmarshal_address;
  json_error = machine.json_error;
  is_url = machine.is_url;
  http = machine.http;
  raw = machine.raw;
  bin_dir = machine.bin_dir;
  start = machine.start;
  kill = machine.kill;
  dial = machine.dial;
  pending_nonce_at = machine.pending_nonce_at;
  header_base_fee = machine.header_base_fee;
  estimate_gas = machine.estimate_gas;
  send_transaction = machine.send_transaction;
  wait_mined = machine.wait_mined;
  call_contract = machine.call_contract;
  block_number = machine.block_number;
  block_by_number = λ n w. (err (utf8 "not found"), w);
  transaction_by_hash = λ h w. (ok (sent_tx, false), w);
  transaction_receipt = λ h w. (
    ok (
        some (record {
          status = 1;
          block_number = some (pos 1);
          block_hash = [];
          gas_used = 90_000;
          effective_gas_price = none;
          logs = [];
        })),
    w,
  );
  header_by_hash = machine.header_by_hash;
}

distinct : DistinctSelectors coded_geth
unfolding selector
distinct = record {
  burn_mint = λ e. absurd (ground arith);
  transfer_mint = λ e. absurd (ground arith);
  modify_mint = λ e. absurd (ground arith);
  transfer_burn = λ e. absurd (ground arith);
  modify_burn = λ e. absurd (ground arith);
  modify_transfer = λ e. absurd (ground arith);
}

keeps : KeepsPayload coded_geth
keeps c fields sig tx assembled = ground arith

mint_ran : mint chain service_a (utf8 "bob") (pos 250) [] ≡ (done minted, sent_tx ∷ [])
unfolding mint require_role role_eq build_sign_broadcast sign_broadcast estimated_gas router_sign
    read_reply gas_or_fallback build_tx sign_call env_or sign_body decode_sign_reply effects
    handle_sign sign_and_reply decode_sign_request sign_hash sign_response_json write_json lookup
    bytes_eq struct_fields string_field bank_a function_named encode_all token_authority_abi
mint_ran = refl

mint_iff_example :
    (mint chain service_a (utf8 "bob") (pos 250) [] ≡ (done minted, sent_tx ∷ [])) ↔ (
      (service_a.bank.role ≡ issuer)
      × (payload : Bytes) × (coded_geth.pack token_authority_abi
            (utf8 "mint")
            (address service_a.dep.deposit_token ∷ address (utf8 "bob") ∷ big_int (pos 250) ∷ [])
          ≡ ok payload)
      × IsBroadcast chain service_a
          (utf8 "mint")
          service_a.dep.token_authority
          payload
          []
          (sent_tx ∷ [])
          minted)
mint_iff_example = mint_iff chain service_a (utf8 "bob") (pos 250) [] (sent_tx ∷ []) minted

explorer_shows_mint_example :
    (payload : Bytes) × (g : IsBroadcast chain service_a
      (utf8 "mint")
      service_a.dep.token_authority
      payload
      []
      (sent_tx ∷ [])
      minted)
    × IsShownAs chain service_a.dep (mint_call (utf8 "bob") 250) g.sending.signed_tx
explorer_shows_mint_example =
    explorer_shows_mint chain service_a coded_laws distinct keeps (utf8 "bob") 250 [] (sent_tx ∷ [])
      {res = minted} (ground arith) mint_ran

mint_packed : packed chain service_a.dep (mint_call (utf8 "bob") 250) ≡ ok mint_data
unfolding bytes_eq function_named encode_all token_authority_abi
mint_packed = refl

sent_tx-IsShownAs : IsShownAs chain service_a.dep (mint_call (utf8 "bob") 250) sent_tx
unfolding build_tx
sent_tx-IsShownAs =
    explorer_shows_writes chain service_a.dep coded_laws distinct (mint_call (utf8 "bob") 250)
      mint_data (ground arith) mint_packed

abbrev tx_request : Request
tx_request = record { method = get; path = utf8 "/api/tx"; query = []; body = text [] }

handle_tx-Shows_example :
    (detail : TxDetail) × (w' : List FakeTx) × (handle_tx chain service_a.dep tx_request []
      ≡ (done (write_json 200 (tx_detail_json detail)), w'))
    × Shows chain service_a.dep (mint_call (utf8 "bob") 250) detail
handle_tx-Shows_example =
    handle_tx-Shows chain service_a.dep (mint_call (utf8 "bob") 250) tx_request sent_tx false [] []
      (λ hash w. (pos 1, refl, tt)) sent_tx-IsShownAs refl
