-- ===== src/Tests/City.antt =====
-- The whole program in one machine: the demo's requests reach the deposit services and the routers, and the
-- services' requests reach the routers.
use besu_interbank_demo.Base.Printing.{say, silently}
use besu_interbank_demo.Base.Dict.{lookup}
use besu_interbank_demo.Base.Outcome.{effects}
use besu_interbank_demo.Config.{role_text, role_eq, env_or, bank_a, bank_b}
use besu_interbank_demo.Platform.Http.{route, write_err}
use besu_interbank_demo.Platform.Json.{items, string_field, struct_fields}
use besu_interbank_demo.SignRouter.Keystore.{sign_hash}
use besu_interbank_demo.SignRouter.Server.{
  decode_sign_request, sign_response_json, endpoints, load_keys, new, handle_health, sign_and_reply,
  handle_sign, handler, run,
}
use besu_interbank_demo.DepositSvc.Service.{
  nil_string, low_byte, string_or_empty, call_method, uint_value, read_uint, read_string,
  balance_of, token_info,
}
use besu_interbank_demo.DepositSvc.Writes.{
  decode_sign_reply, status_text, sign_call, read_reply, router_sign, estimated_gas, sign_broadcast,
  build_sign_broadcast, require_role, mint, authorize_steps, authorize_loop, authorize, transfer,
}
use besu_interbank_demo.DepositSvc.Server as DepositServer
use besu_interbank_demo.DepositSvc.Server.{
  tx_result_json, token_info_json, to_amount_fields, account_field, decode_to_amount, reply,
  respond, info_json, reply_info, handle_info, balance_account, balance_json, handle_balance,
  handle_mint, handle_authorize, handle_transfer, handle, dispatch,
}
use besu_interbank_demo.Demo.Client as Client
use besu_interbank_demo.Demo.Client.{
  account_body, to_amount_body, decoded, send, get_json, refusal_text, read_response, post_json,
  is_healthy, wait_loop, wait_healthy, read_balances, wrong_key_call, sign_with_wrong_key,
}
use besu_interbank_demo.Demo.Replies.{
  tx_result_of_fields, decode_tx_result, tx_results_of_items, decode_tx_results, decode_supplies,
  decode_info, decode_header, decode_token, error_text,
}
use besu_interbank_demo.Demo.Scenario as Scenario
use besu_interbank_demo.Demo.Scenario.{
  services, spawn, spawn_all, kill_all, deferring, wait_all, show_balances, onboard, post_amount,
  bank_b_cannot_mint, drive, run_local,
}
use besu_interbank_demo.Decimal.{decimal, int_string, parse_digits, set_string, atoi}
use besu_interbank_demo.Wfusd.{wfusd}
use besu_interbank_demo.Base.Int.{mul_ℕ}
use besu_interbank_demo.Base.{
  List, [], ◌∷◌, Option, none, some, ◌≡◌, refl, ap, Bytes, utf8, bytes_eq,
}
use besu_interbank_demo.Base.Dict.{Dict}
use besu_interbank_demo.Base.Outcome.{Result, ok, err, Outcome, done, panic}
use besu_interbank_demo.Demo.Posts.{at_path}
use besu_interbank_demo.Demo.Scenario.{Report}
use besu_interbank_demo.Demo.Client.{Balances}
use besu_interbank_demo.Demo.Replies.{TxResult}
use besu_interbank_demo.Base.Int.{pos}
use besu_interbank_demo.Demo.Trades.{WritesReach, Traded, drive-Traded}
use besu_interbank_demo.DepositSvc.Service.{Service}
use besu_interbank_demo.Platform.Http.{Call, Response}
use besu_interbank_demo.Platform.Machine.{Machine}
use besu_interbank_demo.SignRouter.Server.{Server}
use besu_interbank_demo.SignRouter.Server as SignRouter
use besu_interbank_demo.Tests.Deposits.{machine, service_a, service_b}
use besu_interbank_demo.Tests.Fake.{FakeTx, fake_geth, delivered}
use besu_interbank_demo.Tests.Routers.{router_a, key_b, hex_a, hex_b}

abbrev router_b : Server fake_geth
router_b = record {
  label = utf8 "B";
  allowed = (key_b, record { priv = hex_b; address = hex_b }) ∷ [];
}

-- Where each URL leads.
abbrev gates : Dict (Server fake_geth × Bytes)
gates =
    (utf8 "http://localhost:7401/sign", (router_a, utf8 "/sign"))
    ∷ (utf8 "http://localhost:7402/sign", (router_b, utf8 "/sign"))
    ∷ (utf8 "http://localhost:7401/health", (router_a, utf8 "/health"))
    ∷ (utf8 "http://localhost:7402/health", (router_b, utf8 "/health"))
    ∷ []

abbrev desks : Dict (Service × Bytes)
desks =
    (utf8 "http://localhost:8401/health", (service_a, utf8 "/health"))
    ∷ (utf8 "http://localhost:8402/health", (service_b, utf8 "/health"))
    ∷ (utf8 "http://localhost:8401/info", (service_a, utf8 "/info"))
    ∷ (utf8 "http://localhost:8401/authorize", (service_a, utf8 "/authorize"))
    ∷ (utf8 "http://localhost:8401/mint", (service_a, utf8 "/mint"))
    ∷ (utf8 "http://localhost:8402/mint", (service_b, utf8 "/mint"))
    ∷ (utf8 "http://localhost:8402/transfer", (service_b, utf8 "/transfer"))
    ∷ []

abbrev at_gate : Option (Server fake_geth × Bytes) → Call → Result Response
at_gate none c = err (utf8 "connection refused")
at_gate (some (router, path)) c =
    delivered (SignRouter.handler fake_geth [] router (at_path machine path c))

-- The machine with its routers alone, on which the services run.
abbrev routers : Machine fake_geth
routers = record machine { http = λ c w. (at_gate (lookup c.url gates) c, w) }

abbrev at_desk : Option (Service × Bytes) → Call → List FakeTx → Result Response × List FakeTx
at_desk none c w = routers.http c w
at_desk (some (s, path)) c w =
    let o = DepositServer.handler routers s (at_path machine path c) w in (delivered o.0, o.1)

abbrev city : Machine fake_geth
city = record machine { http = λ c w. at_desk (lookup c.url desks) c w }

-- A mined call, with the block that it is in.
abbrev result : Bytes → Bytes → Bytes → TxResult
result op signer block = record {
  op = op;
  tx_hash = signer;
  status = utf8 "success";
  block_number = block;
  signed_by = signer;
}

abbrev balances : Balances city
balances = record { bank_b = utf8 "0"; merchant = utf8 "0"; supply = utf8 "7"; rl = utf8 "7" }

abbrev city_report : Report city
city_report = record {
  header = record { name = []; symbol = []; decimals = pos 7 };
  opening = balances;
  onboarded_bank =
      result (utf8 "authorize:transfer") hex_a (utf8 "1")
      ∷ result (utf8 "authorize:mint-recipient") hex_a (utf8 "2")
      ∷ [];
  onboarded_merchant =
      result (utf8 "authorize:transfer") hex_a (utf8 "3")
      ∷ result (utf8 "authorize:mint-recipient") hex_a (utf8 "4")
      ∷ [];
  mint = result (utf8 "mint") hex_a (utf8 "5");
  after_mint = balances;
  xfer = result (utf8 "transfer") hex_b (utf8 "6");
  after_transfer = balances;
  mint_refusal = some (utf8 "Bank B · Holder (holder) may not perform \"mint\" — requires issuer");
  key_status = 403;
}

-- Opens the program, for the runs below.
unfoldable whole_program : Unit {0}
unfolding bytes_eq mul_ℕ say silently lookup effects role_text role_eq env_or bank_a bank_b route
    write_err items string_field struct_fields sign_hash decode_sign_request sign_response_json
    endpoints handle_health sign_and_reply handle_sign handler nil_string low_byte string_or_empty
    call_method uint_value read_uint read_string balance_of token_info decode_sign_reply status_text
    sign_call read_reply router_sign estimated_gas sign_broadcast build_sign_broadcast require_role
    mint authorize_steps authorize_loop authorize transfer tx_result_json token_info_json
    DepositServer.endpoints to_amount_fields account_field decode_to_amount reply respond
    DepositServer.handle_health info_json reply_info handle_info handle_mint handle_authorize
    handle_transfer handle dispatch DepositServer.handler account_body to_amount_body decoded send
    get_json refusal_text read_response post_json is_healthy wait_loop wait_healthy
    Client.balance_of read_balances wrong_key_call sign_with_wrong_key tx_result_of_fields
    decode_tx_result tx_results_of_items decode_tx_results decode_supplies decode_info decode_header
    decode_token error_text wait_all show_balances Scenario.authorize onboard post_amount
    bank_b_cannot_mint drive decimal int_string set_string parse_digits atoi wfusd
whole_program = tt

drive-city : drive city ([], []) ≡ (done city_report, (drive city ([], [])).1)
unfolding whole_program
drive-city = refl

abbrev as_outcome : Result Response × List FakeTx → Outcome Response × List FakeTx
as_outcome (ok resp, w) = (done resp, w)
as_outcome (err e, w) = (panic, w)

reach : WritesReach city service_a service_b
unfolding whole_program
reach = record {
  authorizing_bank = λ w w' resp e. ap as_outcome e;
  authorizing_shop = λ w w' resp e. ap as_outcome e;
  minting = λ w w' resp e. ap as_outcome e;
  transferring = λ w w' resp e. ap as_outcome e;
}

drive-Traded_example : Traded city service_a service_b city_report [] (drive city ([], [])).1.1
drive-Traded_example =
    drive-Traded city service_a service_b reach [] [] (drive city ([], [])).1 city_report drive-city
