-- ===== src/Tests/Town.antt =====
-- The demo against services that answer from a script, on a system that runs processes.
use besu_interbank_demo.Base.{
  ℕ, suc, Bool, true, false, List, [], ◌∷◌, ◌++◌, none, some, ◌≡◌, ◌≢◌, inl, inr, refl, Bytes, utf8,
  length, eqb, Bool-cases, if◌then◌else◌, ◌==◌, bytes_eq, arith,
}
use besu_interbank_demo.Base.Int.{pos}
use besu_interbank_demo.Base.Outcome.{ok, err, done, fail, effects}
use besu_interbank_demo.Base.Printing.{say, silently}
use besu_interbank_demo.Config.{bank_a, bank_b, merchant, env_or}
use besu_interbank_demo.Config.Deployment.{decode_deployment, address_field, uint64_field}
use besu_interbank_demo.Config.Load.{load_deployment}
use besu_interbank_demo.Demo.Processes.{ProcessLaws, RunOnly, run-ends_processes}
use besu_interbank_demo.Demo.Reconcile.{blank, unread_info_reconciles}
use besu_interbank_demo.Demo.Texts.{line, ok_mark, reconcile_text}
use besu_interbank_demo.Demo.Scenario.{
  Report, run, run_local, services, spawn, spawn_all, kill_all, deferring, wait_all, show_balances,
  authorize, onboard, post_amount, bank_b_cannot_mint, drive,
}
use besu_interbank_demo.Demo.Transcript.{RunPrinted, run-RunPrinted}
use besu_interbank_demo.Demo.Client.{
  Balances, decoded, send, get_json, refusal_text, read_response, post_json, is_healthy, wait_loop,
  wait_healthy, balance_of, read_balances, wrong_key_call, sign_with_wrong_key,
}
use besu_interbank_demo.Demo.Replies.{
  TxResult, tx_result_of_fields, decode_tx_result, tx_results_of_items, decode_tx_results,
  kept_string, decode_supplies, decode_info, decode_header, decode_token, decode_raw,
  decode_nothing, error_text,
}
use besu_interbank_demo.Decimal.{atoi}
use besu_interbank_demo.Wfusd.{wfusd}
use besu_interbank_demo.Platform.Http.{Response, write_json, write_err}
use besu_interbank_demo.Platform.Json.{
  Json, string, number, array, object, cons, nil, field, end, doc, struct_fields, struct_field,
  string_field,
}
use besu_interbank_demo.Platform.Machine.{Machine}
use besu_interbank_demo.Tests.Fake.{fake_geth}

-- An object that serves as a result, as the state of the token and as a balance.
abbrev answer : Json
answer = object (
    field (utf8 "op") (string (utf8 "mint")) (
      field (utf8 "txHash") (string (utf8 "0x0123456789abcdef0123456789")) (
        field (utf8 "status") (string (utf8 "success")) (
          field (utf8 "blockNumber") (string (utf8 "7")) (
            field (utf8 "signedBy") (string (utf8 "0xf39Fd6e51aad")) (
              field (utf8 "raw") (string (utf8 "750000000000")) (
                field (utf8 "token")
                  (object (
                    field (utf8 "name") (string (utf8 "Deposit")) (
                      field (utf8 "symbol") (string (utf8 "WFUSD")) (
                        field (utf8 "decimals") (number (utf8 "6")) (
                          field (utf8 "totalSupply") (string (utf8 "1000000000000")) (
                            field (utf8 "reserveLedgerSupply") (string (utf8 "1000000000000"))
                              end))))))
                  end)))))))

abbrev script : Bytes → Response
script url =
    if url == utf8 "http://localhost:8402/mint"
    then write_err 500 (utf8 "may not perform mint")
    else if url == utf8 "http://localhost:7401/sign"
    then write_err 403 (utf8 "key not held")
    else if url == utf8 "http://localhost:8401/authorize"
    then write_json 200 (array (cons answer (cons answer nil)))
    else write_json 200 answer

abbrev removed : ℕ → List ℕ → List ℕ
removed p [] = []
removed p (q ∷ qs) = let rest = removed p qs in if eqb p q then rest else q ∷ rest

abbrev has : List ℕ → ℕ → Bool
has [] p = false
has (q ∷ qs) p = let rest = has qs p in if eqb p q then true else rest

-- The world is the list of the processes that run.
abbrev town : Machine fake_geth
town = record {
  World = List ℕ;
  getenv = λ k. [];
  repo_root = utf8 "/repo";
  stat = λ path w. (err (utf8 "no such file"), w);
  read_file = λ path w. (ok (doc (object end)), w);
  unmarshal_address = λ j. none;
  json_error = λ b. utf8 "EOF";
  is_url = λ u. true;
  http = λ c w. (ok (script c.url), w);
  raw = λ b. [];
  bin_dir = λ w. (ok (utf8 "/bin"), w);
  start = λ bin env w. (ok (suc (length w)), suc (length w) ∷ w);
  kill = λ p w. (ok tt, removed p w);
  dial = λ url w. (ok tt, w);
  pending_nonce_at = λ a w. (ok 0, w);
  header_base_fee = λ w. (ok none, w);
  estimate_gas = λ msg w. (ok 100_000, w);
  send_transaction = λ tx w. (ok tt, w);
  wait_mined = λ tx w. (err (utf8 "not found"), w);
  call_contract = λ msg w. (ok [], w);
  block_number = λ w. (ok 0, w);
  block_by_number = λ n w. (err (utf8 "not found"), w);
  transaction_by_hash = λ h w. (err (utf8 "not found"), w);
  transaction_receipt = λ h w. (err (utf8 "not found"), w);
  header_by_hash = λ h w. (err (utf8 "not found"), w);
}

has-removed : (p q : ℕ) (w : List ℕ) → has (removed p w) q ≡ true → (q ≢ p) × (has w q ≡ true)
has-removed p q [] h = absurd (ground arith)
has-removed p q (r ∷ w) h = elim (Bool-cases (eqb p r)) [
  | inl same ↦ elim (Bool-cases (eqb r q)) [
    | inl found ↦ ground (arith, has-removed p q w)
    | inr other ↦ ground (arith, has-removed p q w)
  ]
  | inr kept ↦ elim (Bool-cases (eqb r q)) [
    | inl found ↦ ground (arith, has-removed p q w)
    | inr other ↦ ground (arith, has-removed p q w)
  ]
]

abbrev town_laws : ProcessLaws town
town_laws = record {
  runs = has;
  started = λ bin env w p q good r. elim (Bool-cases (eqb (suc (length w)) q)) [
    | inl same ↦ inl (ground arith)
    | inr other ↦ inr (ground arith)
  ];
  not_started = λ bin env w e q bad r. absurd (ground arith);
  killed = λ w p q r. has-removed p q w r;
  http_starts = λ c w q r. r;
  read_starts = λ path w q r. r;
  dir_starts = λ w q r. r;
}

run-ends_processes_example : RunOnly town town_laws [] (run town ([], [])).1.1
run-ends_processes_example = run-ends_processes town town_laws ([], []) λ q r. absurd (ground arith)

abbrev minted : TxResult
minted = record {
  op = utf8 "mint";
  tx_hash = utf8 "0x0123456789abcdef0123456789";
  status = utf8 "success";
  block_number = utf8 "7";
  signed_by = utf8 "0xf39Fd6e51aad";
}

abbrev balances : Balances town
balances = record {
  bank_b = utf8 "750000000000";
  merchant = utf8 "750000000000";
  supply = utf8 "1000000000000";
  rl = utf8 "1000000000000";
}

abbrev report : Report town
report = record {
  header = record { name = utf8 "Deposit"; symbol = utf8 "WFUSD"; decimals = pos 6 };
  opening = balances;
  onboarded_bank = minted ∷ minted ∷ [];
  onboarded_merchant = minted ∷ minted ∷ [];
  mint = minted;
  after_mint = balances;
  xfer = minted;
  after_transfer = balances;
  mint_refusal = some (utf8 "may not perform mint");
  key_status = 403;
}

run-town : run town ([], []) ≡ (done report, (run town ([], [])).1)
unfolding run run_local services spawn spawn_all kill_all deferring wait_all show_balances authorize
    onboard post_amount bank_b_cannot_mint drive say silently effects load_deployment
    decode_deployment address_field uint64_field decoded send get_json refusal_text read_response
    post_json is_healthy wait_loop wait_healthy balance_of read_balances wrong_key_call
    sign_with_wrong_key bank_a bank_b merchant env_or struct_fields struct_field string_field
    tx_result_of_fields decode_tx_result tx_results_of_items decode_tx_results kept_string
    decode_supplies decode_info decode_header decode_token decode_raw decode_nothing error_text
    write_json write_err wfusd atoi bytes_eq
run-town = refl

run-RunPrinted_example : RunPrinted town ([], []) (run town ([], [])).1 report
run-RunPrinted_example = run-RunPrinted town ([], []) (run town ([], [])).1 report run-town

-- The town while bank A's service does not answer /info.
abbrev dark : Machine fake_geth
dark = record town {
  http = λ c w.
      if c.url == utf8 "http://localhost:8401/info"
      then (err (utf8 "EOF"), w)
      else (ok (script c.url), w);
}

dark_bank_b : balance_of dark (bank_b dark).address [] ≡ (done (utf8 "750000000000"), [])
unfolding balance_of get_json send decoded effects bank_a bank_b env_or struct_fields string_field
    decode_raw write_json bytes_eq
dark_bank_b = refl

dark_merchant : balance_of dark (merchant dark) [] ≡ (done (utf8 "750000000000"), [])
unfolding balance_of get_json send decoded effects bank_a bank_b env_or struct_fields string_field
    decode_raw write_json merchant bytes_eq
dark_merchant = refl

dark_info :
    get_json dark ((bank_a dark).deposit_svc_url ++ utf8 "/info") decode_info []
    ≡ (fail (utf8 "EOF"), [])
unfolding get_json send effects bank_a env_or bytes_eq
dark_info = refl

unread_info_reconciles_example :
    (read_balances dark [] ≡ (done (blank dark (utf8 "750000000000") (utf8 "750000000000")), []))
    × (reconcile_text [] []
        ≡ line (ok_mark ++ utf8 " ReserveLedger backing 0 WFUSD == deposit-token supply 0 WFUSD"))
unread_info_reconciles_example =
    unread_info_reconciles dark [] [] [] [] (utf8 "750000000000") (utf8 "750000000000") (utf8 "EOF")
      dark_bank_b dark_merchant dark_info
