-- ===== src/Demo/Scenario.antt =====
-- internal/demo/demo.go: Run, with what it prints, and with what it has read as its result. The output of the
-- child processes, which comes at any time, is that of Console.
use besu_interbank_demo.Base.{
  ℕ, List, [], ◌∷◌, ◌++◌, Option, none, some, Bytes, utf8, ◌==◌, if◌then◌else◌,
}
use besu_interbank_demo.Base.Outcome.{M, Result, ok, err, pure, crash, call, try, ◌>>=◌, ◌>>◌}
use besu_interbank_demo.Base.Printing.{Printing, say, silently}
use besu_interbank_demo.Demo.Console.{amber, teal}
use besu_interbank_demo.Demo.Texts.{
  banner, header_text, balances_text, onboarded_text, results_text, result_text, authorize_heading,
  mint_heading, transfer_heading, checks_heading, reconcile_text, mint_check_text, key_check_text,
  farewell, failed_start_text,
}
use besu_interbank_demo.Config.{Bank, bank_a, bank_b, merchant}
use besu_interbank_demo.Config.Load.{load_deployment}
use besu_interbank_demo.Decimal.{decimal}
use besu_interbank_demo.Demo.Replies.{
  TxResult, TokenHeader, decode_token, decode_tx_result, decode_tx_results, decode_nothing,
}
use besu_interbank_demo.Demo.Client.{
  account_body, to_amount_body, get_json, post_json, wait_healthy, Balances, read_balances,
  sign_with_wrong_key,
}
use besu_interbank_demo.Platform.Abi.{Address}
use besu_interbank_demo.Platform.Geth.{Geth}
use besu_interbank_demo.Platform.Machine.{Machine}
use besu_interbank_demo.Wfusd.{wfusd}

abbrev pub router_label_a : Bytes
router_label_a = utf8 "Bank A router"

abbrev pub router_label_b : Bytes
router_label_b = utf8 "Bank B router"

-- What `spawn` adds to the environment of a router, and of a deposit service.
abbrev pub router_env : Bank → Bytes → List Bytes
router_env bank label =
    (utf8 "PORT=" ++ decimal bank.signing_router_port)
    ∷ (utf8 "LABEL=" ++ label)
    ∷ (utf8 "ROUTER_KEYS=" ++ bank.key_id)
    ∷ []

abbrev pub deposit_env : Bank → List Bytes
deposit_env bank = (utf8 "BANK_ID=" ++ bank.id) ∷ []

module _ {G : Geth} (m : Machine G) where
  -- What the demo has read and checked when it is done.
  pub record Report : Type 0 where
    pub header : TokenHeader
    pub opening : Balances m
    pub onboarded_bank : List TxResult
    pub onboarded_merchant : List TxResult
    pub mint : TxResult
    pub after_mint : Balances m
    pub xfer : TxResult
    pub after_transfer : Balances m
    -- the refusal that bank B gets for its mint, and the status of bank A's router for bank B's key
    pub mint_refusal : Option Bytes
    pub key_status : ℕ

  -- The four services that local mode starts: the binary, and what it adds to the environment.
  unfoldable pub services : List (Bytes × List Bytes)
  services =
      (utf8 "signing-router", router_env (bank_a m) router_label_a)
      ∷ (utf8 "signing-router", router_env (bank_b m) router_label_b)
      ∷ (utf8 "deposit-svc", deposit_env (bank_a m))
      ∷ (utf8 "deposit-svc", deposit_env (bank_b m))
      ∷ []

  -- A service that does not start is only reported.
  unfoldable pub spawn : Bytes → Bytes → List Bytes → Printing m.World (Option ℕ)
  spawn dir bin env =
      try (silently (call (m.start (dir ++ utf8 "/" ++ bin) env)))
        λ r. elim r [ ok p ↦ pure (some p) | err e ↦ say (failed_start_text bin e) >> pure none ]

  abbrev pub started : Option ℕ → List ℕ → List ℕ
  started none procs = procs
  started (some p) procs = procs ++ p ∷ []

  unfoldable pub spawn_all : Bytes → List (Bytes × List Bytes) → List ℕ → Printing m.World (List ℕ)
  spawn_all dir [] procs = pure procs
  spawn_all dir ((bin, env) ∷ rest) procs =
      spawn dir bin env >>= λ p. spawn_all dir rest (started p procs)

  -- The deferred end of the started processes, however the body ends.
  unfoldable pub kill_all : List ℕ → m.World → m.World
  kill_all [] w = w
  kill_all (p ∷ ps) w = kill_all ps (m.kill p w).1

  unfoldable pub deferring : {A : Type 0} → List ℕ → Printing m.World A → Printing m.World A
  deferring procs body s = let r = body s in (r.0, (r.1.0, kill_all procs r.1.1))

  unfoldable pub wait_all : List Bytes → M m.World (Unit {0})
  wait_all [] = pure tt
  wait_all (u ∷ us) = wait_healthy m u >> wait_all us

  abbrev pub service_urls : List Bytes
  service_urls =
      (bank_a m).signing_router_url
      ∷ (bank_b m).signing_router_url
      ∷ (bank_a m).deposit_svc_url
      ∷ (bank_b m).deposit_svc_url
      ∷ []

  unfoldable pub show_balances : Bytes → Printing m.World (Balances m)
  show_balances title = do
    b ← silently (read_balances m)
    say (balances_text m title b.bank_b b.merchant b.supply b.rl)
    pure b

  unfoldable pub authorize : Address → M m.World (List TxResult)
  authorize account =
      post_json m ((bank_a m).deposit_svc_url ++ utf8 "/authorize")
        (account_body (G.address_hex account)) decode_tx_results

  -- One round of the onboarding.
  unfoldable pub onboard : Bytes → Address → Printing m.World (List TxResult)
  onboard who account = do
    res ← silently (authorize account)
    say (onboarded_text who)
    say (results_text amber res)
    pure res

  -- A post of a recipient and an amount in whole tokens; `wfusd` panics on a text that is no number.
  unfoldable pub post_amount : Bytes → Address → Bytes → M m.World TxResult
  post_amount url to whole = elim (wfusd whole) [
    | none ↦ crash
    | some amount ↦ post_json m url (to_amount_body (G.address_hex to) amount) decode_tx_result
  ]

  abbrev refusal_of : Result (Unit {0}) → Option Bytes
  refusal_of (ok _) = none
  refusal_of (err e) = some e

  -- Bank B's service is asked to mint one base unit: `some` error is its refusal.
  unfoldable pub bank_b_cannot_mint : M m.World (Option Bytes)
  bank_b_cannot_mint =
      try
        (post_json m ((bank_b m).deposit_svc_url ++ utf8 "/mint")
          (to_amount_body (G.address_hex (bank_b m).address) (utf8 "1")) decode_nothing)
        λ r. pure (refusal_of r)

  -- The scenario, once the services run.
  unfoldable pub drive : Printing m.World Report
  drive = do
    silently (wait_all service_urls)
    header ← silently (get_json m ((bank_a m).deposit_svc_url ++ utf8 "/info") decode_token)
    say (header_text header)
    opening ← show_balances (utf8 "Opening balances")
    say authorize_heading
    bank ← onboard (utf8 "Bank B wallet") (bank_b m).address
    shop ← onboard (utf8 "Merchant") (merchant m)
    say mint_heading
    minted ← silently (
        post_amount ((bank_a m).deposit_svc_url ++ utf8 "/mint") (bank_b m).address
          (utf8 "1000000"))
    say (result_text amber minted)
    after_mint ← show_balances (utf8 "After mint")
    say transfer_heading
    moved ←
        silently (
          post_amount ((bank_b m).deposit_svc_url ++ utf8 "/transfer") (merchant m) (utf8 "250000"))
    say (result_text teal moved)
    after_transfer ← show_balances (utf8 "After transfer")
    say checks_heading
    say (reconcile_text after_transfer.supply after_transfer.rl)
    refusal ← silently bank_b_cannot_mint
    say (mint_check_text refusal)
    status ← silently (sign_with_wrong_key m)
    say (key_check_text status)
    say farewell
    pure (record {
      header = header;
      opening = opening;
      onboarded_bank = bank;
      onboarded_merchant = shop;
      mint = minted;
      after_mint = after_mint;
      xfer = moved;
      after_transfer = after_transfer;
      mint_refusal = refusal;
      key_status = status;
    })

  unfoldable pub run_local : Printing m.World Report
  run_local = do
    dir ← silently (call m.bin_dir)
    procs ← spawn_all dir services []
    deferring procs drive

  unfoldable pub run : Printing m.World Report
  run = do
    dep ← silently (load_deployment m)
    say (banner m dep)
    if m.getenv (utf8 "DEMO_SPAWN") == utf8 "false" then drive else run_local
