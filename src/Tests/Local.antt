-- ===== src/Tests/Local.antt =====
-- Local mode on a concrete machine.
use besu_interbank_demo.Base.{
  [], ◌∷◌, ◌++◌, ◌≡◌, ◌∙◌, ap, sym, refl, Bytes, utf8, bytes_eq, some, List, replicate,
}
use mathlib.Core.Path.{ap₂}
use besu_interbank_demo.Base.Dict.{insert, lookup}
use besu_interbank_demo.Base.Outcome.{Ext, ok, done, wrap, try, call, pure, lift, ◌>>=◌, ◌>>◌}
use besu_interbank_demo.Base.OptionDo as OptionDo
use besu_interbank_demo.Base.Runs.{pure-eq-done}
use besu_interbank_demo.Cmd.{
  port_of, router_keys, router_label, deposit_svc, nonempty_keys, split_commas, trim_space,
  trim_left, trim_right,
}
use besu_interbank_demo.Cmd.Local.{local_key_isolation, local_bank_b_cannot_mint}
use besu_interbank_demo.Cmd.Mains.{signing_router_main, deposit_svc_main}
use besu_interbank_demo.Cmd.Wiring.{IsLocal, local_wiring}
use besu_interbank_demo.Config.{holder, bank_a, bank_b, banks, env_or, rpc_url}
use besu_interbank_demo.Config.Deployment.{Deployment, decode_deployment}
use besu_interbank_demo.Config.Load.{load_deployment}
use besu_interbank_demo.Decimal.{decimal, int_string, atoi}
use besu_interbank_demo.Demo.Client.{sign_with_wrong_key}
use besu_interbank_demo.Demo.Scenario.{
  router_label_a, router_label_b, router_env, deposit_env, bank_b_cannot_mint,
}
use besu_interbank_demo.Demo.Trace.{mint_call, at_mint, one_unit}
use besu_interbank_demo.DepositSvc.Errors.{holder_mint_refused}
use besu_interbank_demo.DepositSvc.Requests.{refusal}
use besu_interbank_demo.DepositSvc.Server.{handler, run}
use besu_interbank_demo.DepositSvc.Service.{Service, new}
use besu_interbank_demo.Platform.Environ.{child, env_with, value_of}
use besu_interbank_demo.Platform.Http.{Call, Response, write_err}
use besu_interbank_demo.Platform.Json.{struct_fields, struct_field, doc, object, end}
use besu_interbank_demo.Platform.Machine.{Machine}
use besu_interbank_demo.SignRouter.Keystore.{load_key, keystore}
use besu_interbank_demo.SignRouter.Server.{Server, handle_sign}
use besu_interbank_demo.SignRouter.Listening.{ListensAt}
use besu_interbank_demo.SignRouter.Server as SignRouter
use besu_interbank_demo.Tests.Fake.{FakeTx, fake_geth, fake_machine, delivered, at_url_routed}
use besu_interbank_demo.Tests.Routers.{key_a, key_b, the_key_a}

-- The router that local mode starts for bank A, and for bank B.
abbrev local_router_a : Server fake_geth
local_router_a = record { label = utf8 "Bank A router"; allowed = (key_a, the_key_a) ∷ [] }

abbrev key_of_b : Bytes
key_of_b = utf8 "59c6995e998f97a5a0044966f0945389dc9e86dae88c7a8412f4603b6b78690d"

abbrev local_router_b : Server fake_geth
local_router_b = record {
  label = utf8 "Bank B router";
  allowed = (key_b, record { priv = key_of_b; address = key_of_b }) ∷ [];
}

-- A machine on which the demo runs: an empty environment, and a deployment file that is `{}`.
abbrev pub host : Machine fake_geth
host = record (fake_machine local_router_a) { read_file = λ path w. (ok (doc (object end)), w) }

main_a :
    signing_router_main (child host (router_env (bank_a host) router_label_a))
    ≡ ok (utf8 ":7401", local_router_a)
unfolding signing_router_main port_of router_label router_keys nonempty_keys split_commas trim_space
    trim_left trim_right atoi decimal int_string bank_a env_with value_of load_key keystore lookup
    insert bytes_eq SignRouter.run SignRouter.new SignRouter.load_keys
main_a = refl

main_b :
    signing_router_main (child host (router_env (bank_b host) router_label_b))
    ≡ ok (utf8 ":7402", local_router_b)
unfolding signing_router_main port_of router_label router_keys nonempty_keys split_commas trim_space
    trim_left trim_right atoi decimal int_string bank_b env_with value_of load_key keystore lookup
    insert bytes_eq SignRouter.run SignRouter.new SignRouter.load_keys
main_b = refl

host_listens : ListensAt host (bank_a host).signing_router_url local_router_a
host_listens = record {
  visited = [];
  url = λ path served. refl;
  reaches = λ c path served at w resp e.
      ap (λ o. (delivered o, w)) (at_url_routed local_router_a c _ path served at ∙ e);
}

local_key_isolation_example : sign_with_wrong_key host [] ≡ (done 403, [])
local_key_isolation_example =
    local_key_isolation host {router = local_router_a} main_a host_listens []

abbrev pub zero_deployment : Deployment
zero_deployment = record {
  auth_registry = replicate 20 0;
  reserve_ledger = replicate 20 0;
  token_authority = replicate 20 0;
  token_handler = replicate 20 0;
  deposit_token = replicate 20 0;
  transfer_policy_id = 0;
  rl_mint_policy_id = 0;
  sc_mint_policy_id = 0;
  chain_id = 0;
}

-- The deposit services that local mode starts.
abbrev local_service_a : Service
local_service_a = record {
  bank = bank_a (child host (deposit_env (bank_a host)));
  dep = zero_deployment;
}

abbrev local_service_b : Service
local_service_b = record {
  bank = bank_b (child host (deposit_env (bank_b host)));
  dep = zero_deployment;
}

deposit_main_a :
    deposit_svc_main (child host (deposit_env (bank_a host))) []
    ≡ (done (utf8 ":8401", local_service_a), [])
unfolding deposit_svc_main deposit_svc port_of lookup banks bank_a bank_b bytes_eq env_with value_of
    run load_deployment decode_deployment struct_fields struct_field new rpc_url env_or decimal
    int_string wrap try call lift pure ◌>>=◌ ◌>>◌ OptionDo.◌>>=◌
deposit_main_a = refl

-- The host, its network set.
abbrev wired : (Call → Ext (List FakeTx) Response) → Machine fake_geth
wired net = record host { http = net }

deposit_main_b :
    (net : Call → Ext (List FakeTx) Response)
    → deposit_svc_main (child (wired net) (deposit_env (bank_b (wired net)))) []
      ≡ (done (utf8 ":8402", local_service_b), [])
unfolding deposit_svc_main deposit_svc port_of lookup banks bank_a bank_b bytes_eq env_with value_of
    run load_deployment decode_deployment struct_fields struct_field new rpc_url env_or decimal
    int_string wrap try call lift pure ◌>>=◌ ◌>>◌ OptionDo.◌>>=◌
deposit_main_b net = refl

host-IsLocal : IsLocal host
host-IsLocal = record {
  router_a = refl;
  router_b = refl;
  deposit_a = refl;
  deposit_b = refl;
  port = refl;
}

local_wiring_example :
    ((bank_a host).signing_router_url ≡ utf8 "http://localhost" ++ utf8 ":7401")
    × ((bank_b host).signing_router_url ≡ utf8 "http://localhost" ++ utf8 ":7402")
    × ((bank_a host).deposit_svc_url ≡ utf8 "http://localhost" ++ utf8 ":8401")
    × ((bank_b host).deposit_svc_url ≡ utf8 "http://localhost" ++ utf8 ":8402")
local_wiring_example =
    local_wiring host host-IsLocal [] [] [] [] {router_a = local_router_a}
      {router_b = local_router_b} {svc_a = local_service_a} {svc_b = local_service_b} main_a main_b
      deposit_main_a (deposit_main_b host.http)

-- A host whose HTTP calls all get the refusal of bank B's service.
abbrev refusing : Machine fake_geth
refusing = wired (λ c w. (ok (write_err 400 (refusal host local_service_b (utf8 "mint"))), w))

is_holder_b : local_service_b.bank.role ≡ holder
unfolding bank_b
is_holder_b = refl

reaches_b :
    (w w' : List FakeTx) (resp : Response)
    → handler
        (child refusing (deposit_env (bank_b refusing)))
        local_service_b
        (at_mint refusing (mint_call refusing))
        w
      ≡ (done resp, w')
    → refusing.http (mint_call refusing) w ≡ (ok resp, w')
reaches_b w w' resp e =
    let refused =
      holder_mint_refused (child refusing (deposit_env (bank_b refusing))) local_service_b
        (at_mint refusing (mint_call refusing)) w is_holder_b refl refl (one_unit refusing) in
    let (same, world) =
      pure-eq-done (write_err 400 (refusal host local_service_b (utf8 "mint"))) w w'
        (sym refused ∙ e) in
    ap₂ (λ r v. (ok r, v)) (sym same) world

local_bank_b_cannot_mint_example : bank_b_cannot_mint refusing [] ≡ (
  done (
      some
        (refusal (child refusing (deposit_env (bank_b refusing))) local_service_b (utf8 "mint"))),
  [],
)
local_bank_b_cannot_mint_example =
    local_bank_b_cannot_mint refusing [] [] {svc = local_service_b} (deposit_main_b refusing.http)
      refl reaches_b []
