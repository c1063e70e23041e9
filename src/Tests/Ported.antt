-- ===== src/Tests/Ported.antt =====
-- Local mode where the environment sets PORT.
use besu_interbank_demo.Base.{if◌then◌else◌, ◌==◌, [], ◌≡◌, ◌≢◌, refl, Bytes, utf8, bytes_eq}
use mathlib.Core.List.{cons-ne-nil}
use besu_interbank_demo.Base.Dict.{lookup}
use besu_interbank_demo.Base.Outcome.{done, wrap, try, call, pure, lift, ◌>>=◌, ◌>>◌}
use besu_interbank_demo.Base.OptionDo as OptionDo
use besu_interbank_demo.Cmd.{port_of, deposit_svc}
use besu_interbank_demo.Cmd.Mains.{deposit_svc_main}
use besu_interbank_demo.Cmd.Wiring.{deposit_services_share_port}
use besu_interbank_demo.Config.{bank_a, bank_b, banks, env_or, rpc_url}
use besu_interbank_demo.Config.Deployment.{decode_deployment}
use besu_interbank_demo.Config.Load.{load_deployment}
use besu_interbank_demo.Decimal.{decimal, int_string, atoi}
use besu_interbank_demo.Demo.Scenario.{deposit_env}
use besu_interbank_demo.DepositSvc.Server.{run}
use besu_interbank_demo.DepositSvc.Service.{new}
use besu_interbank_demo.Platform.Environ.{child, env_with, value_of}
use besu_interbank_demo.Platform.Json.{struct_fields, struct_field}
use besu_interbank_demo.Platform.Machine.{Machine}
use besu_interbank_demo.Tests.Fake.{fake_geth}
use besu_interbank_demo.Tests.Local.{host, zero_deployment}

-- A host on which PORT is 9000.
abbrev port_9000 : Bytes → Bytes
port_9000 key = if key == utf8 "PORT" then utf8 "9000" else []

abbrev ported : Machine fake_geth
ported = record host { getenv = port_9000 }

started_ported_a : deposit_svc_main (child ported (deposit_env (bank_a ported))) [] ≡ (
  done (
    utf8 ":9000",
    record { bank = bank_a (child ported (deposit_env (bank_a ported))); dep = zero_deployment },
  ),
  [],
)
unfolding deposit_svc_main deposit_svc port_of lookup banks bank_a bank_b bytes_eq env_with value_of
    run load_deployment decode_deployment struct_fields struct_field new rpc_url env_or decimal
    int_string wrap try call lift pure ◌>>=◌ ◌>>◌ OptionDo.◌>>=◌ atoi
started_ported_a = refl

started_ported_b : deposit_svc_main (child ported (deposit_env (bank_b ported))) [] ≡ (
  done (
    utf8 ":9000",
    record { bank = bank_b (child ported (deposit_env (bank_b ported))); dep = zero_deployment },
  ),
  [],
)
unfolding deposit_svc_main deposit_svc port_of lookup banks bank_a bank_b bytes_eq env_with value_of
    run load_deployment decode_deployment struct_fields struct_field new rpc_url env_or decimal
    int_string wrap try call lift pure ◌>>=◌ ◌>>◌ OptionDo.◌>>=◌ atoi
started_ported_b = refl

port_is_set : ported.getenv (utf8 "PORT") ≢ []
unfolding bytes_eq
port_is_set = cons-ne-nil _ _

deposit_services_share_port_example : utf8 ":9000" ≡ utf8 ":9000"
deposit_services_share_port_example =
    deposit_services_share_port ported port_is_set [] [] [] []
      {svc_a = record {
        bank = bank_a (child ported (deposit_env (bank_a ported)));
        dep = zero_deployment;
      }}
      {svc_b = record {
        bank = bank_b (child ported (deposit_env (bank_b ported)));
        dep = zero_deployment;
      }}
      started_ported_a started_ported_b
