-- ===== src/Cmd/Mains.antt =====
-- cmd: the four binaries, up to the listener of each server. A fatal error is the text that is logged.
use besu_interbank_demo.Base.{◌++◌, none, some, Bytes, utf8}
use besu_interbank_demo.Base.Outcome.{M, Result, ok, err, raise, wrap}
use besu_interbank_demo.Base.Printing.{Printing}
use besu_interbank_demo.Cmd.{port_of, router_keys, router_label, deposit_svc}
use besu_interbank_demo.Demo.Scenario as Demo
use besu_interbank_demo.Demo.Scenario.{Report}
use besu_interbank_demo.DepositSvc.Server as DepositSvc
use besu_interbank_demo.DepositSvc.Service.{Service}
use besu_interbank_demo.Platform.Geth.{Geth}
use besu_interbank_demo.Platform.Machine.{Machine}
use besu_interbank_demo.SignRouter.Server as SignRouter
use besu_interbank_demo.Webui.Server as Webui

abbrev pub fatal : {A : Type 0} → Bytes → Result A → Result A
fatal prefix (ok a) = ok a
fatal prefix (err e) = err (prefix ++ e)

module _ {G : Geth} (m : Machine G) where
  unfoldable pub signing_router_main : Result (Bytes × SignRouter.Server G)
  signing_router_main = fatal (utf8 "signing-router: ") (
      SignRouter.run G (port_of 7401 (m.getenv (utf8 "PORT")))
        (router_label (m.getenv (utf8 "LABEL"))) (router_keys (m.getenv (utf8 "ROUTER_KEYS"))))

  unfoldable pub deposit_svc_main : M m.World (Bytes × Service)
  deposit_svc_main =
      let bank_id = m.getenv (utf8 "BANK_ID") in
      elim (deposit_svc m) [
        | none ↦ raise (
            utf8 "deposit-svc: set BANK_ID to one of bank-a, bank-b (got "
            ++ G.quote bank_id
            ++ utf8 ")")
        | some (bank, port) ↦ wrap (λ e. utf8 "deposit-svc: " ++ e) (DepositSvc.run m bank_id port)
      ]

  unfoldable pub webui_main : M m.World (Bytes × Webui.Server)
  webui_main = wrap (λ e. utf8 "webui: " ++ e) (Webui.run m (port_of 8080 (m.getenv (utf8 "PORT"))))

  unfoldable pub demo_main : Printing m.World (Report m)
  demo_main = wrap (λ e. utf8 "\n  ✗ " ++ e ++ utf8 "\n") (Demo.run m)
