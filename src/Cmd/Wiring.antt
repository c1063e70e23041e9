-- ===== src/Cmd/Wiring.antt =====
-- internal/demo and cmd: where the services of local mode listen, and where the demo looks for them.
use besu_interbank_demo.Base.{
  ℕ, [], ◌∷◌, ◌++◌, some, ◌≡◌, ◌≢◌, ◌∙◌, ap, sym, refl, Bytes, utf8, bytes_eq, arith,
}
use besu_interbank_demo.Base.Dict.{lookup}
use besu_interbank_demo.Base.Outcome.{ok, done, wrap}
use besu_interbank_demo.Base.Runs.{wrap-eq-done}
use besu_interbank_demo.Cmd.{port_of, deposit_svc}
use besu_interbank_demo.Cmd.Local.{one_key_a, one_key_b, port_a, port_b, started_b}
use besu_interbank_demo.Cmd.Mains.{signing_router_main, deposit_svc_main}
use besu_interbank_demo.Cmd.Spawned.{port_of-eq-atoi, spawned_router}
use besu_interbank_demo.Config.{bank_a, bank_b, banks, env_or}
use besu_interbank_demo.Decimal.{decimal, int_string}
use besu_interbank_demo.Demo.Scenario.{router_label_a, router_label_b, router_env, deposit_env}
use besu_interbank_demo.DepositSvc.Server.{run}
use besu_interbank_demo.DepositSvc.Service.{Service}
use besu_interbank_demo.DepositSvc.Startup.{run-IsOfBank}
use besu_interbank_demo.Platform.Environ.{child, env_with, value_of}
use besu_interbank_demo.Platform.Geth.{Geth}
use besu_interbank_demo.Platform.Machine.{Machine}
use besu_interbank_demo.SignRouter.Server.{Server}

module _ {G : Geth} (m : Machine G) where
  bank_a_listed :
      lookup (bank_a m).id (banks (child m (deposit_env (bank_a m))))
      ≡ some (bank_a (child m (deposit_env (bank_a m))))
  unfolding lookup banks bank_a bank_b bytes_eq
  bank_a_listed = refl

  main_of_a :
      (w : m.World)
      → deposit_svc_main (child m (deposit_env (bank_a m))) w
        ≡ wrap
            (λ e. utf8 "deposit-svc: " ++ e)
            (run
              (child m (deposit_env (bank_a m)))
              (bank_a m).id
              (port_of 8401 (m.getenv (utf8 "PORT"))))
            w
  unfolding deposit_svc_main deposit_svc lookup banks bank_a bank_b bytes_eq env_with value_of
  main_of_a w = refl

  at_port_a :
      (w w' : m.World) {addr : Bytes} {svc : Service}
      → deposit_svc_main (child m (deposit_env (bank_a m))) w ≡ (done (addr, svc), w')
      → addr ≡ b':' ∷ int_string (port_of 8401 (m.getenv (utf8 "PORT")))
  at_port_a w w' started =
      (run-IsOfBank (child m (deposit_env (bank_a m))) (bank_a m).id
        (port_of 8401 (m.getenv (utf8 "PORT"))) w w'
        (wrap-eq-done _ _ w w' (sym (main_of_a w) ∙ started))).1

  -- The environment sets none of the URLs that the banks are reached at, and no port.
  pub record IsLocal : Type 0 where
    pub router_a : m.getenv (utf8 "BANKA_SIGNING_ROUTER_URL") ≡ []
    pub router_b : m.getenv (utf8 "BANKB_SIGNING_ROUTER_URL") ≡ []
    pub deposit_a : m.getenv (utf8 "BANKA_DEPOSIT_URL") ≡ []
    pub deposit_b : m.getenv (utf8 "BANKB_DEPOSIT_URL") ≡ []
    pub port : m.getenv (utf8 "PORT") ≡ []

  env_or-unset : (key default : Bytes) → m.getenv key ≡ [] → env_or m key default ≡ default
  unfolding env_or bytes_eq
  env_or-unset key default unset = rw (unset) refl

  abbrev at_localhost : ℕ → Bytes
  at_localhost n = utf8 "http://localhost" ++ b':' ∷ decimal n

  url_router_a : IsLocal → (bank_a m).signing_router_url ≡ at_localhost 7401
  unfolding bank_a decimal
  url_router_a l = env_or-unset _ _ l.router_a

  url_router_b : IsLocal → (bank_b m).signing_router_url ≡ at_localhost 7402
  unfolding bank_b decimal
  url_router_b l = env_or-unset _ _ l.router_b

  url_deposit_a : IsLocal → (bank_a m).deposit_svc_url ≡ at_localhost 8401
  unfolding bank_a decimal
  url_deposit_a l = env_or-unset _ _ l.deposit_a

  url_deposit_b : IsLocal → (bank_b m).deposit_svc_url ≡ at_localhost 8402
  unfolding bank_b decimal
  url_deposit_b l = env_or-unset _ _ l.deposit_b

  port_of-unset :
      (default : ℕ)
      → IsLocal
      → b':' ∷ int_string (port_of default (m.getenv (utf8 "PORT"))) ≡ b':' ∷ decimal default
  unfolding port_of int_string
  port_of-unset default l = ap (λ v. b':' ∷ int_string (port_of default v)) l.port

  router_a_address :
      {addr : Bytes} {router : Server G}
      → signing_router_main (child m (router_env (bank_a m) router_label_a)) ≡ ok (addr, router)
      → addr ≡ b':' ∷ decimal 7401
  router_a_address started =
      (spawned_router m (bank_a m) router_label_a (one_key_a m) (ground arith)
        (ground (arith, port_a m)) started).0
      ∙ ap (λ n. b':' ∷ decimal n) (port_a m)

  router_b_address :
      {addr : Bytes} {router : Server G}
      → signing_router_main (child m (router_env (bank_b m) router_label_b)) ≡ ok (addr, router)
      → addr ≡ b':' ∷ decimal 7402
  router_b_address started =
      (spawned_router m (bank_b m) router_label_b (one_key_b m) (ground arith)
        (ground (arith, port_b m)) started).0
      ∙ ap (λ n. b':' ∷ decimal n) (port_b m)

  located :
      {url addr : Bytes} (n : ℕ)
      → url ≡ at_localhost n
      → addr ≡ b':' ∷ decimal n
      → url ≡ utf8 "http://localhost" ++ addr
  located n at_url at_addr = at_url ∙ sym (ap (λ a. utf8 "http://localhost" ++ a) at_addr)

  -- The four services that local mode starts listen at the URLs that the demo and the banks use, where the
  -- environment sets none of these URLs, nor PORT.
  pub local_wiring :
      IsLocal
      → (w w' v v' : m.World) {addr_a addr_b addr_c addr_d : Bytes} {router_a router_b : Server G}
        {svc_a svc_b : Service}
      → signing_router_main (child m (router_env (bank_a m) router_label_a)) ≡ ok (addr_a, router_a)
      → signing_router_main (child m (router_env (bank_b m) router_label_b)) ≡ ok (addr_b, router_b)
      → deposit_svc_main (child m (deposit_env (bank_a m))) w ≡ (done (addr_c, svc_a), w')
      → deposit_svc_main (child m (deposit_env (bank_b m))) v ≡ (done (addr_d, svc_b), v')
      → ((bank_a m).signing_router_url ≡ utf8 "http://localhost" ++ addr_a)
        × ((bank_b m).signing_router_url ≡ utf8 "http://localhost" ++ addr_b)
        × ((bank_a m).deposit_svc_url ≡ utf8 "http://localhost" ++ addr_c)
        × ((bank_b m).deposit_svc_url ≡ utf8 "http://localhost" ++ addr_d)
  local_wiring l w w' v v' {svc_a = svc_a} {svc_b = svc_b} from_a from_b from_c from_d = (
    located 7401 (url_router_a l) (router_a_address from_a),
    located 7402 (url_router_b l) (router_b_address from_b),
    located 8401 (url_deposit_a l) (at_port_a w w' {svc = svc_a} from_c ∙ port_of-unset 8401 l),
    located 8402 (url_deposit_b l)
        ((started_b m v v' {svc = svc_b} from_d).1 ∙ port_of-unset 8402 l),
  )

  -- The demo passes its own PORT on to both deposit services of local mode: where PORT is set, the two
  -- listen on one and the same port.
  pub deposit_services_share_port :
      m.getenv (utf8 "PORT") ≢ []
      → (w w' v v' : m.World) {addr_a addr_b : Bytes} {svc_a svc_b : Service}
      → deposit_svc_main (child m (deposit_env (bank_a m))) w ≡ (done (addr_a, svc_a), w')
      → deposit_svc_main (child m (deposit_env (bank_b m))) v ≡ (done (addr_b, svc_b), v')
      → addr_a ≡ addr_b
  deposit_services_share_port is_set w w' v v' {svc_a = svc_a} {svc_b = svc_b} from_a from_b =
      at_port_a w w' {svc = svc_a} from_a
      ∙ ap (λ p. b':' ∷ int_string p)
          (port_of-eq-atoi 8401 (m.getenv (utf8 "PORT")) is_set
            ∙ sym (port_of-eq-atoi 8402 (m.getenv (utf8 "PORT")) is_set))
      ∙ sym (started_b m v v' {svc = svc_b} from_b).1
