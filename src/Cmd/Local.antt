-- ===== src/Cmd/Local.antt =====
-- internal/demo and cmd: the demo's two refusals, where the services are those that its local mode starts.
use besu_interbank_demo.Base.{
  true, false, [], ◌∷◌, ◌++◌, some, ◌≡◌, ◌∙◌, ap, sym, refl, Bytes, utf8, bytes_eq, some, elem,
  arith,
}
use besu_interbank_demo.Base.Dict.{lookup}
use besu_interbank_demo.Base.Outcome.{ok, done, wrap}
use besu_interbank_demo.Base.Runs.{wrap-eq-done}
use besu_interbank_demo.Cmd.{
  port_of, router_keys, deposit_svc, nonempty_keys, split_commas, trim_space, trim_left, trim_right,
}
use besu_interbank_demo.Cmd.Mains.{signing_router_main, deposit_svc_main}
use besu_interbank_demo.Cmd.Spawned.{spawned_router}
use besu_interbank_demo.Config.{holder, bank_a, bank_b, banks}
use besu_interbank_demo.Decimal.{int_string}
use besu_interbank_demo.Demo.Client.{sign_with_wrong_key}
use besu_interbank_demo.Demo.Scenario.{router_label_a, router_env, deposit_env, bank_b_cannot_mint}
use besu_interbank_demo.Demo.Trace.{
  sign_with_wrong_key_403, bank_b_cannot_mint_refused, one_unit, mint_call, at_mint,
}
use besu_interbank_demo.DepositSvc.Server.{handler, run}
use besu_interbank_demo.DepositSvc.Errors.{holder_mint_refused}
use besu_interbank_demo.DepositSvc.Requests.{refusal, refusal-ne-nil}
use besu_interbank_demo.DepositSvc.Service.{Service}
use besu_interbank_demo.DepositSvc.Startup.{run-IsOfBank}
use besu_interbank_demo.Platform.Environ.{child, env_with, value_of}
use besu_interbank_demo.Platform.Geth.{Geth}
use besu_interbank_demo.Platform.Http.{Response}
use besu_interbank_demo.Platform.Machine.{Machine}
use besu_interbank_demo.SignRouter.Listening.{ListensAt}
use besu_interbank_demo.SignRouter.Server.{Server}

module _ {G : Geth} (m : Machine G) where
  pub one_key_a : router_keys (bank_a m).key_id ≡ (bank_a m).key_id ∷ []
  unfolding router_keys nonempty_keys split_commas trim_space trim_left trim_right bank_a
  one_key_a = refl

  other_key : elem (bank_b m).key_id ((bank_a m).key_id ∷ []) ≡ false
  unfolding elem bank_a bank_b bytes_eq
  other_key = refl

  pub port_a : (bank_a m).signing_router_port ≡ 7401
  unfolding bank_a
  port_a = refl

  pub one_key_b : router_keys (bank_b m).key_id ≡ (bank_b m).key_id ∷ []
  unfolding router_keys nonempty_keys split_commas trim_space trim_left trim_right bank_b
  one_key_b = refl

  pub port_b : (bank_b m).signing_router_port ≡ 7402
  unfolding bank_b
  port_b = refl

  -- Key isolation in local mode: where the router that the demo starts for bank A listens at bank A's
  -- router URL, the demo's request for a signature with bank B's key gets 403, and the world is as it
  -- was.
  pub local_key_isolation :
      {addr : Bytes} {router : Server G}
      → signing_router_main (child m (router_env (bank_a m) router_label_a)) ≡ ok (addr, router)
      → ListensAt m (bank_a m).signing_router_url router
      → (w : m.World) → sign_with_wrong_key m w ≡ (done 403, w)
  local_key_isolation {router = router} started there w =
      let made =
        (spawned_router m (bank_a m) router_label_a one_key_a (ground arith)
          (ground (arith, port_a)) started).1 in
      sign_with_wrong_key_403 m router_label_a ((bank_a m).key_id ∷ []) {router = router} made
        other_key there w

  -- A deposit service's machine, as local mode starts it for bank B.
  abbrev at_b : Machine G
  at_b = child m (deposit_env (bank_b m))

  bank_b_listed : lookup (bank_b m).id (banks at_b) ≡ some (bank_b at_b)
  unfolding lookup banks bank_a bank_b bytes_eq
  bank_b_listed = refl

  main_of_b :
      (w : m.World)
      → deposit_svc_main at_b w
        ≡ wrap
            (λ e. utf8 "deposit-svc: " ++ e)
            (run at_b (bank_b m).id (port_of 8402 (m.getenv (utf8 "PORT"))))
            w
  unfolding deposit_svc_main deposit_svc lookup banks bank_a bank_b bytes_eq env_with value_of
  main_of_b w = refl

  -- The service that local mode starts for bank B is a holder's.
  pub started_b :
      (w w' : m.World) {addr : Bytes} {svc : Service}
      → deposit_svc_main at_b w ≡ (done (addr, svc), w')
      → (svc.bank ≡ bank_b at_b)
        × (addr ≡ b':' ∷ int_string (port_of 8402 (m.getenv (utf8 "PORT"))))
  started_b w w' started =
      let (listed, at_port) =
        run-IsOfBank at_b (bank_b m).id (port_of 8402 (m.getenv (utf8 "PORT"))) w w'
          (wrap-eq-done _ _ w w' (sym (main_of_b w) ∙ started)) in
      (ground (arith, listed, bank_b_listed), at_port)

  role_b : (bank_b at_b).role ≡ holder
  unfolding bank_b
  role_b = refl

  -- In local mode bank B cannot mint: where bank B's service URL parses and reaches the service that the
  -- demo starts for bank B, the demo's mint for bank B gets that service's refusal, and the world is as it
  -- was.
  pub local_bank_b_cannot_mint :
      (v v' : m.World) {addr : Bytes} {svc : Service}
      → deposit_svc_main (child m (deposit_env (bank_b m))) v ≡ (done (addr, svc), v')
      → m.is_url (mint_call m).url ≡ true
      → ((w w' : m.World) (resp : Response)
          → handler (child m (deposit_env (bank_b m))) svc (at_mint m (mint_call m)) w
            ≡ (done resp, w')
          → m.http (mint_call m) w ≡ (ok resp, w'))
      → (w : m.World)
      → bank_b_cannot_mint m w
        ≡ (done (some (refusal (child m (deposit_env (bank_b m))) svc (utf8 "mint"))), w)
  local_bank_b_cannot_mint v v' {svc = svc} started url reaches w =
      let is_holder = ap (λ b. b.role) (started_b v v' started).0 ∙ role_b in
      let refused =
        holder_mint_refused at_b svc (at_mint m (mint_call m)) w is_holder refl refl (one_unit m) in
      bank_b_cannot_mint_refused m (refusal at_b svc (utf8 "mint")) w
        (refusal-ne-nil at_b svc (utf8 "mint")) url (reaches w w _ refused)
