-- ===== src/DepositSvc/Tasks/Served.antt =====
-- internal/depositsvc/server.go: every request, handled alone.
use besu_interbank_demo.Base.{Option-cases, inl, inr, ◌≡◌}
use besu_interbank_demo.Base.Outcome.{Result, ok, err, Result-cases}
use besu_interbank_demo.Base.Task.{alone}
use besu_interbank_demo.Base.Task.Alone.{Runs, pure-Runs, attempt-Runs, try-Runs, bind-Runs}
use besu_interbank_demo.DepositSvc.Server as Server
use besu_interbank_demo.DepositSvc.Server.{
  Endpoint, get_health, get_info, get_balance, post_mint, post_authorize, post_transfer,
  decode_to_amount, account_field, tx_result_json, handler,
}
use besu_interbank_demo.DepositSvc.Service.{Service, TokenInfo}
use besu_interbank_demo.DepositSvc.Tasks.Alone.{
  balance_of-Runs, token_info-Runs, mint-Runs, authorize-Runs, transfer-Runs, respond-Runs,
}
use besu_interbank_demo.DepositSvc.Tasks.Serve as Serve
use besu_interbank_demo.DepositSvc.Tasks.Serve.{serve}
use besu_interbank_demo.Platform.Geth.{Geth}
use besu_interbank_demo.Platform.Http.{Request, Routed, found, wrong_method, no_route}
use besu_interbank_demo.Platform.Machine.{Machine}

module _ {G : Geth} (m : Machine G) (s : Service) where
  reply_info-Runs : (r : Result TokenInfo) → Runs (Serve.reply_info m s r) (Server.reply_info m s r)
  unfolding Serve.reply_info Server.reply_info
  reply_info-Runs (err e) = pure-Runs _
  reply_info-Runs (ok info) =
      bind-Runs _ _ _ _ (attempt-Runs _ _ (balance_of-Runs m s _)) λ bal. pure-Runs _

  handle_info-Runs : Runs (Serve.handle_info m s) (Server.handle_info m s)
  unfolding Serve.handle_info Server.handle_info
  handle_info-Runs = try-Runs _ _ _ _ (token_info-Runs m s) reply_info-Runs

  handle_balance-Runs :
      (r : Request) → Runs (Serve.handle_balance m s r) (Server.handle_balance m s r)
  unfolding Serve.handle_balance Server.handle_balance
  handle_balance-Runs r = try-Runs _ _ _ _ (balance_of-Runs m s _) λ res. pure-Runs _

  handle_mint-Runs : (r : Request) → Runs (Serve.handle_mint m s r) (Server.handle_mint m s r)
  unfolding Serve.handle_mint Server.handle_mint
  handle_mint-Runs r = elim (Result-cases (decode_to_amount G r.body)) [
    | inr (e, bad) ↦ rw (bad, Serve.handle_mint, Server.handle_mint) (pure-Runs _)
    | inl ((to, amount), good) ↦
        rw (good, Serve.handle_mint, Server.handle_mint)
          (respond-Runs m tx_result_json _ _ (mint-Runs m s to amount))
  ]

  handle_transfer-Runs :
      (r : Request) → Runs (Serve.handle_transfer m s r) (Server.handle_transfer m s r)
  unfolding Serve.handle_transfer Server.handle_transfer
  handle_transfer-Runs r = elim (Result-cases (decode_to_amount G r.body)) [
    | inr (e, bad) ↦ rw (bad, Serve.handle_transfer, Server.handle_transfer) (pure-Runs _)
    | inl ((to, amount), good) ↦
        rw (good, Serve.handle_transfer, Server.handle_transfer)
          (respond-Runs m tx_result_json _ _ (transfer-Runs m s to amount))
  ]

  handle_authorize-Runs :
      (r : Request) → Runs (Serve.handle_authorize m s r) (Server.handle_authorize m s r)
  unfolding Serve.handle_authorize Server.handle_authorize
  handle_authorize-Runs r = elim (Option-cases (account_field r.body)) [
    | inl bad ↦ rw (bad, Serve.handle_authorize, Server.handle_authorize) (pure-Runs _)
    | inr (account, good) ↦
        rw (good, Serve.handle_authorize, Server.handle_authorize)
          (respond-Runs m _ _ _ (authorize-Runs m s (G.hex_to_address account)))
  ]

  handle-Runs : (e : Endpoint) (r : Request) → Runs (Serve.handle m e s r) (Server.handle m e s r)
  unfolding Serve.handle Server.handle
  handle-Runs get_health r = pure-Runs _
  handle-Runs get_info r = handle_info-Runs
  handle-Runs get_balance r = handle_balance-Runs r
  handle-Runs post_mint r = handle_mint-Runs r
  handle-Runs post_authorize r = handle_authorize-Runs r
  handle-Runs post_transfer r = handle_transfer-Runs r

  dispatch-Runs :
      (e : Routed Endpoint) (r : Request) → Runs (Serve.dispatch m e s r) (Server.dispatch m e s r)
  unfolding Serve.dispatch Server.dispatch
  dispatch-Runs (found e) r = handle-Runs e r
  dispatch-Runs wrong_method r = pure-Runs _
  dispatch-Runs no_route r = pure-Runs _

  -- A request whose library calls nothing comes between is handled as the service's handler says: the same
  -- outcome, and the same world.
  pub serve-handler : (r : Request) (w : m.World) → alone (serve m s r) w ≡ handler m s r w
  unfolding serve handler
  serve-handler r = dispatch-Runs _ r
