-- ===== src/DepositSvc/Tasks/Serve.antt =====
-- internal/depositsvc/server.go, as tasks that other requests may interleave with: the text is that of
-- Server.
use besu_interbank_demo.Base.{map, none, some, utf8}
use besu_interbank_demo.Base.Outcome.{Result, ok, err}
use besu_interbank_demo.Base.Task.{Task, pure, attempt, try, ◌>>=◌}
use besu_interbank_demo.DepositSvc.Server.{
  Endpoint, get_health, get_info, get_balance, post_mint, post_authorize, post_transfer, endpoints,
  tx_result_json, reply, handle_health, info_json, balance_account, balance_json, decode_to_amount,
  account_field,
}
use besu_interbank_demo.DepositSvc.Service.{Service, TokenInfo}
use besu_interbank_demo.DepositSvc.Tasks.{token_info, balance_of, mint, authorize, transfer}
use besu_interbank_demo.Platform.Geth.{Geth}
use besu_interbank_demo.Platform.Http.{
  Request, Response, Routed, found, wrong_method, no_route, route, not_found, method_not_allowed,
  write_json, write_err,
}
use besu_interbank_demo.Platform.Json.{Json, slice}
use besu_interbank_demo.Platform.Machine.{Machine}

module _ {G : Geth} (m : Machine G) where
  unfoldable pub respond : {A : Type 0} → (A → Json) → Task m.World A → Task m.World Response
  respond to_json res = try res λ r. pure (reply to_json 400 r)

  -- The error of the balance is dropped.
  unfoldable pub reply_info : Service → Result TokenInfo → Task m.World Response
  reply_info s (err e) = pure (write_err 500 e)
  reply_info s (ok info) = attempt (balance_of m s s.bank.address) >>= λ bal.
      pure (write_json 200 (info_json m s info bal))

  unfoldable pub handle_info : Service → Task m.World Response
  handle_info s = try (token_info m s) (reply_info s)

  unfoldable pub handle_balance : Service → Request → Task m.World Response
  handle_balance s r =
      let acct = balance_account m s r in
      try (balance_of m s acct) λ res. pure (reply (balance_json m acct) 500 res)

  unfoldable pub handle_mint : Service → Request → Task m.World Response
  handle_mint s r = elim (decode_to_amount G r.body) [
    | err e ↦ pure (write_err 400 e)
    | ok (to, amount) ↦ respond tx_result_json (mint m s to amount)
  ]

  unfoldable pub handle_authorize : Service → Request → Task m.World Response
  handle_authorize s r = elim (account_field r.body) [
    | none ↦ pure (write_err 400 (utf8 "bad json"))
    | some account ↦
        respond (λ res. slice (map tx_result_json res)) (authorize m s (G.hex_to_address account))
  ]

  unfoldable pub handle_transfer : Service → Request → Task m.World Response
  handle_transfer s r = elim (decode_to_amount G r.body) [
    | err e ↦ pure (write_err 400 e)
    | ok (to, amount) ↦ respond tx_result_json (transfer m s to amount)
  ]

  unfoldable pub handle : Endpoint → Service → Request → Task m.World Response
  handle get_health s r = pure (handle_health m s)
  handle get_info s r = handle_info s
  handle get_balance s r = handle_balance s r
  handle post_mint s r = handle_mint s r
  handle post_authorize s r = handle_authorize s r
  handle post_transfer s r = handle_transfer s r

  unfoldable pub dispatch : Routed Endpoint → Service → Request → Task m.World Response
  dispatch (found e) s r = handle e s r
  dispatch wrong_method s r = pure method_not_allowed
  dispatch no_route s r = pure not_found

  unfoldable pub serve : Service → Request → Task m.World Response
  serve s r = dispatch (route endpoints r.method r.path no_route) s r
