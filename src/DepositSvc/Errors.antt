-- ===== src/DepositSvc/Errors.antt =====
-- internal/depositsvc: bad requests, refused requests, and failing reads.
use mathlib.Core.Path.{ap₂}
use besu_interbank_demo.Base.{[], Option, ◌≡◌, ◌∙◌, refl, Bytes, utf8, bytes_eq}
use besu_interbank_demo.Base.Int.{ℤ}
use besu_interbank_demo.Base.Outcome.{ok, err, done, fail, panic, M, attempt, deref, ◌>>=◌}
use besu_interbank_demo.Base.Runs.{bind-done, try-fail, try-panic, attempt-fail}
use besu_interbank_demo.Chainx.{deposit_token_abi, reserve_ledger_abi}
use besu_interbank_demo.Config.{holder}
use besu_interbank_demo.DepositSvc.Requests.{refusal, holder_refused}
use besu_interbank_demo.DepositSvc.Server.{
  endpoints, decode_to_amount, respond, reply, handle, dispatch, handler, handle_mint,
  handle_transfer, tx_result_json, handle_info,
}
use besu_interbank_demo.DepositSvc.Service.{Service, read_uint, read_string, token_info}
use besu_interbank_demo.DepositSvc.Writes.{mint}
use besu_interbank_demo.Platform.Abi.{Address}
use besu_interbank_demo.Platform.Geth.{Geth}
use besu_interbank_demo.Platform.Http.{post, Request, no_route, route, write_err}
use besu_interbank_demo.Platform.Json.{Json}
use besu_interbank_demo.Platform.Machine.{Machine}

module _ {G : Geth} (m : Machine G) (s : Service) where
  -- A mint or transfer request whose body does not decode, or whose amount is no decimal integer, is
  -- answered with 400 and changes nothing.
  pub bad_amount_rejected :
      (r : Request) (w : m.World) {e : Bytes}
      → decode_to_amount G r.body ≡ err e
      → (handle_mint m s r w ≡ (done (write_err 400 e), w))
        × (handle_transfer m s r w ≡ (done (write_err 400 e), w))
  unfolding handle_mint handle_transfer
  bad_amount_rejected r w h = (rw (h, handle_mint) refl, rw (h, handle_transfer) refl)

  respond-fail :
      {A : Type 0} (to_json : A → Json) (res : M m.World A) (w w' : m.World) {e : Bytes}
      → res w ≡ (fail e, w')
      → respond m to_json res w ≡ (done (write_err 400 e), w')
  unfolding respond reply
  respond-fail to_json res w w' h = try-fail res _ w w' h

  -- A holder's service answers POST /mint with 400 and its refusal, for every recipient and amount, and
  -- nothing changes.
  pub holder_mint_refused :
      (r : Request) (w : m.World) {to : Address} {amount : ℤ}
      → s.bank.role ≡ holder
      → r.method ≡ post
      → r.path ≡ utf8 "/mint"
      → decode_to_amount G r.body ≡ ok (to, amount)
      → handler m s r w ≡ (done (write_err 400 (refusal m s (utf8 "mint"))), w)
  unfolding handler dispatch handle handle_mint endpoints route bytes_eq
  holder_mint_refused r w {to} {amount} is_holder method path good =
      ap₂ (λ verb p. dispatch m (route endpoints verb p no_route) s r w) method path
      ∙ rw (good, handle_mint)
          (respond-fail tx_result_json (mint m s to amount) w w
            ((holder_refused m s w is_holder).0 to amount))

  -- Where the token's name can be read and its decimals cannot, the info request panics.
  pub token_info_panics :
      (w w1 w2 w3 w4 w5 : m.World) {name : Bytes} {e : Bytes}
      → read_string m s.dep.deposit_token deposit_token_abi (utf8 "name") w ≡ (done name, w1)
      → (symbol : Option Bytes)
      → attempt (read_string m s.dep.deposit_token deposit_token_abi (utf8 "symbol")) w1
        ≡ (done symbol, w2)
      → read_uint m s.dep.deposit_token deposit_token_abi (utf8 "decimals") [] w2 ≡ (fail e, w3)
      → (supply rl : Option ℤ)
      → attempt (read_uint m s.dep.deposit_token deposit_token_abi (utf8 "totalSupply") []) w3
        ≡ (done supply, w4)
      → attempt (read_uint m s.dep.reserve_ledger reserve_ledger_abi (utf8 "totalSupply") []) w4
        ≡ (done rl, w5)
      → handle_info m s w ≡ (panic, w5)
  unfolding handle_info token_info
  token_info_panics w w1 w2 w3 w4 w5 e1 symbol e2 e3 supply rl e4 e5 = try-panic _ _ w w5 (
      bind-done _ _ w w1 e1
      ∙ bind-done _ _ w1 w2 e2
      ∙ bind-done _ _ w2 w3 (attempt-fail _ w2 w3 e3)
      ∙ bind-done _ _ w3 w4 e4
      ∙ bind-done _ _ w4 w5 e5
      ∙ unfold ◌>>=◌ deref in refl)
