-- ===== src/DepositSvc/Calls.antt =====
-- internal/depositsvc: what every call of a request's task keeps, from what the three writes keep.
use besu_interbank_demo.Base.{List, [], Bytes, Option-cases, inl, inr}
use besu_interbank_demo.Base.Int.{ℤ}
use besu_interbank_demo.Base.Outcome.{Result, ok, err, Result-cases}
use besu_interbank_demo.Base.Task.{Task}
use besu_interbank_demo.Base.Task.Schedule.{
  Respects, lift-Respects, call-Respects, try-Respects, bind-Respects, attempt-Respects,
  deref-Respects,
}
use besu_interbank_demo.DepositSvc.Sends.{ReadsKeep}
use besu_interbank_demo.DepositSvc.Server.{
  Endpoint, get_health, get_info, get_balance, post_mint, post_authorize, post_transfer,
  decode_to_amount, account_field, tx_result_json,
}
use besu_interbank_demo.DepositSvc.Service.{Service, TokenInfo}
use besu_interbank_demo.DepositSvc.Tasks.{
  call_method, uint_value, read_uint, read_string, balance_of, token_info, mint, authorize,
  transfer,
}
use besu_interbank_demo.DepositSvc.Tasks.Serve.{
  handle, dispatch, serve, handle_info, reply_info, handle_balance, handle_mint, handle_authorize,
  handle_transfer, respond,
}
use besu_interbank_demo.Platform.Abi.{Abi, Address, Value, big_int}
use besu_interbank_demo.Platform.Geth.{Geth}
use besu_interbank_demo.Platform.Http.{Request, Routed, found, wrong_method, no_route}
use besu_interbank_demo.Platform.Json.{Json}
use besu_interbank_demo.Platform.Machine.{Machine}

module _ {G : Geth} (m : Machine G) (P : m.World → Type 0) (s : Service)
    (reads : ReadsKeep m P s.bank) where
  uint_value-Respects : (v : Value) → Respects P (uint_value m v)
  unfolding uint_value Respects
  uint_value-Respects (big_int v) = tt
  uint_value-Respects _ = tt

  call_method-Respects :
      (to : Address) (a : Abi) (method : Bytes) (args : List Value)
      → Respects P (call_method m to a method args)
  unfolding call_method Respects
  call_method-Respects to a method args =
      bind-Respects P _ _ (lift-Respects P _) λ payload.
        bind-Respects P _ _ (call-Respects P _ (reads.contract _)) λ out. lift-Respects P _

  read_uint-Respects :
      (to : Address) (a : Abi) (method : Bytes) (args : List Value)
      → Respects P (read_uint m to a method args)
  unfolding read_uint Respects
  read_uint-Respects to a method args =
      bind-Respects P _ _ (call_method-Respects to a method args)
        λ vals. bind-Respects P _ _ (deref-Respects P _) uint_value-Respects

  read_string-Respects :
      (to : Address) (a : Abi) (method : Bytes) → Respects P (read_string m to a method)
  unfolding read_string Respects
  read_string-Respects to a method =
      bind-Respects P _ _ (call_method-Respects to a method [])
        λ vals. bind-Respects P _ _ (deref-Respects P _) λ v. tt

  balance_of-Respects : (account : Address) → Respects P (balance_of m s account)
  unfolding balance_of Respects
  balance_of-Respects account = read_uint-Respects _ _ _ _

  token_info-Respects : Respects P (token_info m s)
  unfolding token_info Respects
  token_info-Respects = bind-Respects P _ _ (read_string-Respects _ _ _) λ name.
      bind-Respects P _ _ (attempt-Respects P _ (read_string-Respects _ _ _)) λ symbol.
        bind-Respects P _ _ (attempt-Respects P _ (read_uint-Respects _ _ _ _)) λ dec.
          bind-Respects P _ _ (attempt-Respects P _ (read_uint-Respects _ _ _ _)) λ supply.
            bind-Respects P _ _ (attempt-Respects P _ (read_uint-Respects _ _ _ _))
              λ rl. bind-Respects P _ _ (deref-Respects P dec) λ decimals. tt

  reply_info-Respects : (r : Result TokenInfo) → Respects P (reply_info m s r)
  unfolding reply_info Respects
  reply_info-Respects (err e) = tt
  reply_info-Respects (ok info) =
      bind-Respects P _ _ (attempt-Respects P _ (balance_of-Respects _)) λ bal. tt

  handle_info-Respects : Respects P (handle_info m s)
  unfolding handle_info Respects
  handle_info-Respects = try-Respects P _ _ token_info-Respects reply_info-Respects

  handle_balance-Respects : (r : Request) → Respects P (handle_balance m s r)
  unfolding handle_balance Respects
  handle_balance-Respects r = try-Respects P _ _ (balance_of-Respects _) λ res. tt

  respond-Respects :
      {A : Type 0} (to_json : A → Json) (res : Task m.World A)
      → Respects P res
      → Respects P (respond m to_json res)
  unfolding respond Respects
  respond-Respects to_json res k = try-Respects P _ _ k λ r. tt

  -- What the three writes respect, every request respects.
  pub record WritesRespect : Type 0 where
    pub minting : (to : Address) (amount : ℤ) → Respects P (mint m s to amount)
    pub authorizing : (account : Address) → Respects P (authorize m s account)
    pub transferring : (to : Address) (amount : ℤ) → Respects P (transfer m s to amount)

  handle_mint-Respects : WritesRespect → (r : Request) → Respects P (handle_mint m s r)
  unfolding handle_mint Respects
  handle_mint-Respects k r = elim (Result-cases (decode_to_amount G r.body)) [
    | inr (e, bad) ↦ rw (bad, handle_mint) tt
    | inl ((to, amount), good) ↦
        rw (good, handle_mint) (respond-Respects tx_result_json _ (k.minting to amount))
  ]

  handle_transfer-Respects : WritesRespect → (r : Request) → Respects P (handle_transfer m s r)
  unfolding handle_transfer Respects
  handle_transfer-Respects k r = elim (Result-cases (decode_to_amount G r.body)) [
    | inr (e, bad) ↦ rw (bad, handle_transfer) tt
    | inl ((to, amount), good) ↦
        rw (good, handle_transfer) (respond-Respects tx_result_json _ (k.transferring to amount))
  ]

  handle_authorize-Respects : WritesRespect → (r : Request) → Respects P (handle_authorize m s r)
  unfolding handle_authorize Respects
  handle_authorize-Respects k r = elim (Option-cases (account_field r.body)) [
    | inl bad ↦ rw (bad, handle_authorize) tt
    | inr (account, good) ↦
        rw (good, handle_authorize)
          (respond-Respects _ _ (k.authorizing (G.hex_to_address account)))
  ]

  handle-Respects : WritesRespect → (e : Endpoint) (r : Request) → Respects P (handle m e s r)
  unfolding handle Respects
  handle-Respects k get_health r = tt
  handle-Respects k get_info r = handle_info-Respects
  handle-Respects k get_balance r = handle_balance-Respects r
  handle-Respects k post_mint r = handle_mint-Respects k r
  handle-Respects k post_authorize r = handle_authorize-Respects k r
  handle-Respects k post_transfer r = handle_transfer-Respects k r

  dispatched-Respects :
      WritesRespect → (e : Routed Endpoint) (r : Request) → Respects P (dispatch m e s r)
  unfolding dispatch Respects
  dispatched-Respects k (found e) r = handle-Respects k e r
  dispatched-Respects k wrong_method r = tt
  dispatched-Respects k no_route r = tt

  pub serve-Respects : WritesRespect → (r : Request) → Respects P (serve m s r)
  unfolding serve Respects
  serve-Respects k r = dispatched-Respects k _ r
