-- ===== src/DepositSvc/Tasks/Alone.antt =====
-- internal/depositsvc: a request whose task runs alone is handled as Service, Writes and Server say.
use besu_interbank_demo.Base.{ℕ, List, [], ◌∷◌, ◌++◌, Bytes, eqb, Option-cases, inl, inr}
use besu_interbank_demo.Base.Int.{ℤ}
use besu_interbank_demo.Base.Outcome.{M}
use besu_interbank_demo.Base.Task.{Task}
use besu_interbank_demo.Base.Task.Alone.{
  Runs, pure-Runs, raise-Runs, crash-Runs, lift-Runs, call-Runs, deref-Runs, wrap-Runs,
  attempt-Runs, try-Runs, bind-Runs, if-Runs,
}
use besu_interbank_demo.Config.{Role, role_eq}
use besu_interbank_demo.DepositSvc.Server as Server
use besu_interbank_demo.DepositSvc.Server.{
  Endpoint, get_health, get_info, get_balance, post_mint, post_authorize, post_transfer,
  decode_to_amount, account_field, tx_result_json, handler,
}
use besu_interbank_demo.DepositSvc.Service as Service
use besu_interbank_demo.DepositSvc.Service.{Service, TxResult, TokenInfo}
use besu_interbank_demo.DepositSvc.Tasks as Tasks
use besu_interbank_demo.DepositSvc.Tasks.Serve as Serve
use besu_interbank_demo.DepositSvc.Tasks.Serve.{serve}
use besu_interbank_demo.DepositSvc.Writes as Writes
use besu_interbank_demo.DepositSvc.Writes.{decode_sign_reply, build_tx, sign_call, authorize_steps}
use besu_interbank_demo.Platform.Abi.{
  Abi, Address, Hash, Value, big_int, uint64, uint8, address, bool, str, opaque, nothing,
}
use besu_interbank_demo.Platform.Geth.{Geth, DynamicFeeTx}
use besu_interbank_demo.Platform.Http.{Response}
use besu_interbank_demo.Platform.Json.{Json}
use besu_interbank_demo.Platform.Machine.{Machine}

module _ {G : Geth} (m : Machine G) where
  uint_value-Runs : (v : Value) → Runs (Tasks.uint_value m v) (Service.uint_value m v)
  unfolding Tasks.uint_value Service.uint_value
  uint_value-Runs (big_int v) = pure-Runs _
  uint_value-Runs (uint8 v) = pure-Runs _
  uint_value-Runs (uint64 v) = raise-Runs _
  uint_value-Runs (address v) = raise-Runs _
  uint_value-Runs (bool v) = raise-Runs _
  uint_value-Runs (str v) = raise-Runs _
  uint_value-Runs (opaque t v) = raise-Runs _
  uint_value-Runs nothing = raise-Runs _

  call_method-Runs :
      (to : Address) (a : Abi) (method : Bytes) (args : List Value)
      → Runs (Tasks.call_method m to a method args) (Service.call_method m to a method args)
  unfolding Tasks.call_method Service.call_method
  call_method-Runs to a method args =
      bind-Runs _ _ _ _ (lift-Runs _) λ payload. bind-Runs _ _ _ _ (call-Runs _) λ out. lift-Runs _

  read_uint-Runs :
      (to : Address) (a : Abi) (method : Bytes) (args : List Value)
      → Runs (Tasks.read_uint m to a method args) (Service.read_uint m to a method args)
  unfolding Tasks.read_uint Service.read_uint
  read_uint-Runs to a method args =
      bind-Runs _ _ _ _ (call_method-Runs to a method args)
        λ vals. bind-Runs _ _ _ _ (deref-Runs _) uint_value-Runs

  read_string-Runs :
      (to : Address) (a : Abi) (method : Bytes)
      → Runs (Tasks.read_string m to a method) (Service.read_string m to a method)
  unfolding Tasks.read_string Service.read_string
  read_string-Runs to a method =
      bind-Runs _ _ _ _ (call_method-Runs to a method [])
        λ vals. bind-Runs _ _ _ _ (deref-Runs _) λ v. pure-Runs _

  pub balance_of-Runs :
      (s : Service) (a : Address) → Runs (Tasks.balance_of m s a) (Service.balance_of m s a)
  unfolding Tasks.balance_of Service.balance_of
  balance_of-Runs s a = read_uint-Runs _ _ _ _

  pub token_info-Runs : (s : Service) → Runs (Tasks.token_info m s) (Service.token_info m s)
  unfolding Tasks.token_info Service.token_info
  token_info-Runs s = bind-Runs _ _ _ _ (read_string-Runs _ _ _) λ name.
      bind-Runs _ _ _ _ (attempt-Runs _ _ (read_string-Runs _ _ _)) λ symbol.
        bind-Runs _ _ _ _ (attempt-Runs _ _ (read_uint-Runs _ _ _ _)) λ dec.
          bind-Runs _ _ _ _ (attempt-Runs _ _ (read_uint-Runs _ _ _ _)) λ supply.
            bind-Runs _ _ _ _ (attempt-Runs _ _ (read_uint-Runs _ _ _ _))
              λ rl. bind-Runs _ _ _ _ (deref-Runs dec) λ decimals. pure-Runs _

  read_reply-Runs :
      (s : Service) (resp : Response)
      → Runs (Tasks.read_reply m s.bank resp) (Writes.read_reply m s.bank resp)
  unfolding Tasks.read_reply Writes.read_reply
  read_reply-Runs s resp = elim (Option-cases (decode_sign_reply resp.body)) [
    | inl bad ↦ rw (bad, Tasks.read_reply, Writes.read_reply) (raise-Runs _)
    | inr (out, decoded) ↦
        rw (decoded, Tasks.read_reply, Writes.read_reply)
          (if-Runs (eqb resp.status 200) _ _ _ _
            (bind-Runs _ _ _ _ (wrap-Runs _ _ _ (lift-Runs _)) λ sig. pure-Runs _) (raise-Runs _))
  ]

  router_sign-Runs :
      (s : Service) (hash : Hash) → Runs (Tasks.router_sign m s hash) (Writes.router_sign m s hash)
  unfolding Tasks.router_sign Writes.router_sign
  router_sign-Runs s hash =
      if-Runs (m.is_url (sign_call m s.bank hash).url) _ _ _ _
        (bind-Runs _ _ _ _ (wrap-Runs _ _ _ (call-Runs _)) (read_reply-Runs s)) crash-Runs

  sign_broadcast-Runs :
      (s : Service) (op : Bytes) (fields : DynamicFeeTx)
      → Runs (Tasks.sign_broadcast m s op fields) (Writes.sign_broadcast m s op fields)
  unfolding Tasks.sign_broadcast Writes.sign_broadcast
  sign_broadcast-Runs s op fields = bind-Runs _ _ _ _ (router_sign-Runs s _) λ reply.
      bind-Runs _ _ _ _ (wrap-Runs _ _ _ (lift-Runs _)) λ signed_tx.
        bind-Runs _ _ _ _ (wrap-Runs _ _ _ (call-Runs _))
          λ sent. bind-Runs _ _ _ _ (wrap-Runs _ _ _ (call-Runs _)) λ receipt. pure-Runs _

  build_sign_broadcast-Runs :
      (s : Service) (op : Bytes) (to : Address) (payload : Bytes)
      → Runs
          (Tasks.build_sign_broadcast m s op to payload)
          (Writes.build_sign_broadcast m s op to payload)
  unfolding Tasks.build_sign_broadcast Writes.build_sign_broadcast Tasks.estimated_gas
      Writes.estimated_gas
  build_sign_broadcast-Runs s op to payload =
      bind-Runs _ _ _ _ (wrap-Runs _ _ _ (call-Runs _)) λ nonce.
        bind-Runs _ _ _ _ (wrap-Runs _ _ _ (call-Runs _)) λ base_fee.
          bind-Runs _ _ _ _ (try-Runs _ _ _ _ (call-Runs _) λ r. pure-Runs _)
            λ gas. sign_broadcast-Runs s op _

  require_role-Runs :
      (s : Service) (want : Role) (op : Bytes)
      → Runs (Tasks.require_role m s want op) (Writes.require_role m s want op)
  unfolding Tasks.require_role Writes.require_role
  require_role-Runs s want op =
      if-Runs (role_eq s.bank.role want) _ _ _ _ (pure-Runs _) (raise-Runs _)

  pub mint-Runs :
      (s : Service) (to : Address) (amount : ℤ)
      → Runs (Tasks.mint m s to amount) (Writes.mint m s to amount)
  unfolding Tasks.mint Writes.mint
  mint-Runs s to amount =
      bind-Runs _ _ _ _ (require_role-Runs s _ _) λ checked.
        bind-Runs _ _ _ _ (lift-Runs _) λ payload. build_sign_broadcast-Runs s _ _ payload

  authorize_loop-Runs :
      (s : Service) (account : Address) (steps : List (ℕ × Bytes)) (out : List TxResult)
      → Runs
          (Tasks.authorize_loop m s account steps out)
          (Writes.authorize_loop m s account steps out)
  unfolding Tasks.authorize_loop Writes.authorize_loop
  authorize_loop-Runs s account [] out = pure-Runs out
  authorize_loop-Runs s account ((policy_id, tag) ∷ steps) out =
      bind-Runs _ _ _ _ (lift-Runs _) λ payload.
        bind-Runs _ _ _ _ (build_sign_broadcast-Runs s _ _ payload)
          λ res. authorize_loop-Runs s account steps (out ++ res ∷ [])

  pub authorize-Runs :
      (s : Service) (account : Address)
      → Runs (Tasks.authorize m s account) (Writes.authorize m s account)
  unfolding Tasks.authorize Writes.authorize
  authorize-Runs s account =
      bind-Runs _ _ _ _ (require_role-Runs s _ _)
        λ checked. authorize_loop-Runs s account (authorize_steps m s) []

  pub transfer-Runs :
      (s : Service) (to : Address) (amount : ℤ)
      → Runs (Tasks.transfer m s to amount) (Writes.transfer m s to amount)
  unfolding Tasks.transfer Writes.transfer
  transfer-Runs s to amount =
      bind-Runs _ _ _ _ (lift-Runs _) λ payload. build_sign_broadcast-Runs s _ _ payload

  pub respond-Runs :
      {A : Type 0} (to_json : A → Json) (t : Task m.World A) (f : M m.World A)
      → Runs t f
      → Runs (Serve.respond m to_json t) (Server.respond m to_json f)
  unfolding Serve.respond Server.respond
  respond-Runs to_json t f h = try-Runs _ _ _ _ h λ r. pure-Runs _
