-- ===== src/Webui/Server.antt =====
-- internal/webui/server.go: the server, the state of the demo and the proxy of the writes.
use mathlib.Core.List.{head?}
use besu_interbank_demo.Base.{
  ℕ, List, [], ◌∷◌, ◌++◌, Option, none, some, Bytes, utf8, if◌then◌else◌,
}
use besu_interbank_demo.Base.Int.{ℤ, pos}
use besu_interbank_demo.Base.Outcome.{
  M, Result, ok, err, pure, crash, call, wrap, try, attempt, ◌>>=◌, ◌>>◌,
}
use besu_interbank_demo.Chainx.{deposit_token_abi, reserve_ledger_abi}
use besu_interbank_demo.Config.{bank_a, bank_b, merchant, env_or, rpc_url}
use besu_interbank_demo.Config.Deployment.{Deployment}
use besu_interbank_demo.Config.Load.{load_deployment}
use besu_interbank_demo.Decimal.{decimal, int_string}
use besu_interbank_demo.Platform.Abi.{Abi, Address, Value, address, big_int, str}
use besu_interbank_demo.Platform.Geth.{Geth}
use besu_interbank_demo.Platform.Http.{
  get, post, Call, Request, Response, Route, Routed, found, wrong_method, no_route, route,
  application_json, write_json, write_err,
}
use besu_interbank_demo.Platform.Json.{Json, number, string, object, field, end}
use besu_interbank_demo.Platform.Machine.{Machine}
use besu_interbank_demo.Webui.Explorer.{handle_blocks}
use besu_interbank_demo.Webui.Tx.{handle_tx}

pub record Server : Type 0 where
  pub dep : Deployment
  pub static_dir : Bytes

pub data Endpoint : Type 0 where
  get_state get_blocks get_tx post_authorize post_mint post_transfer : Endpoint

unfoldable pub endpoints : List (Route Endpoint)
endpoints =
    record { method = get; path = utf8 "/api/state"; handler = get_state }
    ∷ record { method = get; path = utf8 "/api/blocks"; handler = get_blocks }
    ∷ record { method = get; path = utf8 "/api/tx"; handler = get_tx }
    ∷ record { method = post; path = utf8 "/api/authorize"; handler = post_authorize }
    ∷ record { method = post; path = utf8 "/api/mint"; handler = post_mint }
    ∷ record { method = post; path = utf8 "/api/transfer"; handler = post_transfer }
    ∷ []

-- The first value, if it is the wanted kind; zero or "" otherwise.
unfoldable pub uint_or_zero : Option Value → ℤ
uint_or_zero (some (big_int v)) = v
uint_or_zero _ = pos 0

unfoldable pub str_or_empty : Option Value → Bytes
str_or_empty (some (str s)) = s
str_or_empty _ = []

abbrev first_value : Result (List Value) → Option Value
first_value (ok vals) = head? vals
first_value (err _) = none

module _ {G : Geth} (m : Machine G) where
  -- The first value that a contract's method returns; `none` where a step failed. The code drops the
  -- error beside the value.
  unfoldable pub unpacked : Abi → Bytes → Result Bytes → Option Value
  unpacked a method (err _) = none
  unpacked a method (ok out) = first_value (G.unpack a method out)

  unfoldable pub contract_value : Address → Abi → Bytes → Result Bytes → M m.World (Option Value)
  contract_value to a method (err _) = pure none
  contract_value to a method (ok payload) =
      try (call (m.call_contract (record { from = none; to = to; payload = payload })))
        λ out. pure (unpacked a method out)

  unfoldable pub read_uint : Address → Abi → Bytes → List Value → M m.World ℤ
  read_uint to a method args =
      contract_value to a method (G.pack a method args) >>= λ v. pure (uint_or_zero v)

  unfoldable pub read_str : Address → Bytes → M m.World Bytes
  read_str to method =
      contract_value to deposit_token_abi method (G.pack deposit_token_abi method []) >>= λ v.
      pure (str_or_empty v)

  unfoldable pub balance_of : Server → Address → M m.World ℤ
  balance_of s a =
      read_uint s.dep.deposit_token deposit_token_abi (utf8 "balanceOf") (address a ∷ [])

  abbrev or_zero : Option ℕ → ℕ
  or_zero none = 0
  or_zero (some n) = n

  abbrev hex : Address → Json
  hex a = string (G.address_hex a)

  unfoldable pub state_json : Server → Bytes → Bytes → ℤ → ℤ → ℤ → ℤ → ℕ → Json
  state_json s name symbol supply rl balance_b balance_merchant head = object (
      field (utf8 "addresses")
        (object (
          field (utf8 "authRegistry") (hex s.dep.auth_registry) (
            field (utf8 "bankA") (hex (bank_a m).address) (
              field (utf8 "bankB") (hex (bank_b m).address) (
                field (utf8 "depositToken") (hex s.dep.deposit_token) (
                  field (utf8 "merchant") (hex (merchant m)) (
                    field (utf8 "reserveLedger") (hex s.dep.reserve_ledger)
                      (field (utf8 "tokenAuthority") (hex s.dep.token_authority) end))))))))
        (field (utf8 "balances")
          (object (
            field (utf8 "bankB") (string (int_string balance_b))
              (field (utf8 "merchant") (string (int_string balance_merchant)) end)))
          (field (utf8 "blockNumber") (number (decimal head)) (
            field (utf8 "token")
              (object (
                field (utf8 "name") (string name) (
                  field (utf8 "reserveLedgerSupply") (string (int_string rl)) (
                    field (utf8 "symbol") (string symbol)
                      (field (utf8 "totalSupply") (string (int_string supply)) end)))))
              end))))

  unfoldable pub handle_state : Server → M m.World Response
  handle_state s = do
    name ← read_str s.dep.deposit_token (utf8 "name")
    symbol ← read_str s.dep.deposit_token (utf8 "symbol")
    supply ← read_uint s.dep.deposit_token deposit_token_abi (utf8 "totalSupply") []
    rl ← read_uint s.dep.reserve_ledger reserve_ledger_abi (utf8 "totalSupply") []
    balance_b ← balance_of s (bank_b m).address
    balance_merchant ← balance_of s (merchant m)
    head ← attempt (call m.block_number)
    pure (
        write_json 200
          (state_json s name symbol supply rl balance_b balance_merchant (or_zero head)))

  -- The call that forwards a request's body.
  unfoldable pub forward : Bytes → Bytes → Request → Call
  forward base path r = record {
    method = post;
    url = base ++ path;
    content_type = application_json;
    body = r.body;
  }

  unfoldable pub relay : Result Response → Response
  relay (err e) = write_err 502 e
  relay (ok resp) = record resp { content_type = application_json }

  unfoldable pub proxy : Bytes → Bytes → Request → M m.World Response
  proxy base path r =
      if m.is_url (base ++ path)
      then try (call (m.http (forward base path r))) (λ resp. pure (relay resp))
      else crash

  unfoldable pub handle : Endpoint → Server → Request → M m.World Response
  handle get_state s r = handle_state s
  handle get_blocks s r = handle_blocks m s.dep r
  handle get_tx s r = handle_tx m s.dep r
  handle post_authorize s r = proxy (bank_a m).deposit_svc_url (utf8 "/authorize") r
  handle post_mint s r = proxy (bank_a m).deposit_svc_url (utf8 "/mint") r
  handle post_transfer s r = proxy (bank_b m).deposit_svc_url (utf8 "/transfer") r

  -- The file server, a parameter, takes every other request: its pattern has no method.
  unfoldable pub dispatch :
      (Request → Response) → Routed Endpoint → Server → Request → M m.World Response
  dispatch files (found e) s r = handle e s r
  dispatch files wrong_method s r = pure (files r)
  dispatch files no_route s r = pure (files r)

  unfoldable pub handler : (Request → Response) → Server → Request → M m.World Response
  handler files s r = dispatch files (route endpoints r.method r.path no_route) s r

  abbrev static_default : Result (Unit {0}) → Bytes
  static_default (ok _) = utf8 "/app/webui/static"
  static_default (err _) = utf8 "webui/static"

  unfoldable pub default_static_dir : M m.World Bytes
  default_static_dir = try (call (m.stat (utf8 "/app/webui/static"))) λ r. pure (static_default r)

  unfoldable pub new : M m.World Server
  new = do
    dep ← load_deployment m
    wrap (λ e. utf8 "dial " ++ rpc_url m ++ utf8 ": " ++ e) (call (m.dial (rpc_url m)))
    dir ← default_static_dir
    pure (record { dep = dep; static_dir = env_or m (utf8 "WEBUI_STATIC") dir })

  -- `Run` up to its listener.
  unfoldable pub run : ℤ → M m.World (Bytes × Server)
  run port = new >>= λ srv. pure (b':' ∷ int_string port, srv)
