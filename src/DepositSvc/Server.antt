-- ===== src/DepositSvc/Server.antt =====
-- internal/depositsvc/server.go: the service over HTTP.
use besu_interbank_demo.Base.{
  ℕ, true, List, [], ◌∷◌, ◌++◌, map, Option, none, some, Bytes, utf8, ◌==◌, if◌then◌else◌,
}
use besu_interbank_demo.Base.Dict.{lookup}
use besu_interbank_demo.Base.Int.{ℤ}
use besu_interbank_demo.Base.Outcome.{M, Result, ok, err, pure, raise, try, attempt, ◌>>=◌}
use besu_interbank_demo.Config.{banks}
use besu_interbank_demo.Config.Load.{load_deployment}
use besu_interbank_demo.Decimal.{decimal, int_string, set_string}
use besu_interbank_demo.DepositSvc.Service.{
  Service, new, TxResult, TokenInfo, token_info, balance_of, nil_string,
}
use besu_interbank_demo.DepositSvc.Writes.{mint, authorize, transfer}
use besu_interbank_demo.Platform.Abi.{Address}
use besu_interbank_demo.Platform.Geth.{Geth}
use besu_interbank_demo.Platform.Http.{
  get, post, Request, Response, Route, Routed, found, wrong_method, no_route, route, query_get,
  not_found, method_not_allowed, write_json, write_err,
}
use besu_interbank_demo.Platform.Json.{
  Json, boolean, number, string, object, field, end, slice, Body, struct_fields, string_field,
}
use besu_interbank_demo.Platform.Machine.{Machine}

unfoldable pub tx_result_json : TxResult → Json
tx_result_json r = object (
    field (utf8 "op") (string r.op) (
      field (utf8 "txHash") (string r.tx_hash) (
        field (utf8 "status") (string r.status) (
          field (utf8 "blockNumber") (string r.block_number) (
            field (utf8 "gasUsed") (string r.gas_used)
              (field (utf8 "signedBy") (string r.signed_by) end))))))

unfoldable pub token_info_json : TokenInfo → Json
token_info_json t = object (
    field (utf8 "name") (string t.name) (
      field (utf8 "symbol") (string t.symbol) (
        field (utf8 "decimals") (number (decimal t.decimals)) (
          field (utf8 "totalSupply") (string t.total_supply)
            (field (utf8 "reserveLedgerSupply") (string t.reserve_ledger_supply) end)))))

pub data Endpoint : Type 0 where
  get_health get_info get_balance post_mint post_authorize post_transfer : Endpoint

unfoldable pub endpoints : List (Route Endpoint)
endpoints =
    record { method = get; path = utf8 "/health"; handler = get_health }
    ∷ record { method = get; path = utf8 "/info"; handler = get_info }
    ∷ record { method = get; path = utf8 "/balance"; handler = get_balance }
    ∷ record { method = post; path = utf8 "/mint"; handler = post_mint }
    ∷ record { method = post; path = utf8 "/authorize"; handler = post_authorize }
    ∷ record { method = post; path = utf8 "/transfer"; handler = post_transfer }
    ∷ []

-- The recipient's text and the amount's, of a body.
unfoldable pub to_amount_fields : Body → Option (Bytes × Bytes)
to_amount_fields body = elim (struct_fields body) [
  | none ↦ none
  | some fs ↦ elim (string_field (utf8 "to") fs) [
    | none ↦ none
    | some to ↦ elim (string_field (utf8 "amount") fs) [
      | none ↦ none
      | some amount ↦ some (to, amount)
    ]
  ]
]

unfoldable pub account_field : Body → Option Bytes
account_field body = elim (struct_fields body) [
  | none ↦ none
  | some fs ↦ string_field (utf8 "account") fs
]

module _ (G : Geth) where
  unfoldable pub decode_to_amount : Body → Result (Address × ℤ)
  decode_to_amount body = elim (to_amount_fields body) [
    | none ↦ err (utf8 "bad json")
    | some (to, amount_text) ↦ elim (set_string amount_text) [
      | none ↦ err (utf8 "bad amount " ++ G.quote amount_text)
      | some amount ↦ ok (G.hex_to_address to, amount)
    ]
  ]

-- The response to a result: its document, or an error with the given status.
unfoldable pub reply : {A : Type 0} → (A → Json) → ℕ → Result A → Response
reply to_json status (ok a) = write_json 200 (to_json a)
reply to_json status (err e) = write_err status e

module _ {G : Geth} (m : Machine G) where
  unfoldable pub respond : {A : Type 0} → (A → Json) → M m.World A → M m.World Response
  respond to_json res = try res λ r. pure (reply to_json 400 r)

  unfoldable pub handle_health : Service → Response
  handle_health s = write_json 200 (
      object (
        field (utf8 "address") (string (G.address_hex s.bank.address)) (
          field (utf8 "bank") (string s.bank.label)
            (field (utf8 "keyId") (string s.bank.key_id) (field (utf8 "ok") (boolean true) end)))))

  unfoldable pub info_json : Service → TokenInfo → Option ℤ → Json
  info_json s info bal = object (
      field (utf8 "address") (string (G.address_hex s.bank.address)) (
        field (utf8 "balance") (string (nil_string bal)) (
          field (utf8 "bank") (string s.bank.label)
            (field (utf8 "token") (token_info_json info) end))))

  -- The error of the balance is dropped.
  unfoldable pub reply_info : Service → Result TokenInfo → M m.World Response
  reply_info s (err e) = pure (write_err 500 e)
  reply_info s (ok info) = attempt (balance_of m s s.bank.address) >>= λ bal.
      pure (write_json 200 (info_json s info bal))

  unfoldable pub handle_info : Service → M m.World Response
  handle_info s = try (token_info m s) (reply_info s)

  unfoldable pub balance_account : Service → Request → Address
  balance_account s r =
      let q = query_get (utf8 "account") r.query in
      if q == [] then s.bank.address else G.hex_to_address q

  unfoldable pub balance_json : Address → ℤ → Json
  balance_json acct bal = object (
      field (utf8 "account") (string (G.address_hex acct))
        (field (utf8 "raw") (string (int_string bal)) end))

  unfoldable pub handle_balance : Service → Request → M m.World Response
  handle_balance s r =
      let acct = balance_account s r in
      try (balance_of m s acct) λ res. pure (reply (balance_json acct) 500 res)

  unfoldable pub handle_mint : Service → Request → M m.World Response
  handle_mint s r = elim (decode_to_amount G r.body) [
    | err e ↦ pure (write_err 400 e)
    | ok (to, amount) ↦ respond tx_result_json (mint m s to amount)
  ]

  unfoldable pub handle_authorize : Service → Request → M m.World Response
  handle_authorize s r = elim (account_field r.body) [
    | none ↦ pure (write_err 400 (utf8 "bad json"))
    | some account ↦
        respond (λ res. slice (map tx_result_json res)) (authorize m s (G.hex_to_address account))
  ]

  unfoldable pub handle_transfer : Service → Request → M m.World Response
  handle_transfer s r = elim (decode_to_amount G r.body) [
    | err e ↦ pure (write_err 400 e)
    | ok (to, amount) ↦ respond tx_result_json (transfer m s to amount)
  ]

  unfoldable pub handle : Endpoint → Service → Request → M m.World Response
  handle get_health s r = pure (handle_health s)
  handle get_info s r = handle_info s
  handle get_balance s r = handle_balance s r
  handle post_mint s r = handle_mint s r
  handle post_authorize s r = handle_authorize s r
  handle post_transfer s r = handle_transfer s r

  unfoldable pub dispatch : Routed Endpoint → Service → Request → M m.World Response
  dispatch (found e) s r = handle e s r
  dispatch wrong_method s r = pure method_not_allowed
  dispatch no_route s r = pure not_found

  unfoldable pub handler : Service → Request → M m.World Response
  handler s r = dispatch (route endpoints r.method r.path no_route) s r

  -- `Run` up to its listener: the address and the service behind it.
  unfoldable pub run : Bytes → ℤ → M m.World (Bytes × Service)
  run bank_id port = elim (lookup bank_id (banks m)) [
    | none ↦ raise (utf8 "unknown bank " ++ G.quote bank_id)
    | some bank ↦
        load_deployment m >>= λ dep. new m bank dep >>= λ svc. pure (b':' ∷ int_string port, svc)
  ]
