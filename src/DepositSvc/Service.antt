-- ===== src/DepositSvc/Service.antt =====
-- internal/depositsvc/service.go: the service, its results and its reads of the chain.
use mathlib.Core.List.{head?}
use besu_interbank_demo.Base.{ℕ, ◌%◌, suc, List, [], ◌∷◌, ◌++◌, Option, none, some, Bytes, utf8}
use besu_interbank_demo.Base.Int.{ℤ, pos, negsuc}
use besu_interbank_demo.Base.Outcome.{M, pure, raise, lift, call, wrap, attempt, deref, ◌>>=◌, ◌>>◌}
use besu_interbank_demo.Chainx.{deposit_token_abi, reserve_ledger_abi}
use besu_interbank_demo.Config.{Bank, rpc_url}
use besu_interbank_demo.Config.Deployment.{Deployment}
use besu_interbank_demo.Decimal.{int_string}
use besu_interbank_demo.Platform.Abi.{
  Abi, Address, Value, address, big_int, uint64, uint8, bool, str, opaque, nothing,
}
use besu_interbank_demo.Platform.Geth.{Geth}
use besu_interbank_demo.Platform.Machine.{Machine}

pub record Service : Type 0 where
  pub bank : Bank
  pub dep : Deployment

pub record TxResult : Type 0 where
  pub op : Bytes
  pub tx_hash : Bytes
  pub status : Bytes
  pub block_number : Bytes
  pub gas_used : Bytes
  pub signed_by : Bytes

pub record TokenInfo : Type 0 where
  pub name : Bytes
  pub symbol : Bytes
  pub decimals : ℕ
  pub total_supply : Bytes
  pub reserve_ledger_supply : Bytes

-- The `%T` of a value.
unfoldable pub type_name : Value → Bytes
type_name (address _) = utf8 "common.Address"
type_name (big_int _) = utf8 "*big.Int"
type_name (uint64 _) = utf8 "uint64"
type_name (uint8 _) = utf8 "uint8"
type_name (bool _) = utf8 "bool"
type_name (str _) = utf8 "string"
type_name (opaque t _) = t
type_name nothing = utf8 "<nil>"

-- The `String` of a *big.Int, which may be nil.
unfoldable pub nil_string : Option ℤ → Bytes
nil_string none = utf8 "<nil>"
nil_string (some v) = int_string v

-- `uint8(v.Uint64())`: the low byte of the magnitude.
unfoldable pub low_byte : ℤ → ℕ
low_byte (pos n) = n % 256
low_byte (negsuc n) = suc n % 256

-- `str, _ := v.(string)`.
unfoldable pub string_or_empty : Value → Bytes
string_or_empty (str s) = s
string_or_empty _ = []

abbrev pub or_empty : Option Bytes → Bytes
or_empty none = []
or_empty (some s) = s

module _ {G : Geth} (m : Machine G) where
  unfoldable pub new : Bank → Deployment → M m.World Service
  new bank dep =
      wrap (λ e. utf8 "dial " ++ rpc_url m ++ utf8 ": " ++ e) (call (m.dial (rpc_url m)))
      >> pure (record { bank = bank; dep = dep })

  unfoldable pub call_method : Address → Abi → Bytes → List Value → M m.World (List Value)
  call_method to a method args = do
    payload ← lift (G.pack a method args)
    out ← call (m.call_contract (record { from = none; to = to; payload = payload }))
    lift (G.unpack a method out)

  -- The type switch of `readUint`.
  unfoldable pub uint_value : Value → M m.World ℤ
  uint_value (big_int v) = pure v
  uint_value (uint8 v) = pure (pos v)
  uint_value v = raise (utf8 "readUint: unexpected type " ++ type_name v)

  unfoldable pub read_uint : Address → Abi → Bytes → List Value → M m.World ℤ
  read_uint to a method args = do
    vals ← call_method to a method args
    v ← deref (head? vals)
    uint_value v

  unfoldable pub read_string : Address → Abi → Bytes → M m.World Bytes
  read_string to a method = do
    vals ← call_method to a method []
    v ← deref (head? vals)
    pure (string_or_empty v)

  unfoldable pub balance_of : Service → Address → M m.World ℤ
  balance_of s account =
      read_uint s.dep.deposit_token deposit_token_abi (utf8 "balanceOf") (address account ∷ [])

  -- The errors of all reads but the first are dropped; `dec.Uint64()` panics on the nil that came with
  -- an error.
  unfoldable pub token_info : Service → M m.World TokenInfo
  token_info s = do
    name ← read_string s.dep.deposit_token deposit_token_abi (utf8 "name")
    symbol ← attempt (read_string s.dep.deposit_token deposit_token_abi (utf8 "symbol"))
    dec ← attempt (read_uint s.dep.deposit_token deposit_token_abi (utf8 "decimals") [])
    supply ← attempt (read_uint s.dep.deposit_token deposit_token_abi (utf8 "totalSupply") [])
    rl ← attempt (read_uint s.dep.reserve_ledger reserve_ledger_abi (utf8 "totalSupply") [])
    decimals ← deref dec
    pure (record {
      name = name;
      symbol = or_empty symbol;
      decimals = low_byte decimals;
      total_supply = nil_string supply;
      reserve_ledger_supply = nil_string rl;
    })
