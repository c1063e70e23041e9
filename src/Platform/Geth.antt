-- ===== src/Platform/Geth.antt =====
-- The pure part of go-ethereum (and strconv.Quote), as a parameter: its operations by their Go names.
use besu_interbank_demo.Base.{ℕ, List, Option, Bytes}
use besu_interbank_demo.Base.Int.{ℤ}
use besu_interbank_demo.Base.Outcome.{Result}
use besu_interbank_demo.Platform.Abi.{Address, Hash, Abi, Argument, Function, Event, Value}

-- types.DynamicFeeTx, in the fields that the code sets.
pub record DynamicFeeTx : Type 0 where
  pub chain_id : ℕ
  pub nonce : ℕ
  pub to : Address
  pub value : ℤ
  pub payload : Bytes
  pub gas_tip_cap : ℤ
  pub gas_fee_cap : ℤ
  pub gas : ℕ

pub record Geth : Type 1 where
  -- common and hexutil
  pub hex_to_address : Bytes → Address
  pub address_hex : Address → Bytes
  pub hex_to_hash : Bytes → Hash
  pub hash_hex : Hash → Bytes
  pub bytes_to_address : Bytes → Address
  pub bytes_to_hex : Bytes → Bytes
  pub encode_hex : Bytes → Bytes
  pub decode_hex : Bytes → Result Bytes
  -- crypto
  pub PrivateKey : Type 0
  pub hex_to_ecdsa : Bytes → Result PrivateKey
  pub pubkey_to_address : PrivateKey → Address
  pub sign : Bytes → PrivateKey → Result Bytes
  pub keccak256 : Bytes → Hash
  -- types; the signer is `LatestSignerForChainID` of its first argument
  pub Transaction : Type 0
  pub new_tx : DynamicFeeTx → Transaction
  pub signer_hash : ℕ → Transaction → Hash
  pub with_signature : ℕ → Transaction → Bytes → Result Transaction
  pub sender : ℕ → Transaction → Result Address
  pub tx_hash : Transaction → Hash
  pub tx_to : Transaction → Option Address
  pub tx_payload : Transaction → Bytes
  pub tx_value : Transaction → ℤ
  pub tx_nonce : Transaction → ℕ
  pub tx_type : Transaction → ℕ
  pub tx_gas : Transaction → ℕ
  -- accounts/abi
  pub pack : Abi → Bytes → List Value → Result Bytes
  pub unpack : Abi → Bytes → Bytes → Result (List Value)
  pub unpack_arguments : List Argument → Bytes → Result (List Value)
  pub method_by_id : Abi → Bytes → Result Function
  pub event_by_id : Abi → Hash → Result Event
  -- strconv.Quote
  pub quote : Bytes → Bytes
