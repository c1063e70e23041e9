-- ===== src/Platform/Abi.antt =====
-- Contract interfaces: what the JSON literals that `abi.JSON` parses hold, and the Go values that
-- packing takes and unpacking returns.
use besu_interbank_demo.Base.{ℕ, Bool, List, Bytes, utf8}
use besu_interbank_demo.Base.Int.{ℤ}

-- common.Address and common.Hash, by their bytes.
abbrev pub Address : Type 0
Address = Bytes

abbrev pub Hash : Type 0
Hash = Bytes

pub data AbiType : Type 0 where
  address_type uint256_type uint64_type uint8_type bool_type string_type : AbiType

pub record Argument : Type 0 where
  pub name : Bytes
  pub type : AbiType
  pub indexed : Bool

pub record Function : Type 0 where
  pub name : Bytes
  pub inputs : List Argument
  pub outputs : List Argument

pub record Event : Type 0 where
  pub name : Bytes
  pub inputs : List Argument

pub record Abi : Type 0 where
  pub functions : List Function
  pub events : List Event

-- A value of Go type `any`. `opaque` is a value of a type that the code does not name, by its `%T` and
-- `%v` texts, and `nothing` is the nil interface.
pub data Value : Type 0 where
  address : Address → Value
  big_int : ℤ → Value
  uint64 : ℕ → Value
  uint8 : ℕ → Value
  bool : Bool → Value
  str : Bytes → Value
  opaque : Bytes → Bytes → Value
  nothing : Value

-- `abi.Type.String()`.
unfoldable pub type_string : AbiType → Bytes
type_string address_type = utf8 "address"
type_string uint256_type = utf8 "uint256"
type_string uint64_type = utf8 "uint64"
type_string uint8_type = utf8 "uint8"
type_string bool_type = utf8 "bool"
type_string string_type = utf8 "string"
