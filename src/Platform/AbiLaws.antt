-- ===== src/Platform/AbiLaws.antt =====
-- What go-ethereum documents of contract interfaces: a call's data is the four-byte id of its method, which
-- begins the Keccak hash of the signature, and the encoded arguments.
use besu_interbank_demo.Base.{
  ◌<◌, ◌^◌, List, [], ◌∷◌, ◌++◌, map, Option, none, some, ◌≡◌, Bytes, ◌==◌, if◌then◌else◌, length,
  take, All,
}
use besu_interbank_demo.Base.Int.{pos}
use besu_interbank_demo.Base.Outcome.{ok}
use besu_interbank_demo.Platform.Abi.{
  AbiType, address_type, uint256_type, uint64_type, uint8_type, bool_type, string_type, Argument,
  Function, Abi, Value, address, big_int, uint64, uint8, bool, str, type_string,
}
use besu_interbank_demo.Platform.Geth.{Geth}

-- The types of a signature, with commas between them.
abbrev pub type_list : List AbiType → Bytes
type_list [] = []
type_list (t ∷ []) = type_string t
type_list (t ∷ u ∷ ts) = type_string t ++ b',' ∷ type_list (u ∷ ts)

-- `abi.Method.Sig`.
abbrev pub signature : Function → Bytes
signature f = f.name ++ b'(' ∷ type_list (map (λ a. a.type) f.inputs) ++ b')' ∷ []

-- `abi.Method.ID`.
abbrev pub method_id : Geth → Function → Bytes
method_id G f = take 4 (G.keccak256 (signature f))

-- The function of a name.
unfoldable pub function_named : Bytes → List Function → Option Function
function_named name [] = none
function_named name (f ∷ fs) =
    let rest = function_named name fs in if f.name == name then some f else rest

-- A value of the Go type of an argument, within its bounds.
abbrev pub Fits : AbiType → Value → Type 0
Fits address_type (address a) = Unit
Fits uint256_type (big_int (pos n)) = n < 2 ^ 256
Fits uint64_type (uint64 n) = n < 2 ^ 64
Fits uint8_type (uint8 n) = n < 2 ^ 8
Fits bool_type (bool b) = Unit
Fits string_type (str s) = Unit
Fits _ _ = ⊥

abbrev pub AllFit : List Argument → List Value → Type 0
AllFit [] [] = Unit
AllFit (a ∷ args) (v ∷ vals) = Fits a.type v × AllFit args vals
AllFit _ _ = ⊥

pub record AbiLaws (G : Geth) : Type 0 where
  -- Every hash has 32 bytes.
  pub hash_size : (s : Bytes) → length (G.keccak256 s) ≡ 32
  -- Packed arguments that fit are unpacked again, behind the id of the method.
  pub packs :
      (a : Abi) (f : Function) (vals : List Value) (payload : Bytes)
      → function_named f.name a.functions ≡ some f
      → AllFit f.inputs vals
      → G.pack a f.name vals ≡ ok payload
      → (body : Bytes) × (payload ≡ method_id G f ++ body)
        × (G.unpack_arguments f.inputs body ≡ ok vals)
  -- A method is found by its id, where no other method has that id.
  pub finds :
      (a : Abi) (f : Function)
      → function_named f.name a.functions ≡ some f
      → All (λ g. method_id G g ≡ method_id G f → g ≡ f) a.functions
      → G.method_by_id a (method_id G f) ≡ ok f
