-- ===== src/Platform/Json.antt =====
-- JSON documents as `encoding/json` reads and writes them. The text of a document is not modelled: a
-- body is a document, or a text that is none.
use besu_interbank_demo.Base.{
  ℕ, ◌+◌, ◌^◌, Bool, true, false, ◌&&◌, List, [], ◌∷◌, map, Option, none, some, Bytes, leb, ltb,
  ◌==◌, if◌then◌else◌,
}
use besu_interbank_demo.Decimal.{parse_digits}

-- A number is its literal. An object keeps its fields in the order of the text.
mutual
  pub data Json : Type 0 where
    null : Json
    boolean : Bool → Json
    number : Bytes → Json
    string : Bytes → Json
    array : Items → Json
    object : Fields → Json

  pub data Items : Type 0 where
    nil : Items
    cons : Json → Items → Items

  pub data Fields : Type 0 where
    end : Fields
    field : Bytes → Json → Fields → Fields

pub data Body : Type 0 where
  text : Bytes → Body
  doc : Json → Body

-- A Go slice as an array; the nil slice is `null`.
unfoldable pub items : List Json → Items
items [] = nil
items (j ∷ js) = cons j (items js)

abbrev pub slice : List Json → Json
slice [] = null
slice (j ∷ js) = array (items (j ∷ js))

-- Key matching ignores ASCII case.
unfoldable pub fold_case : ℕ → ℕ
fold_case c = if leb b'A' c && leb c b'Z' then c + 32 else c

unfoldable pub same_key : Bytes → Bytes → Bool
unfolding fold_case
same_key name key = map fold_case name == map fold_case key

-- The value of a struct's field after decoding an object's fields in order, from the value it has; the
-- last field counts, and `none` is the error of a value that `decode` refuses.
unfoldable pub struct_field : {A : Type 0} → (Json → A → Option A) → Bytes → A → Fields → Option A
unfolding same_key
struct_field decode name acc end = some acc
struct_field decode name acc (field key j rest) = elim (same_key name key) [
  | true ↦ elim (decode j acc) [ none ↦ none | some a ↦ struct_field decode name a rest ]
  | false ↦ struct_field decode name acc rest
]

-- `null` leaves a string or a number as it is.
unfoldable pub decode_string : Json → Bytes → Option Bytes
decode_string (string s) acc = some s
decode_string null acc = some acc
decode_string _ acc = none

unfoldable pub decode_uint64 : Json → ℕ → Option ℕ
decode_uint64 (number s) acc = elim (parse_digits s) [
  | some n ↦ if ltb n (2 ^ 64) then some n else none
  | none ↦ none
]
decode_uint64 null acc = some acc
decode_uint64 _ acc = none

unfoldable pub string_field : Bytes → Fields → Option Bytes
unfolding struct_field decode_string
string_field name fs = struct_field decode_string name [] fs

-- The fields that a document hands to a struct; `null` leaves the struct alone.
unfoldable pub struct_fields : Body → Option Fields
struct_fields (text _) = none
struct_fields (doc null) = some end
struct_fields (doc (object fs)) = some fs
struct_fields (doc _) = none
