-- ===== src/Demo/Replies.antt =====
-- internal/demo/demo.go: what the demo decodes of the answers of the services.
use besu_interbank_demo.Base.{List, [], ◌∷◌, Option, none, some, Bytes, utf8, if◌then◌else◌}
use besu_interbank_demo.Base.Int.{ℤ, pos}
use besu_interbank_demo.Decimal.{atoi}
use besu_interbank_demo.Platform.Json.{
  Json, null, number, string, array, object, Items, nil, cons, Fields, Body, doc, struct_fields,
  struct_field, string_field, decode_string,
}

pub record TxResult : Type 0 where
  pub op : Bytes
  pub tx_hash : Bytes
  pub status : Bytes
  pub block_number : Bytes
  pub signed_by : Bytes

unfoldable pub tx_result_of_fields : Fields → Option TxResult
tx_result_of_fields fs = elim (string_field (utf8 "op") fs) [
  | none ↦ none
  | some op ↦ elim (string_field (utf8 "txHash") fs) [
    | none ↦ none
    | some tx_hash ↦ elim (string_field (utf8 "status") fs) [
      | none ↦ none
      | some status ↦ elim (string_field (utf8 "blockNumber") fs) [
        | none ↦ none
        | some block_number ↦ elim (string_field (utf8 "signedBy") fs) [
          | none ↦ none
          | some signed_by ↦ some (record {
            op = op;
            tx_hash = tx_hash;
            status = status;
            block_number = block_number;
            signed_by = signed_by;
          })
        ]
      ]
    ]
  ]
]

abbrev then_option : {A B : Type 0} → (A → Option B) → Option A → Option B
then_option f none = none
then_option f (some a) = f a

unfoldable pub decode_tx_result : Body → Option TxResult
decode_tx_result body = then_option tx_result_of_fields (struct_fields body)

unfoldable pub tx_results_of_items : Items → Option (List TxResult)
tx_results_of_items nil = some []
tx_results_of_items (cons j js) = elim (decode_tx_result (doc j)) [
  | none ↦ none
  | some r ↦ elim (tx_results_of_items js) [ none ↦ none | some rs ↦ some (r ∷ rs) ]
]

unfoldable pub decode_tx_results : Body → Option (List TxResult)
decode_tx_results (doc null) = some []
decode_tx_results (doc (array js)) = tx_results_of_items js
decode_tx_results _ = none

-- A string field whose error is dropped: what is no string leaves the text alone.
unfoldable pub kept_string : Json → Bytes → Option Bytes
kept_string (string s) acc = some s
kept_string _ acc = some acc

-- The "token" object of /info, in the two texts that the demo compares. The error of the decoding is
-- dropped, so that each field is read by itself.
unfoldable pub decode_supplies : Json → Bytes × Bytes → Option (Bytes × Bytes)
unfolding kept_string
decode_supplies (object fs) acc = elim (struct_field kept_string (utf8 "totalSupply") acc.0 fs) [
  | none ↦ none
  | some supply ↦ elim (struct_field kept_string (utf8 "reserveLedgerSupply") acc.1 fs) [
    | none ↦ none
    | some rl ↦ some (supply, rl)
  ]
]
decode_supplies _ acc = some acc

unfoldable pub decode_info : Body → Option (Bytes × Bytes)
decode_info body =
    then_option (struct_field decode_supplies (utf8 "token") ([], [])) (struct_fields body)

-- The "token" object of /info, in the parts that the header shows.
pub record TokenHeader : Type 0 where
  pub name : Bytes
  pub symbol : Bytes
  pub decimals : ℤ

-- A JSON number into an int: an integer literal within 64 bits.
unfoldable pub decode_int : Json → ℤ → Option ℤ
decode_int (number s) acc = if (atoi s).1 then some (atoi s).0 else none
decode_int null acc = some acc
decode_int _ acc = none

unfoldable pub decode_header : Json → TokenHeader → Option TokenHeader
unfolding decode_int
decode_header (object fs) acc = elim (struct_field decode_string (utf8 "Name") acc.name fs) [
  | none ↦ none
  | some name ↦ elim (struct_field decode_string (utf8 "Symbol") acc.symbol fs) [
    | none ↦ none
    | some symbol ↦ elim (struct_field decode_int (utf8 "Decimals") acc.decimals fs) [
      | none ↦ none
      | some decimals ↦ some (record { name = name; symbol = symbol; decimals = decimals })
    ]
  ]
]
decode_header null acc = some acc
decode_header _ acc = none

abbrev no_header : TokenHeader
no_header = record { name = []; symbol = []; decimals = pos 0 }

unfoldable pub decode_token : Body → Option TokenHeader
decode_token body =
    then_option (struct_field decode_header (utf8 "token") no_header) (struct_fields body)

unfoldable pub decode_raw : Body → Option Bytes
decode_raw body = then_option (string_field (utf8 "raw")) (struct_fields body)

-- Decoding into a struct with no fields.
unfoldable pub decode_nothing : Body → Option (Unit {0})
decode_nothing body = then_option (λ _. some tt) (struct_fields body)

abbrev or_empty : Option Bytes → Bytes
or_empty none = []
or_empty (some s) = s

unfoldable pub error_text : Body → Bytes
error_text body = or_empty (then_option (string_field (utf8 "error")) (struct_fields body))
