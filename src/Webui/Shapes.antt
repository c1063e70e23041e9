-- ===== src/Webui/Shapes.antt =====
-- internal/webui/server.go: the objects that the explorer answers with, and their JSON.
use besu_interbank_demo.Base.{
  ℕ, true, List, [], ◌∷◌, map, Option, none, some, Bytes, utf8, if◌then◌else◌,
}
use besu_interbank_demo.Decimal.{decimal}
use besu_interbank_demo.Platform.Json.{
  Json, boolean, number, string, array, object, items, slice, Fields, field, end, null,
}
use besu_interbank_demo.Webui.Decode.{Param, LogEntry}

pub record ExTx : Type 0 where
  pub hash : Bytes
  pub from : Bytes
  pub to : Bytes
  pub method : Bytes
  pub status : Bytes
  pub block : ℕ
  pub value : Bytes

pub record ExBlock : Type 0 where
  pub number : ℕ
  pub hash : Bytes
  pub time : ℕ
  pub tx_count : ℕ
  pub txs : List ExTx

pub record TxDetail : Type 0 where
  pub hash : Bytes
  pub status : Bytes
  pub method : Bytes
  pub block : ℕ
  pub block_hash : Bytes
  pub timestamp : Bytes
  pub from : Bytes
  pub from_addr : Bytes
  pub to : Bytes
  pub to_addr : Bytes
  pub value : Bytes
  pub nonce : ℕ
  pub tx_type : ℕ
  pub gas_limit : ℕ
  pub gas_used : ℕ
  pub gas_price : Bytes
  pub input : Bytes
  pub decoded : Option (List Param)
  pub logs : Option (List LogEntry)

abbrev num : ℕ → Json
num n = number (decimal n)

unfoldable pub ex_tx_json : ExTx → Json
ex_tx_json t = object (
    field (utf8 "hash") (string t.hash) (
      field (utf8 "from") (string t.from) (
        field (utf8 "to") (string t.to) (
          field (utf8 "method") (string t.method) (
            field (utf8 "status") (string t.status)
              (field (utf8 "block") (num t.block) (field (utf8 "value") (string t.value) end)))))))

unfoldable pub ex_block_json : ExBlock → Json
ex_block_json b = object (
    field (utf8 "number") (num b.number) (
      field (utf8 "hash") (string b.hash) (
        field (utf8 "time") (num b.time) (
          field (utf8 "txCount") (num b.tx_count)
            (field (utf8 "txs") (slice (map ex_tx_json b.txs)) end)))))

-- `omitempty` leaves out an empty text.
abbrev unless_empty : Bytes → Bytes → Fields → Fields
unless_empty name [] rest = rest
unless_empty name (c ∷ s) rest = field name (string (c ∷ s)) rest

unfoldable pub param_json : Param → Json
param_json p = object (
    field (utf8 "name") (string p.name) (
      field (utf8 "type") (string p.type) (
        field (utf8 "value") (string p.value)
          (unless_empty (utf8 "human") p.human (unless_empty (utf8 "label") p.label end)))))

abbrev params_field : List Param → Fields → Fields
params_field [] rest = rest
params_field (p ∷ ps) rest = field (utf8 "params") (array (items (map param_json (p ∷ ps)))) rest

unfoldable pub log_json : LogEntry → Json
log_json l = object (
    field (utf8 "address") (string l.address) (
      field (utf8 "event") (string l.event) (
        params_field l.params (
          unless_empty (utf8 "topic0") l.topic0
            (if l.raw then field (utf8 "raw") (boolean true) end else end)))))

-- A slice that may be nil.
abbrev nil_or : Option (List Json) → Json
nil_or none = null
nil_or (some js) = array (items js)

abbrev map_option : {A B : Type 0} → (A → B) → Option (List A) → Option (List B)
map_option f none = none
map_option f (some xs) = some (map f xs)

unfoldable pub tx_detail_json : TxDetail → Json
tx_detail_json d = object (
    field (utf8 "hash") (string d.hash) (
      field (utf8 "status") (string d.status) (
        field (utf8 "method") (string d.method) (
          field (utf8 "block") (num d.block) (
            field (utf8 "blockHash") (string d.block_hash) (
              field (utf8 "timestamp") (string d.timestamp) (
                field (utf8 "from") (string d.from) (
                  field (utf8 "fromAddr") (string d.from_addr) (
                    field (utf8 "to") (string d.to) (
                      field (utf8 "toAddr") (string d.to_addr) (
                        field (utf8 "value") (string d.value) (
                          field (utf8 "nonce") (num d.nonce) (
                            field (utf8 "txType") (num d.tx_type) (
                              field (utf8 "gasLimit") (num d.gas_limit) (
                                field (utf8 "gasUsed") (num d.gas_used) (
                                  field (utf8 "gasPrice") (string d.gas_price) (
                                    field (utf8 "input") (string d.input) (
                                      field (utf8 "decoded")
                                        (nil_or (map_option param_json d.decoded))
                                        (field (utf8 "logs") (nil_or (map_option log_json d.logs))
                                          end)))))))))))))))))))

-- The status of a transaction from the answer to its receipt's request.
