-- ===== src/Webui/Decode.antt =====
-- internal/webui/server.go: decoding calldata and logs for the explorer.
use besu_interbank_demo.Base.{
  ℕ, ◌+◌, ◌*◌, Bool, true, false, ◌||◌, List, [], ◌∷◌, ◌++◌, Option, none, some, Bytes, utf8,
  length, take, drop, ltb, ◌==◌, if◌then◌else◌,
}
use besu_interbank_demo.Base.Dict.{Dict, lookup, insert}
use besu_interbank_demo.Base.Int.{pos}
use besu_interbank_demo.Base.Outcome.{Result, ok, err}
use besu_interbank_demo.Config.{bank_a, bank_b, merchant}
use besu_interbank_demo.Config.Deployment.{Deployment}
use besu_interbank_demo.Decimal.{decimal, int_string}
use besu_interbank_demo.Platform.Abi.{
  AbiType, address_type, uint256_type, uint64_type, uint8_type, bool_type, string_type, Argument,
  Address, Hash, Value, address, big_int, uint64, uint8, bool, str, opaque, nothing, type_string,
}
use besu_interbank_demo.Platform.Geth.{Geth}
use besu_interbank_demo.Platform.Machine.{Machine, Log}
use besu_interbank_demo.Webui.DecoderAbi.{decoder_abi}
use besu_interbank_demo.Wfusd.{human_wfusd}

pub record Param : Type 0 where
  pub name : Bytes
  pub type : Bytes
  pub value : Bytes
  pub human : Bytes
  pub label : Bytes

pub record LogEntry : Type 0 where
  pub address : Bytes
  pub event : Bytes
  pub params : List Param
  pub topic0 : Bytes
  pub raw : Bool

-- The big-endian number of some bytes.
unfoldable pub set_bytes : ℕ → Bytes → ℕ
set_bytes n [] = n
set_bytes n (b ∷ bs) = set_bytes (n * 256 + b) bs

abbrev bool_text : Bool → Bytes
bool_text true = utf8 "true"
bool_text false = utf8 "false"

module _ (G : Geth) where
  -- Every uint and int type is shown as a number.
  unfoldable pub topic_value : AbiType → Hash → Value
  unfolding set_bytes
  topic_value address_type topic = address (G.bytes_to_address topic)
  topic_value uint256_type topic = big_int (pos (set_bytes 0 topic))
  topic_value uint64_type topic = big_int (pos (set_bytes 0 topic))
  topic_value uint8_type topic = big_int (pos (set_bytes 0 topic))
  topic_value bool_type topic = bool (ltb 0 (set_bytes 0 topic))
  topic_value string_type topic = str (G.hash_hex topic)

-- The values for an event's arguments: indexed ones from the topics, from the second on, and the others
-- from the data, in order; the nil interface where there is none.
unfoldable pub event_values : Geth → List Argument → List Hash → List Value → List Value
event_values G [] topics vals = []
event_values G (a ∷ args) topics vals = elim a.indexed [
  | true ↦ elim topics [
    | [] ↦ nothing ∷ event_values G args [] vals
    | t ∷ ts ↦ topic_value G a.type t ∷ event_values G args ts vals
  ]
  | false ↦ elim vals [
    | [] ↦ nothing ∷ event_values G args topics []
    | v ∷ vs ↦ v ∷ event_values G args topics vs
  ]
]

unfoldable pub non_indexed : List Argument → List Argument
non_indexed [] = []
non_indexed (a ∷ args) = let rest = non_indexed args in if a.indexed then rest else a ∷ rest

abbrev or_no_values : Result (List Value) → List Value
or_no_values (ok vals) = vals
or_no_values (err _) = []

module _ {G : Geth} (m : Machine G) (dep : Deployment) where
  unfoldable pub label : Address → Bytes
  label a =
      if a == (bank_a m).address
      then utf8 "Bank A"
      else if a == (bank_b m).address
      then utf8 "Bank B"
      else if a == merchant m
      then utf8 "Merchant"
      else if a == dep.deposit_token
      then utf8 "DepositToken"
      else if a == dep.token_authority
      then utf8 "TokenAuthority"
      else if a == dep.reserve_ledger
      then utf8 "ReserveLedger"
      else if a == dep.auth_registry
      then utf8 "AuthRegistry"
      else if a == dep.token_handler
      then utf8 "TokenHandler"
      else G.address_hex a

  abbrev plain : Bytes → Bytes → Bytes → Param
  plain name typ value = record { name = name; type = typ; value = value; human = []; label = [] }

  abbrev pub friendly : Address → Bytes
  friendly a = if label a == G.address_hex a then [] else label a

  unfoldable pub fmt_param : Bytes → Bytes → Value → Param
  fmt_param name typ (address a) = record (plain name typ (G.address_hex a)) { label = friendly a }
  fmt_param name typ (big_int v) = record (plain name typ (int_string v)) {
    human =
        if name == utf8 "amount" || name == utf8 "value"
        then human_wfusd v ++ utf8 " WFUSD"
        else [];
  }
  fmt_param name typ (bool b) = plain name typ (bool_text b)
  fmt_param name typ (uint64 n) = plain name typ (decimal n)
  fmt_param name typ (uint8 n) = plain name typ (decimal n)
  fmt_param name typ (str s) = plain name typ s
  fmt_param name typ (opaque _ shown) = plain name typ shown
  fmt_param name typ nothing = plain name typ (utf8 "<nil>")

  -- One parameter for each argument; `none` is the panic of `vals[i]` past the end.
  unfoldable pub fmt_params : List Argument → List Value → Option (List Param)
  fmt_params [] vals = some []
  fmt_params (a ∷ args) [] = none
  fmt_params (a ∷ args) (v ∷ vals) = elim (fmt_params args vals) [
    | none ↦ none
    | some ps ↦ some (fmt_param a.name (type_string a.type) v ∷ ps)
  ]

  -- The outer `none` is a panic; a result `none` inside is the nil slice.
  unfoldable pub decode_input : Bytes → Option (Option (List Param))
  decode_input payload =
      if ltb (length payload) 4
      then some none
      else elim (G.method_by_id decoder_abi (take 4 payload)) [
        | err _ ↦ some none
        | ok method ↦ elim (G.unpack_arguments method.inputs (drop 4 payload)) [
          | err _ ↦ some none
          | ok vals ↦ elim (fmt_params method.inputs vals) [
            | none ↦ none
            | some ps ↦ some (some ps)
          ]
        ]
      ]

  unfoldable pub zip_params : List Argument → List Value → List Param
  zip_params [] vals = []
  zip_params (a ∷ args) [] = []
  zip_params (a ∷ args) (v ∷ vals) = fmt_param a.name (type_string a.type) v ∷ zip_params args vals

  unfoldable pub decode_log : Log → Hash → List Hash → LogEntry
  decode_log lg topic0 topics = elim (G.event_by_id decoder_abi topic0) [
    | err _ ↦ record {
      address = label lg.address;
      event = utf8 "Unknown";
      params = [];
      topic0 = G.hash_hex topic0;
      raw = true;
    }
    | ok ev ↦ record {
      address = label lg.address;
      event = ev.name;
      params = zip_params ev.inputs (
          event_values G ev.inputs topics
            (or_no_values (G.unpack_arguments (non_indexed ev.inputs) lg.payload)));
      topic0 = [];
      raw = false;
    }
  ]

  abbrev pub log_entries : Log → List Hash → Option (List LogEntry) → Option (List LogEntry)
  log_entries lg [] rest = rest
  log_entries lg (t ∷ ts) none = none
  log_entries lg (t ∷ ts) (some entries) = some (decode_log lg t ts ∷ entries)

  -- A log with no topic is left out; `none` is the panic at a nil log.
  unfoldable pub decode_logs : List (Option Log) → Option (List LogEntry)
  decode_logs [] = some []
  decode_logs (none ∷ logs) = none
  decode_logs (some lg ∷ logs) = log_entries lg lg.topics (decode_logs logs)

-- The 4-byte selectors of the four calls, as hex text.
module _ (G : Geth) where
  unfoldable pub selector : Bytes → Bytes
  selector sig = utf8 "0x" ++ G.bytes_to_hex (take 4 (G.keccak256 sig))

  unfoldable pub selectors : Dict Bytes
  selectors =
      insert (selector (utf8 "modifyPolicyWhitelist(uint64,address,bool)")) (utf8 "authorize") (
        insert (selector (utf8 "transfer(address,uint256)")) (utf8 "transfer") (
          insert (selector (utf8 "burn(address,uint256)")) (utf8 "burn")
            (insert (selector (utf8 "mint(address,address,uint256)")) (utf8 "mint") [])))

  unfoldable pub method_name : Bytes → Bytes
  method_name payload =
      if ltb (length payload) 4
      then utf8 "transfer(ETH)"
      else let sel = utf8 "0x" ++ G.bytes_to_hex (take 4 payload) in
        elim (lookup sel selectors) [ some name ↦ name | none ↦ sel ]
