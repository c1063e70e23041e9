-- ===== src/Demo/Decoding.antt =====
-- internal/demo with internal/depositsvc: each side reads what the other writes.
use besu_interbank_demo.Base.{ℕ, List, [], ◌∷◌, map, Option, some, ◌≡◌, refl, Bytes, bytes_eq}
use besu_interbank_demo.Base.Int.{ℤ}
use besu_interbank_demo.Base.Outcome.{ok}
use besu_interbank_demo.Decimal.{int_string}
use besu_interbank_demo.Decimal.RoundTrip.{set_string-int_string}
use besu_interbank_demo.Demo.Replies.{
  TxResult, tx_result_of_fields, decode_tx_result, tx_results_of_items, decode_tx_results,
  decode_supplies, kept_string, decode_info, decode_raw, error_text,
}
use besu_interbank_demo.Demo.Client.{to_amount_body}
use besu_interbank_demo.DepositSvc.Server.{
  tx_result_json, token_info_json, info_json, balance_json, to_amount_fields, decode_to_amount,
}
use besu_interbank_demo.DepositSvc.Service as Service
use besu_interbank_demo.DepositSvc.Service.{Service, TokenInfo}
use besu_interbank_demo.Platform.Geth.{Geth}
use besu_interbank_demo.Platform.Http.{write_err}
use besu_interbank_demo.Platform.Json.{doc, slice, items, struct_fields, string_field}
use besu_interbank_demo.Platform.Machine.{Machine}

-- The service reads the recipient and the amount that the demo posts, for every integer amount, also a
-- negative one.
pub decode_to_amount-to_amount_body :
    (G : Geth) (to : Bytes) (amount : ℤ)
    → decode_to_amount G (to_amount_body to (int_string amount)) ≡ ok (G.hex_to_address to, amount)
unfolding decode_to_amount to_amount_fields to_amount_body struct_fields string_field bytes_eq
decode_to_amount-to_amount_body G to amount =
    rw (set_string-int_string amount, decode_to_amount) refl

-- What the demo keeps of a service's result.
abbrev pub kept : Service.TxResult → TxResult
kept r = record {
  op = r.op;
  tx_hash = r.tx_hash;
  status = r.status;
  block_number = r.block_number;
  signed_by = r.signed_by;
}

decode_tx_result-json :
    (r : Service.TxResult) → decode_tx_result (doc (tx_result_json r)) ≡ some (kept r)
unfolding decode_tx_result tx_result_of_fields tx_result_json struct_fields string_field bytes_eq
decode_tx_result-json r = refl

tx_results_of_items-json :
    (rs : List Service.TxResult)
    → tx_results_of_items (items (map tx_result_json rs)) ≡ some (map kept rs)
unfolding tx_results_of_items items
tx_results_of_items-json [] = refl
tx_results_of_items-json (r ∷ rs) =
    rw (decode_tx_result-json r, tx_results_of_items-json rs, tx_results_of_items)

decode_tx_results-json :
    (rs : List Service.TxResult)
    → decode_tx_results (doc (slice (map tx_result_json rs))) ≡ some (map kept rs)
unfolding decode_tx_results
decode_tx_results-json [] = refl
decode_tx_results-json (r ∷ rs) = tx_results_of_items-json (r ∷ rs)

-- The demo reads the results of every write, the supplies of /info, the balance of /balance and the text
-- of an error as the service wrote them.
pub demo_reads_service :
    {G : Geth} (m : Machine G) (s : Service)
    → ((r : Service.TxResult) → decode_tx_result (doc (tx_result_json r)) ≡ some (kept r))
      × ((rs : List Service.TxResult)
          → decode_tx_results (doc (slice (map tx_result_json rs))) ≡ some (map kept rs))
      × ((info : TokenInfo) (bal : Option ℤ)
          → decode_info (doc (info_json m s info bal))
            ≡ some (info.total_supply, info.reserve_ledger_supply))
      × ((acct : Bytes) (bal : ℤ)
          → decode_raw (doc (balance_json m acct bal)) ≡ some (int_string bal))
      × ((status : ℕ) (msg : Bytes) → error_text (write_err status msg).body ≡ msg)
unfolding decode_info decode_supplies kept_string info_json token_info_json decode_raw balance_json
    error_text write_err struct_fields string_field bytes_eq
demo_reads_service m s = (
  decode_tx_result-json,
  decode_tx_results-json,
  λ info bal. refl,
  λ acct bal. refl,
  λ status msg. refl,
)
