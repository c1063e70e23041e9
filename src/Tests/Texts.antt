-- ===== src/Tests/Texts.antt =====
-- Amounts, key lists and documents at concrete texts.
use mathlib.Core.List.{cons-ne-nil}
use besu_interbank_demo.Base.{All, ℕ, ℕ, List, [], ◌∷◌, map, Option, some, ◌≡◌, Bytes, utf8, arith}
use besu_interbank_demo.Base.Int.{ℤ}
use besu_interbank_demo.Cmd.Keys.{IsKey}
use besu_interbank_demo.Demo.Console.{dim, IsLine, pipe_prefixed, print_lines, reads_of, pipe_whole}
use besu_interbank_demo.Decimal.{int_string}
use besu_interbank_demo.Demo.Replies.{
  decode_tx_result, decode_tx_results, decode_info, decode_raw, error_text,
}
use besu_interbank_demo.Demo.Decoding.{kept, demo_reads_service}
use besu_interbank_demo.DepositSvc.Server.{tx_result_json, info_json, balance_json}
use besu_interbank_demo.DepositSvc.Service.{TxResult, TokenInfo}
use besu_interbank_demo.Platform.Http.{write_err}
use besu_interbank_demo.Platform.Json.{doc, slice}
use besu_interbank_demo.Tests.Deposits.{machine, service_a}
use besu_interbank_demo.Wfusd.{join_commas, thousands}
use besu_interbank_demo.Wfusd.Grouping.{IsGrouped, concat}
use besu_interbank_demo.Wfusd.Reading.{thousands_lem}

thousands_lem_example :
    (parts : List Bytes) × (thousands (utf8 "1234567") ≡ join_commas parts)
    × IsGrouped parts
    × (concat parts ≡ utf8 "1234567")
thousands_lem_example = thousands_lem (utf8 "1234567") (cons-ne-nil _ _)

IsKey-1 : IsKey (utf8 "key://a")
IsKey-1 = (cons-ne-nil _ _, (ground arith))

IsKey-2 : IsKey (utf8 "key://b")
IsKey-2 = (cons-ne-nil _ _, (ground arith))

demo_reads_service_example :
    ((r : TxResult) → decode_tx_result (doc (tx_result_json r)) ≡ some (kept r))
    × ((rs : List TxResult)
        → decode_tx_results (doc (slice (map tx_result_json rs))) ≡ some (map kept rs))
    × ((info : TokenInfo) (bal : Option ℤ)
        → decode_info (doc (info_json machine service_a info bal))
          ≡ some (info.total_supply, info.reserve_ledger_supply))
    × ((acct : Bytes) (bal : ℤ)
        → decode_raw (doc (balance_json machine acct bal)) ≡ some (int_string bal))
    × ((status : ℕ) (msg : Bytes) → error_text (write_err status msg).body ≡ msg)
demo_reads_service_example = demo_reads_service machine service_a

-- Two reads of a child: two lines, and then one with two newlines behind it.
abbrev parts : List (Bytes × List Bytes × ℕ)
parts = (utf8 "one", utf8 "two" ∷ [], 1) ∷ (utf8 "three", [], 2) ∷ []

parts-IsLine : All (λ p. All IsLine (p.0 ∷ p.1)) parts
parts-IsLine = (
  ((cons-ne-nil _ _, (ground arith)), ((cons-ne-nil _ _, (ground arith)), tt)),
  (((cons-ne-nil _ _, (ground arith)), tt), tt),
)

pipe_whole_example :
    pipe_prefixed (utf8 "router-A") dim (reads_of parts)
    ≡ print_lines (utf8 "router-A") dim (utf8 "one" ∷ utf8 "two" ∷ utf8 "three" ∷ [])
pipe_whole_example = pipe_whole (utf8 "router-A") dim parts parts-IsLine
