-- ===== src/Tests/Explorer.antt =====
-- The explorer, and the demo's last step, at a concrete chain.
use besu_interbank_demo.Base.{
  ◌≤◌, true, false, List, [], ◌∷◌, ◌==◌, if◌then◌else◌, map, some, none, ◌≡◌, inl, refl, Bytes,
  utf8, bytes_eq, length, arith,
}
use besu_interbank_demo.Base.Int.{pos}
use besu_interbank_demo.Base.Outcome.{Outcome, Result, ok, err, done, panic, fail, attempt, effects}
use besu_interbank_demo.Chainx.{deposit_token_abi, reserve_ledger_abi}
use besu_interbank_demo.Demo.Client.{wait_healthy}
use besu_interbank_demo.DepositSvc.Errors.{token_info_panics}
use besu_interbank_demo.DepositSvc.Server.{handle_info}
use besu_interbank_demo.DepositSvc.Service.{
  read_uint, read_string, call_method, string_or_empty, uint_value,
}
use besu_interbank_demo.Platform.Abi.{
  Function, address_type, uint256_type, Argument, Value, Hash, big_int,
}
use besu_interbank_demo.Platform.Http.{get, Request, Response, query_get, write_json, write_err}
use besu_interbank_demo.DepositSvc.Requests.{refusal}
use besu_interbank_demo.Platform.Json.{null, slice, text}
use besu_interbank_demo.Platform.Machine.{Machine}
use besu_interbank_demo.Tests.Deposits.{machine, book, service_a, service_b}
use besu_interbank_demo.Tests.Fake.{no_values, FakeTx, fake_geth}
use besu_interbank_demo.Base.Keeps.{Keeps}
use besu_interbank_demo.Webui.Reads.{ExplorerReadsKeep, web_handler-Keeps}
use besu_interbank_demo.Webui.Server as Web
use besu_interbank_demo.Demo.Waiting.{Waited, wait_healthy-Waited}
use besu_interbank_demo.Webui.Answers.{IsOneOf, DecodingLaws, IsAnswered, handle_tx-IsAnswered}
use besu_interbank_demo.Webui.Tx.{handle_tx}
use besu_interbank_demo.DepositSvc.Writes.{build_tx}
use besu_interbank_demo.Webui.Blocks.{CountsDown, Complete, AnswersByNumber, handle_blocks_lem}
use besu_interbank_demo.Webui.DecoderAbi.{decoder_abi}
use besu_interbank_demo.Webui.Decode.{event_values, non_indexed}
use besu_interbank_demo.Webui.Shapes.{ExBlock, ex_block_json}
use besu_interbank_demo.Webui.Explorer.{block_count, handle_blocks}
use besu_interbank_demo.Webui.Logs.{at_data, at_topics, topic_values, event_values-merged}

-- A chain of empty blocks.
abbrev chain : Machine fake_geth
chain = record machine {
  block_number = λ w. (ok 3, w);
  block_by_number = λ n w. (ok (record { number = n; hash = []; time = n; transactions = [] }), w);
}

chain_numbered : AnswersByNumber chain book
chain_numbered n w w' b e = ground arith

abbrev blocks_request : Request
blocks_request = record { method = get; path = utf8 "/api/blocks"; query = []; body = text [] }

handle_blocks_lem_example :
    (out : List ExBlock) × (w' : List FakeTx) × (handle_blocks chain book blocks_request []
      ≡ (done (write_json 200 (slice (map ex_block_json out))), w'))
    × (length out ≤ block_count (query_get (utf8 "n") blocks_request.query))
    × (length out ≤ 50)
    × Complete chain book (block_count (query_get (utf8 "n") blocks_request.query)) 0 3 (length out)
    × CountsDown 3 0 out
handle_blocks_lem_example =
    handle_blocks_lem chain book chain_numbered blocks_request [] [] {head = 3} (ground arith) refl

abbrev transfer_inputs : List Argument
transfer_inputs =
    record { name = utf8 "from"; type = address_type; indexed = true }
    ∷ record { name = utf8 "to"; type = address_type; indexed = true }
    ∷ record { name = utf8 "value"; type = uint256_type; indexed = false }
    ∷ []

abbrev transfer_topics : List Hash
transfer_topics = utf8 "alice" ∷ utf8 "bob" ∷ []

abbrev transfer_data : List Value
transfer_data = big_int (pos 5) ∷ []

one_value : length transfer_data ≡ length (non_indexed transfer_inputs)
unfolding non_indexed
one_value = refl

event_values-merged_example :
    (length (event_values fake_geth transfer_inputs transfer_topics transfer_data)
      ≡ length transfer_inputs)
    × (at_data transfer_inputs
          (event_values fake_geth transfer_inputs transfer_topics transfer_data)
        ≡ transfer_data)
    × (at_topics transfer_inputs
          (event_values fake_geth transfer_inputs transfer_topics transfer_data)
        ≡ topic_values fake_geth transfer_inputs transfer_topics)
event_values-merged_example =
    event_values-merged fake_geth transfer_inputs transfer_topics transfer_data refl one_value

-- A machine whose HTTP calls all get the refusal of bank B's service.
abbrev with_service_b : Machine fake_geth
with_service_b = record machine {
  http = λ c w. (ok (write_err 400 (refusal machine service_b (utf8 "mint"))), w);
}

-- A machine whose token has no decimals.
abbrev answer_call : Bytes → Result Bytes
answer_call payload = if payload == utf8 "decimals" then err (utf8 "execution reverted") else ok []

abbrev no_decimals : Machine fake_geth
no_decimals = record machine { call_contract = λ msg w. (answer_call msg.payload, w) }

reads_name :
    read_string no_decimals (utf8 "token") deposit_token_abi (utf8 "name") [] ≡ (done [], [])
unfolding read_string call_method effects string_or_empty bytes_eq
reads_name = refl

reads_symbol :
    attempt (read_string no_decimals (utf8 "token") deposit_token_abi (utf8 "symbol")) []
    ≡ (done (some []), [])
unfolding read_string call_method effects string_or_empty bytes_eq
reads_symbol = refl

reads_no_decimals :
    read_uint no_decimals (utf8 "token") deposit_token_abi (utf8 "decimals") [] []
    ≡ (fail (utf8 "execution reverted"), [])
unfolding read_uint call_method effects uint_value bytes_eq
reads_no_decimals = refl

reads_supply :
    attempt (read_uint no_decimals (utf8 "token") deposit_token_abi (utf8 "totalSupply") []) []
    ≡ (done (some (pos 7)), [])
unfolding read_uint call_method effects uint_value bytes_eq
reads_supply = refl

reads_rl :
    attempt (read_uint no_decimals (utf8 "ledger") reserve_ledger_abi (utf8 "totalSupply") []) []
    ≡ (done (some (pos 7)), [])
unfolding read_uint call_method effects uint_value bytes_eq
reads_rl = refl

token_info_panics_example : handle_info no_decimals service_a [] ≡ (panic, [])
token_info_panics_example =
    token_info_panics no_decimals service_a [] [] [] [] [] [] {name = []}
      {e = utf8 "execution reverted"} reads_name (some []) reads_symbol reads_no_decimals
      (some (pos 7)) (some (pos 7)) reads_supply reads_rl

-- A chain that knows one transaction, mined in block 1.
abbrev known_tx : FakeTx
known_tx = record {
  fields = build_tx 0 none 21_000 (utf8 "token") (utf8 "transfer");
  signature = utf8 "signature";
}

abbrev with_tx : Machine fake_geth
with_tx = record machine {
  transaction_by_hash = λ h w. (ok (known_tx, false), w);
  transaction_receipt = λ h w. (
    ok (
        some (record {
          status = 1;
          block_number = some (pos 1);
          block_hash = [];
          gas_used = 90_000;
          effective_gas_price = none;
          logs = [];
        })),
    w,
  );
}

first_found :
    (id : Bytes) (f : Function)
    → fake_geth.method_by_id decoder_abi id ≡ ok f
    → IsOneOf f decoder_abi.functions
unfolding decoder_abi
first_found id f e = inl (ground arith)

length-no_values : (args : List Argument) → length (no_values args) ≡ length (non_indexed args)
unfolding non_indexed
length-no_values [] = refl
length-no_values (a ∷ args) = ground (arith, length-no_values args)

fake_decoding : DecodingLaws fake_geth
fake_decoding = record {
  found = first_found;
  unpacked = λ args payload vals e. ground (arith, length-no_values args);
}

handle_tx-IsAnswered_example : IsAnswered with_tx book (handle_tx with_tx book blocks_request []).0
handle_tx-IsAnswered_example =
    handle_tx-IsAnswered with_tx book fake_decoding (λ hash w. (pos 1, refl, tt)) blocks_request []

explorer_reads : ExplorerReadsKeep machine (λ w. w ≡ [])
explorer_reads = record {
  contract = λ msg w h. h;
  head = λ w h. h;
  block = λ n w h. h;
  transaction = λ hash w h. h;
  receipt = λ hash w h. h;
  header = λ hash w h. h;
}

abbrev no_files : Request → Response
no_files r = write_err 404 []

abbrev web : Web.Server
web = record { dep = book; static_dir = [] }

web_handler-Keeps_example : Keeps (λ w. w ≡ []) (Web.handler machine no_files web blocks_request)
web_handler-Keeps_example =
    web_handler-Keeps machine (λ w. w ≡ []) explorer_reads no_files web (λ r w h. h) (λ r w h. h)
      (λ r w h. h) blocks_request

-- A machine on which every service is up.
abbrev all_up : Machine fake_geth
all_up = record machine { http = λ c w. (ok (write_json 200 null), w) }

wait_healthy-Waited_example :
    (o : Outcome (Unit {0})) × (w' : List FakeTx) × (wait_healthy all_up (utf8 "http://a") []
      ≡ (o, w'))
    × Waited all_up (utf8 "http://a") 80 [] o w'
wait_healthy-Waited_example = wait_healthy-Waited all_up (utf8 "http://a") refl []
