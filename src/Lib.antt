-- ===== src/Lib.antt =====
-- A model of the interbank demo, a Go program: two banks issue and move a deposit token on a Besu
-- chain, and every transaction is signed by a router that holds the bank's key.
--
-- The parts, and how they interact. `cmd/signing-router` runs a router (`internal/signrouter`)
-- that is provisioned with some KeyIDs and signs 32-byte hashes over HTTP. `cmd/deposit-svc` runs
-- one bank's deposit service (`internal/depositsvc`): it checks the bank's role, packs a contract
-- call, fills in nonce, fee and gas, has its router sign the hash, broadcasts the transaction and
-- waits for its receipt. `cmd/webui` serves an explorer of the chain and forwards the writes to
-- the banks' services (`internal/webui`). `cmd/demo` starts all of them and drives a scenario
-- (`internal/demo`). All read `internal/config` and the ABIs of `internal/chainx`.
--
-- Which file models what:
-- - Config, Config/Deployment, Config/Load: `internal/config/config.go`.
-- - Chainx: `internal/chainx/abis.go`.
-- - SignRouter/Keystore and SignRouter/Server: `keystore.go` and `server.go` of
--   `internal/signrouter`, loadKey as load_key, signHash as sign_hash, New as new with its loop
--   load_keys, handleSign as handle_sign with its last part sign_and_reply. SignRouter/Provision,
--   SignRouter/Sign and SignRouter/KeySet hold proofs, and SignRouter/Listening says what it is
--   for a router to be reached at a URL, with its own handler for every method and path.
-- - DepositSvc/Service and DepositSvc/Writes: `internal/depositsvc/service.go`, the reads and the
--   writes; buildSignBroadcast as build_sign_broadcast with its second half sign_broadcast,
--   routerSign as router_sign with read_reply, Authorize as authorize with authorize_loop.
--   DepositSvc/Server: `internal/depositsvc/server.go`, one function for each handler.
--   DepositSvc/Tasks and DepositSvc/Tasks/Serve model the same code as tasks, which stop at each
--   library call, with serve as the handler: the requests of one moment are a system of tasks
--   (Base/Task/Schedule) that any order of calls runs. DepositSvc/Tasks/Served ties a task that
--   runs alone to the handler. The other files of DepositSvc hold proofs, DepositSvc/Concurrent
--   those on systems.
-- - Webui/Server, Webui/Explorer, Webui/Shapes, Webui/Tx, Webui/Decode, Webui/DecoderAbi:
--   `internal/webui/server.go`; the loop of handleBlocks is blocks_loop. Webui/Packed,
--   Webui/Calls and Webui/Written tie what the explorer shows to what the deposit services send.
--   Webui/Answers, Webui/Blocks, Webui/Logs, Webui/Reads and Webui/Selectors hold proofs.
-- - Demo/Client, Demo/Replies, Demo/Scenario, Demo/Texts and Demo/Console:
--   `internal/demo/demo.go`, the HTTP client, what it decodes, the scenario, what it prints, and
--   the output of the child processes; Demo/Trace, Demo/Waiting, Demo/Decoding, Demo/Quiet,
--   Demo/Starts, Demo/Transcript, Demo/Processes, Demo/Reconcile, Demo/Steps, Demo/Posts and Demo/Trades hold
--   proofs. Wfusd: wfusd and fmtWFUSD of that file and humanWFUSD of `internal/webui/server.go`.
-- - Cmd and Cmd/Mains: `cmd/signing-router/main.go`, `cmd/deposit-svc/main.go`,
--   `cmd/webui/main.go` and `cmd/demo/main.go`, the settings and the mains. Platform/Environ is
--   the environment of a process that the demo starts; Cmd/Spawned, Cmd/Local and Cmd/Wiring are
--   about the services of the demo's local mode.
-- - Base holds shared types and lemmas, Platform what the standard library and go-ethereum offer,
--   Decimal the texts of integers, Tests concrete machines and the runs on them; in Tests/City the
--   demo, the services and the routers are one machine.
--
-- State and errors. A computation takes the world of a `Machine` and gives an outcome and a
-- world: a value, an error, or a panic. A computation that prints has the text printed so far
-- beside the world (Base/Printing). The machine (Platform/Machine) is a parameter: files, the
-- environment, HTTP calls, processes and the chain's RPC are functions of the world. go-ethereum
-- (Platform/Geth) is a parameter too: hex text, keys, signatures, transactions and ABI encoding.
-- A theorem that rests on their documented behaviour (Platform/AbiLaws for ABI coding) names it
-- as a hypothesis, and Tests has a machine where it holds. Library code of net/http and
-- encoding/json is modelled in Platform as far as the program uses it; a JSON body is a document,
-- and its bytes are not modelled.
--
-- Bounds. Gas is computed modulo 2 ^ 64; the low byte and the low 64 bits of an integer are
-- written out. The loop of handleBlocks counts its rounds, the wait for a service has 80; the
-- grouping of digits has one round for each character, and each round that goes on takes three of
-- them. Other recursion is on lists.
--
-- Not modelled: contexts and time-outs, the moments at which the output of a child process comes
-- between the texts of the demo (Demo/Console has it by itself), the log lines of the services,
-- the file server of the page, and the Solidity contracts. Requests to the deposit services interleave at
-- their library calls; the router and the explorer keep no state between requests and are
-- modelled one request at a time.
mod Base
pub mod Platform
pub mod Decimal
pub mod Wfusd
pub mod Config
pub mod Chainx
pub mod SignRouter
pub mod DepositSvc
pub mod Webui
pub mod Demo
pub mod Cmd
mod Tests
