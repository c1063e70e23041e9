-- ===== src/Platform/Machine.antt =====
-- What a running service reaches: its environment, files, the HTTP network and the chain's RPC, as a
-- parameter over a world that any call may change.
use besu_interbank_demo.Base.{ℕ, Bool, List, Option, Bytes}
use besu_interbank_demo.Base.Int.{ℤ}
use besu_interbank_demo.Base.Outcome.{Ext}
use besu_interbank_demo.Platform.Abi.{Address, Hash}
use besu_interbank_demo.Platform.Geth.{Geth}
use besu_interbank_demo.Platform.Json.{Body, Json}
use besu_interbank_demo.Platform.Http.{Call, Response}

-- ethereum.CallMsg, in the fields that the code sets; the zero address is an unset `From`.
pub record CallMsg : Type 0 where
  pub from : Option Address
  pub to : Address
  pub payload : Bytes

-- types.Log and types.Receipt.
pub record Log : Type 0 where
  pub address : Address
  pub topics : List Hash
  pub payload : Bytes

-- The block number of a receipt, and a log in it, may be nil.
pub record Receipt : Type 0 where
  pub status : ℕ
  pub block_number : Option ℤ
  pub block_hash : Hash
  pub gas_used : ℕ
  pub effective_gas_price : Option ℤ
  pub logs : List (Option Log)

module _ (G : Geth) where
  -- types.Block.
  pub record Block : Type 0 where
    pub number : ℕ
    pub hash : Hash
    pub time : ℕ
    pub transactions : List G.Transaction

  pub record Machine : Type 1 where
    pub World : Type 0
    -- os.Getenv, with "" for what is unset
    pub getenv : Bytes → Bytes
    -- the repository's directory, which config.go learns from runtime.Caller
    pub repo_root : Bytes
    -- os.Stat
    pub stat : Bytes → Ext World (Unit {0})
    pub read_file : Bytes → Ext World Body
    -- common.Address.UnmarshalJSON
    pub unmarshal_address : Json → Option Address
    -- the text of the error with which encoding/json refuses a body
    pub json_error : Body → Bytes
    -- whether `http.NewRequest` parses a URL
    pub is_url : Bytes → Bool
    -- `http.Client.Do` with the body read
    pub http : Call → Ext World Response
    -- the bytes of a body, for `io.ReadAll`
    pub raw : Body → Bytes
    -- the directory of the running binary, a process started from a binary with an environment, and
    -- its end
    pub bin_dir : Ext World Bytes
    pub start : Bytes → List Bytes → Ext World ℕ
    pub kill : ℕ → Ext World (Unit {0})
    -- ethclient
    pub dial : Bytes → Ext World (Unit {0})
    pub pending_nonce_at : Address → Ext World ℕ
    -- the base fee of the latest header
    pub header_base_fee : Ext World (Option ℤ)
    pub estimate_gas : CallMsg → Ext World ℕ
    pub send_transaction : G.Transaction → Ext World (Unit {0})
    pub wait_mined : G.Transaction → Ext World Receipt
    pub call_contract : CallMsg → Ext World Bytes
    pub block_number : Ext World ℕ
    pub block_by_number : ℕ → Ext World Block
    pub transaction_by_hash : Hash → Ext World (G.Transaction × Bool)
    pub transaction_receipt : Hash → Ext World (Option Receipt)
    -- the time of a header
    pub header_by_hash : Hash → Ext World (Option ℕ)
