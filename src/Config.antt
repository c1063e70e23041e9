-- ===== src/Config.antt =====
-- internal/config/config.go: the public configuration.
pub mod Deployment
pub mod Load
use besu_interbank_demo.Base.{ℕ, Bool, true, false, List, [], ◌∷◌, Bytes, utf8, ◌==◌, if◌then◌else◌}
use besu_interbank_demo.Base.Dict.{Dict, lookup}
use besu_interbank_demo.Platform.Abi.{Address}
use besu_interbank_demo.Platform.Geth.{Geth}
use besu_interbank_demo.Platform.Machine.{Machine}

abbrev pub chain_id : ℕ
chain_id = 1337

abbrev pub wfusd_decimals : ℕ
wfusd_decimals = 6

pub data Role : Type 0 where
  issuer holder : Role

unfoldable pub role_text : Role → Bytes
role_text issuer = utf8 "issuer"
role_text holder = utf8 "holder"

unfoldable pub role_eq : Role → Role → Bool
role_eq issuer issuer = true
role_eq holder holder = true
role_eq _ _ = false

pub record Bank : Type 0 where
  pub id : Bytes
  pub label : Bytes
  pub role : Role
  pub key_id : Bytes
  pub address : Address
  pub signing_router_url : Bytes
  pub deposit_svc_url : Bytes
  pub signing_router_port : ℕ
  pub deposit_svc_port : ℕ

module _ {G : Geth} (m : Machine G) where
  unfoldable pub env_or : Bytes → Bytes → Bytes
  env_or k def = let v = m.getenv k in if v == [] then def else v

  unfoldable pub rpc_url : Bytes
  rpc_url = env_or (utf8 "RPC_URL") (utf8 "http://localhost:8545")

  unfoldable pub bank_a : Bank
  bank_a = record {
    id = utf8 "bank-a";
    label = utf8 "Bank A · Issuer";
    role = issuer;
    key_id = utf8 "key://bank-a/issuer";
    address = G.hex_to_address (utf8 "0xf39Fd6e51aad88F6F4ce6aB8827279cffFb92266");
    signing_router_url = env_or (utf8 "BANKA_SIGNING_ROUTER_URL") (utf8 "http://localhost:7401");
    deposit_svc_url = env_or (utf8 "BANKA_DEPOSIT_URL") (utf8 "http://localhost:8401");
    signing_router_port = 7401;
    deposit_svc_port = 8401;
  }

  unfoldable pub bank_b : Bank
  bank_b = record {
    id = utf8 "bank-b";
    label = utf8 "Bank B · Holder";
    role = holder;
    key_id = utf8 "key://bank-b/holder";
    address = G.hex_to_address (utf8 "0x70997970C51812dc3A010C7d01b50e0d17dc79C8");
    signing_router_url = env_or (utf8 "BANKB_SIGNING_ROUTER_URL") (utf8 "http://localhost:7402");
    deposit_svc_url = env_or (utf8 "BANKB_DEPOSIT_URL") (utf8 "http://localhost:8402");
    signing_router_port = 7402;
    deposit_svc_port = 8402;
  }

  unfoldable pub merchant : Address
  merchant = G.hex_to_address (utf8 "0x3C44CdDdB6a900fa2b585dd299e03d12FA4293BC")

  unfoldable pub banks : Dict Bank
  banks = (bank_a.id, bank_a) ∷ (bank_b.id, bank_b) ∷ []
