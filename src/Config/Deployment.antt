-- ===== src/Config/Deployment.antt =====
-- internal/config/config.go: the addresses that the contracts were deployed to, and their decoding.
use besu_interbank_demo.Base.{ℕ, Option, some, Bytes, utf8, replicate}
use besu_interbank_demo.Base.OptionDo.{◌>>=◌}
use besu_interbank_demo.Platform.Abi.{Address}
use besu_interbank_demo.Platform.Geth.{Geth}
use besu_interbank_demo.Platform.Machine.{Machine}
use besu_interbank_demo.Platform.Json.{Body, Fields, struct_fields, struct_field, decode_uint64}

pub record Deployment : Type 0 where
  pub auth_registry : Address
  pub reserve_ledger : Address
  pub token_authority : Address
  pub token_handler : Address
  pub deposit_token : Address
  pub transfer_policy_id : ℕ
  pub rl_mint_policy_id : ℕ
  pub sc_mint_policy_id : ℕ
  pub chain_id : ℕ

-- The address of a field that is missing.
abbrev pub zero_address : Address
zero_address = replicate 20 0

module _ {G : Geth} (m : Machine G) where
  unfoldable pub address_field : Bytes → Fields → Option Address
  address_field name fs = struct_field (λ j _. m.unmarshal_address j) name zero_address fs

  unfoldable pub uint64_field : Bytes → Fields → Option ℕ
  uint64_field name fs = struct_field decode_uint64 name 0 fs

  -- `json.Unmarshal` into a Deployment.
  unfoldable pub decode_deployment : Body → Option Deployment
  unfolding address_field uint64_field
  decode_deployment body = do
    fs ← struct_fields body
    auth_registry ← address_field (utf8 "authRegistry") fs
    reserve_ledger ← address_field (utf8 "reserveLedger") fs
    token_authority ← address_field (utf8 "tokenAuthority") fs
    token_handler ← address_field (utf8 "tokenHandler") fs
    deposit_token ← address_field (utf8 "depositToken") fs
    transfer_policy_id ← uint64_field (utf8 "transferPolicyId") fs
    rl_mint_policy_id ← uint64_field (utf8 "rlMintPolicyId") fs
    sc_mint_policy_id ← uint64_field (utf8 "scMintPolicyId") fs
    chain_id ← uint64_field (utf8 "chainId") fs
    some (record {
      auth_registry = auth_registry;
      reserve_ledger = reserve_ledger;
      token_authority = token_authority;
      token_handler = token_handler;
      deposit_token = deposit_token;
      transfer_policy_id = transfer_policy_id;
      rl_mint_policy_id = rl_mint_policy_id;
      sc_mint_policy_id = sc_mint_policy_id;
      chain_id = chain_id;
    })
