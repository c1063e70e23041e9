-- ===== src/Chainx.antt =====
-- internal/chainx/abis.go: the interfaces of the contracts that the services call.
use besu_interbank_demo.Base.{List, [], ◌∷◌, false, Bytes, utf8}
use besu_interbank_demo.Platform.Abi.{
  AbiType, address_type, uint256_type, uint64_type, uint8_type, bool_type, string_type, Argument,
  Function, Abi,
}

abbrev argument : Bytes → AbiType → Argument
argument name type = record { name = name; type = type; indexed = false }

abbrev result : AbiType → List Argument
result type = argument [] type ∷ []

-- A function that only reads, with no arguments.
abbrev getter : Bytes → AbiType → Function
getter name type = record { name = name; inputs = []; outputs = result type }

unfoldable pub token_authority_abi : Abi
token_authority_abi = record {
  functions =
      record {
        name = utf8 "mint";
        inputs =
            argument (utf8 "stablecoin") address_type
            ∷ argument (utf8 "to") address_type
            ∷ argument (utf8 "amount") uint256_type
            ∷ [];
        outputs = [];
      }
      ∷ record {
        name = utf8 "burn";
        inputs =
            argument (utf8 "stablecoin") address_type ∷ argument (utf8 "amount") uint256_type ∷ [];
        outputs = [];
      }
      ∷ [];
  events = [];
}

unfoldable pub deposit_token_abi : Abi
deposit_token_abi = record {
  functions =
      record {
        name = utf8 "transfer";
        inputs = argument (utf8 "to") address_type ∷ argument (utf8 "amount") uint256_type ∷ [];
        outputs = result bool_type;
      }
      ∷ record {
        name = utf8 "balanceOf";
        inputs = argument (utf8 "account") address_type ∷ [];
        outputs = result uint256_type;
      }
      ∷ getter (utf8 "totalSupply") uint256_type
      ∷ getter (utf8 "name") string_type
      ∷ getter (utf8 "symbol") string_type
      ∷ getter (utf8 "decimals") uint8_type
      ∷ [];
  events = [];
}

unfoldable pub reserve_ledger_abi : Abi
reserve_ledger_abi = record {
  functions = getter (utf8 "totalSupply") uint256_type ∷ [];
  events = [];
}

unfoldable pub auth_registry_abi : Abi
auth_registry_abi = record {
  functions =
      record {
        name = utf8 "modifyPolicyWhitelist";
        inputs =
            argument (utf8 "policyId") uint64_type
            ∷ argument (utf8 "account") address_type
            ∷ argument (utf8 "allowed") bool_type
            ∷ [];
        outputs = [];
      }
      ∷ record {
        name = utf8 "isAuthorized";
        inputs =
            argument (utf8 "policyId") uint64_type ∷ argument (utf8 "account") address_type ∷ [];
        outputs = result bool_type;
      }
      ∷ [];
  events = [];
}
