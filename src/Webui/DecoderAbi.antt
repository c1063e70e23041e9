-- ===== src/Webui/DecoderAbi.antt =====
-- internal/webui/server.go: decoderABI, the functions and events that the explorer knows.
use besu_interbank_demo.Base.{true, false, [], ◌∷◌, Bytes, utf8}
use besu_interbank_demo.Platform.Abi.{
  AbiType, address_type, uint256_type, uint64_type, bool_type, Argument, Abi,
}

abbrev input : Bytes → AbiType → Argument
input name type = record { name = name; type = type; indexed = false }

abbrev indexed : Bytes → AbiType → Argument
indexed name type = record { name = name; type = type; indexed = true }

unfoldable pub decoder_abi : Abi
decoder_abi = record {
  functions =
      record {
        name = utf8 "mint";
        inputs =
            input (utf8 "stablecoin") address_type
            ∷ input (utf8 "to") address_type
            ∷ input (utf8 "amount") uint256_type
            ∷ [];
        outputs = [];
      }
      ∷ record {
        name = utf8 "burn";
        inputs = input (utf8 "stablecoin") address_type ∷ input (utf8 "amount") uint256_type ∷ [];
        outputs = [];
      }
      ∷ record {
        name = utf8 "transfer";
        inputs = input (utf8 "to") address_type ∷ input (utf8 "amount") uint256_type ∷ [];
        outputs = [];
      }
      ∷ record {
        name = utf8 "modifyPolicyWhitelist";
        inputs =
            input (utf8 "policyId") uint64_type
            ∷ input (utf8 "account") address_type
            ∷ input (utf8 "allowed") bool_type
            ∷ [];
        outputs = [];
      }
      ∷ [];
  events =
      record {
        name = utf8 "Transfer";
        inputs =
            indexed (utf8 "from") address_type
            ∷ indexed (utf8 "to") address_type
            ∷ input (utf8 "value") uint256_type
            ∷ [];
      }
      ∷ record {
        name = utf8 "Approval";
        inputs =
            indexed (utf8 "owner") address_type
            ∷ indexed (utf8 "spender") address_type
            ∷ input (utf8 "value") uint256_type
            ∷ [];
      }
      ∷ record {
        name = utf8 "Mint";
        inputs =
            indexed (utf8 "stablecoin") address_type
            ∷ indexed (utf8 "to") address_type
            ∷ input (utf8 "amount") uint256_type
            ∷ [];
      }
      ∷ record {
        name = utf8 "Burn";
        inputs = indexed (utf8 "stablecoin") address_type ∷ input (utf8 "amount") uint256_type ∷ [];
      }
      ∷ record {
        name = utf8 "PolicyMembershipChanged";
        inputs =
            indexed (utf8 "policyId") uint64_type
            ∷ indexed (utf8 "account") address_type
            ∷ input (utf8 "value") bool_type
            ∷ [];
      }
      ∷ [];
}
