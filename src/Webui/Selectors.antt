-- ===== src/Webui/Selectors.antt =====
-- internal/webui/server.go: the four selectors that the explorer knows, told apart.
use besu_interbank_demo.Base.{
  false, List, [], ◌∷◌, ◌++◌, some, ◌≡◌, ◌≢◌, ◌∙◌, ap, sym, refl, Bytes, utf8, take, All,
}
use besu_interbank_demo.Base.Dict.{lookup, lookup-insert_same, lookup-insert_other}
use besu_interbank_demo.Platform.Abi.{
  AbiType, address_type, uint256_type, uint64_type, bool_type, Argument, Function, type_string,
}
use besu_interbank_demo.Platform.AbiLaws.{method_id}
use besu_interbank_demo.Platform.Geth.{Geth}
use besu_interbank_demo.Webui.Decode.{selector, selectors}
use besu_interbank_demo.Webui.DecoderAbi.{decoder_abi}

-- The signatures of the four functions.
abbrev pub mint_sig : Bytes
mint_sig = utf8 "mint(address,address,uint256)"

abbrev pub burn_sig : Bytes
burn_sig = utf8 "burn(address,uint256)"

abbrev pub transfer_sig : Bytes
transfer_sig = utf8 "transfer(address,uint256)"

abbrev pub modify_sig : Bytes
modify_sig = utf8 "modifyPolicyWhitelist(uint64,address,bool)"

-- The hashes of the four signatures differ in their first four bytes, and so do the hex texts of these.
pub record DistinctSelectors (G : Geth) : Type 0 where
  pub burn_mint : selector G burn_sig ≢ selector G mint_sig
  pub transfer_mint : selector G transfer_sig ≢ selector G mint_sig
  pub modify_mint : selector G modify_sig ≢ selector G mint_sig
  pub transfer_burn : selector G transfer_sig ≢ selector G burn_sig
  pub modify_burn : selector G modify_sig ≢ selector G burn_sig
  pub modify_transfer : selector G modify_sig ≢ selector G transfer_sig

abbrev pub argument : Bytes → AbiType → Argument
argument name type = record { name = name; type = type; indexed = false }

abbrev pub mint_function : Function
mint_function = record {
  name = utf8 "mint";
  inputs =
      argument (utf8 "stablecoin") address_type
      ∷ argument (utf8 "to") address_type
      ∷ argument (utf8 "amount") uint256_type
      ∷ [];
  outputs = [];
}

abbrev pub modify_function : Function
modify_function = record {
  name = utf8 "modifyPolicyWhitelist";
  inputs =
      argument (utf8 "policyId") uint64_type
      ∷ argument (utf8 "account") address_type
      ∷ argument (utf8 "allowed") bool_type
      ∷ [];
  outputs = [];
}

-- `transfer`, with its outputs.
abbrev pub transfer_function : List Argument → Function
transfer_function outputs = record {
  name = utf8 "transfer";
  inputs = argument (utf8 "to") address_type ∷ argument (utf8 "amount") uint256_type ∷ [];
  outputs = outputs;
}

module _ {G : Geth} (d : DistinctSelectors G) where
  same_selector :
      (s t : Bytes) → take 4 (G.keccak256 s) ≡ take 4 (G.keccak256 t) → selector G s ≡ selector G t
  unfolding selector
  same_selector s t e = ap (λ id. utf8 "0x" ++ G.bytes_to_hex id) e

  -- No other function of the explorer's interface has the function's id.
  abbrev pub IsUnique : Function → Type 0
  IsUnique f = All (λ h. method_id G h ≡ method_id G f → h ≡ f) decoder_abi.functions

  pub mint-IsUnique : IsUnique mint_function
  unfolding decoder_abi type_string
  mint-IsUnique = (
    λ _. refl,
    (
      λ e. absurd (d.burn_mint (same_selector burn_sig mint_sig e)),
      (
        λ e. absurd (d.transfer_mint (same_selector transfer_sig mint_sig e)),
        (λ e. absurd (d.modify_mint (same_selector modify_sig mint_sig e)), tt),
      ),
    ),
  )

  pub transfer-IsUnique : IsUnique (transfer_function [])
  unfolding decoder_abi type_string
  transfer-IsUnique = (
    λ e. absurd (d.transfer_mint (sym (same_selector mint_sig transfer_sig e))),
    (
      λ e. absurd (d.transfer_burn (sym (same_selector burn_sig transfer_sig e))),
      (λ _. refl, (λ e. absurd (d.modify_transfer (same_selector modify_sig transfer_sig e)), tt)),
    ),
  )

  pub modify-IsUnique : IsUnique modify_function
  unfolding decoder_abi type_string
  modify-IsUnique = (
    λ e. absurd (d.modify_mint (sym (same_selector mint_sig modify_sig e))),
    (
      λ e. absurd (d.modify_burn (sym (same_selector burn_sig modify_sig e))),
      (
        λ e. absurd (d.modify_transfer (sym (same_selector transfer_sig modify_sig e))),
        (λ _. refl, tt),
      ),
    ),
  )

  pub lookup-mint : lookup (selector G mint_sig) (selectors G) ≡ some (utf8 "mint")
  unfolding selectors
  lookup-mint =
      lookup-insert_other _ _ _ _ d.modify_mint
      ∙ lookup-insert_other _ _ _ _ d.transfer_mint
      ∙ lookup-insert_other _ _ _ _ d.burn_mint
      ∙ lookup-insert_same _ _ _

  pub lookup-transfer : lookup (selector G transfer_sig) (selectors G) ≡ some (utf8 "transfer")
  unfolding selectors
  lookup-transfer = lookup-insert_other _ _ _ _ d.modify_transfer ∙ lookup-insert_same _ _ _

  pub lookup-modify : lookup (selector G modify_sig) (selectors G) ≡ some (utf8 "authorize")
  unfolding selectors
  lookup-modify = lookup-insert_same _ _ _
