-- ===== src/Webui/Calls.antt =====
-- internal/webui with internal/depositsvc: how the explorer shows the calls that the deposit services make.
use besu_interbank_demo.Base.{
  ℕ, ◌<◌, ◌^◌, true, false, List, [], ◌∷◌, ◌++◌, some, ◌≡◌, refl, Bytes, utf8, bytes_eq,
}
use besu_interbank_demo.Base.Int.{pos}
use besu_interbank_demo.Base.Outcome.{Result, ok}
use besu_interbank_demo.Chainx.{token_authority_abi, deposit_token_abi, auth_registry_abi}
use besu_interbank_demo.Config.Deployment.{Deployment}
use besu_interbank_demo.Decimal.{decimal, int_string}
use besu_interbank_demo.Platform.Abi.{
  bool_type, Argument, Address, address, big_int, uint64, bool, type_string,
}
use besu_interbank_demo.Platform.AbiLaws.{AbiLaws, AllFit, function_named}
use besu_interbank_demo.Platform.Geth.{Geth}
use besu_interbank_demo.Platform.Machine.{Machine}
use besu_interbank_demo.Webui.Decode.{
  fmt_param, friendly, Param, fmt_params, decode_input, method_name,
}
use besu_interbank_demo.Webui.DecoderAbi.{decoder_abi}
use besu_interbank_demo.Webui.Selectors.{
  DistinctSelectors, mint_function, transfer_function, modify_function, mint-IsUnique,
  transfer-IsUnique, modify-IsUnique, lookup-mint, lookup-transfer, lookup-modify,
}
use besu_interbank_demo.Webui.Packed.{decode_input-pack, method_name-pack}
use besu_interbank_demo.Wfusd.{human_wfusd}

-- The output of `transfer` in the service's interface.
abbrev bool_result : List Argument
bool_result = record { name = []; type = bool_type; indexed = false } ∷ []

-- A call that a deposit service packs: a mint, the addition of an account to a policy, a transfer.
pub data WriteCall : Type 0 where
  mint_call : Address → ℕ → WriteCall
  authorize_call : ℕ → Address → WriteCall
  transfer_call : Address → ℕ → WriteCall

abbrev pub InRange : WriteCall → Type 0
InRange (mint_call to n) = n < 2 ^ 256
InRange (authorize_call policy account) = policy < 2 ^ 64
InRange (transfer_call to n) = n < 2 ^ 256

module _ {G : Geth} (m : Machine G) (dep : Deployment) where
  -- The data of the call, as the service packs it.
  abbrev pub packed : WriteCall → Result Bytes
  packed (mint_call to n) =
      G.pack token_authority_abi (utf8 "mint")
        (address dep.deposit_token ∷ address to ∷ big_int (pos n) ∷ [])
  packed (authorize_call policy account) =
      G.pack auth_registry_abi (utf8 "modifyPolicyWhitelist")
        (uint64 policy ∷ address account ∷ bool true ∷ [])
  packed (transfer_call to n) =
      G.pack deposit_token_abi (utf8 "transfer") (address to ∷ big_int (pos n) ∷ [])

  abbrev shown_address : Bytes → Address → Param
  shown_address name a = record {
    name = name;
    type = utf8 "address";
    value = G.address_hex a;
    human = [];
    label = friendly m dep a;
  }

  abbrev shown_amount : ℕ → Param
  shown_amount n = record {
    name = utf8 "amount";
    type = utf8 "uint256";
    value = decimal n;
    human = human_wfusd (pos n) ++ utf8 " WFUSD";
    label = [];
  }

  abbrev shown_plain : Bytes → Bytes → Bytes → Param
  shown_plain name type value = record {
    name = name;
    type = type;
    value = value;
    human = [];
    label = [];
  }

  -- The parameters that the explorer shows for it, and the method's name.
  abbrev pub shown : WriteCall → List Param
  shown (mint_call to n) =
      shown_address (utf8 "stablecoin") dep.deposit_token
      ∷ shown_address (utf8 "to") to
      ∷ shown_amount n
      ∷ []
  shown (authorize_call policy account) =
      shown_plain (utf8 "policyId") (utf8 "uint64") (decimal policy)
      ∷ shown_address (utf8 "account") account
      ∷ shown_plain (utf8 "allowed") (utf8 "bool") (utf8 "true")
      ∷ []
  shown (transfer_call to n) = shown_address (utf8 "to") to ∷ shown_amount n ∷ []

  abbrev pub shown_method : WriteCall → Bytes
  shown_method (mint_call to n) = utf8 "mint"
  shown_method (authorize_call policy account) = utf8 "authorize"
  shown_method (transfer_call to n) = utf8 "transfer"

  module _ (laws : AbiLaws G) (d : DistinctSelectors G) where
    -- What a deposit service writes, the explorer reads: the data of each of its calls is shown with the
    -- method's name and with the call's own arguments. Amounts are below 2 ^ 256 and policies below 2 ^ 64,
    -- the ABI encoding round-trips and finds methods by id, and the four selectors differ.
    pub explorer_shows_writes :
        (call : WriteCall) (payload : Bytes)
        → InRange call
        → packed call ≡ ok payload
        → (decode_input m dep payload ≡ some (some (shown call)))
          × (method_name G payload ≡ shown_method call)
    unfolding fmt_params fmt_param type_string function_named token_authority_abi deposit_token_abi
        auth_registry_abi decoder_abi bytes_eq int_string
    explorer_shows_writes (mint_call to n) payload small is_packed =
        let vals = address dep.deposit_token ∷ address to ∷ big_int (pos n) ∷ [] in
        let fit : AllFit mint_function.inputs vals = (tt, (tt, (small, tt))) in
        (
          decode_input-pack m dep laws token_authority_abi mint_function mint_function vals payload
              refl refl refl refl (mint-IsUnique d) fit is_packed refl,
          method_name-pack m dep laws token_authority_abi mint_function vals payload refl fit
              is_packed (lookup-mint d),
        )
    explorer_shows_writes (authorize_call policy account) payload small is_packed =
        let vals = uint64 policy ∷ address account ∷ bool true ∷ [] in
        let fit : AllFit modify_function.inputs vals = (small, (tt, (tt, tt))) in
        (
          decode_input-pack m dep laws auth_registry_abi modify_function modify_function vals
              payload refl refl refl refl (modify-IsUnique d) fit is_packed refl,
          method_name-pack m dep laws auth_registry_abi modify_function vals payload refl fit
              is_packed (lookup-modify d),
        )
    explorer_shows_writes (transfer_call to n) payload small is_packed =
        let vals = address to ∷ big_int (pos n) ∷ [] in
        let fit : AllFit (transfer_function bool_result).inputs vals = (tt, (small, tt)) in
        (
          decode_input-pack m dep laws deposit_token_abi (transfer_function bool_result)
              (transfer_function []) vals payload refl refl refl refl (transfer-IsUnique d) fit
              is_packed refl,
          method_name-pack m dep laws deposit_token_abi (transfer_function bool_result) vals payload
              refl fit is_packed (lookup-transfer d),
        )
