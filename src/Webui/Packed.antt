-- ===== src/Webui/Packed.antt =====
-- internal/webui/server.go: a call that is packed with one interface, decoded with the explorer's.
use besu_interbank_demo.Base.{
  ◌≤◌, List, ◌++◌, some, ◌≡◌, ◌∙◌, ap, sym, Bytes, length, take, drop, take-append, drop-append,
  length-append, length-take, All, arith,
}
use besu_interbank_demo.Base.Dict.{lookup}
use besu_interbank_demo.Base.Outcome.{ok}
use besu_interbank_demo.Config.Deployment.{Deployment}
use besu_interbank_demo.Platform.Abi.{Function, Abi, Value}
use besu_interbank_demo.Platform.AbiLaws.{AbiLaws, AllFit, method_id, signature, function_named}
use besu_interbank_demo.Platform.Geth.{Geth}
use besu_interbank_demo.Platform.Machine.{Machine}
use besu_interbank_demo.Webui.Decode.{
  Param, fmt_params, decode_input, selector, selectors, method_name,
}
use besu_interbank_demo.Webui.DecoderAbi.{decoder_abi}

module _ (G : Geth) where
  length-method_id : AbiLaws G → (f : Function) → length (method_id G f) ≡ 4
  length-method_id laws f =
      omega (arith, length-take 4 (G.keccak256 (signature f)), laws.hash_size (signature f))

  take-method_id :
      AbiLaws G → (f : Function) (body : Bytes) → take 4 (method_id G f ++ body) ≡ method_id G f
  take-method_id laws f body =
      ap (λ n. take n (method_id G f ++ body)) (sym (length-method_id laws f))
      ∙ take-append (method_id G f) body

  drop-method_id : AbiLaws G → (f : Function) (body : Bytes) → drop 4 (method_id G f ++ body) ≡ body
  drop-method_id laws f body =
      ap (λ n. drop n (method_id G f ++ body)) (sym (length-method_id laws f))
      ∙ drop-append (method_id G f) body

module _ {G : Geth} (m : Machine G) (dep : Deployment) (laws : AbiLaws G) where
  long_payload :
      (f : Function) (body payload : Bytes) → payload ≡ method_id G f ++ body → 4 ≤ length payload
  long_payload f body payload split =
      ground (arith, split, length-append (method_id G f) body, length-method_id G laws f)

  decode_input_known :
      (payload : Bytes) {g : Function} {vals : List Value} {ps : List Param}
      → 4 ≤ length payload
      → G.method_by_id decoder_abi (take 4 payload) ≡ ok g
      → G.unpack_arguments g.inputs (drop 4 payload) ≡ ok vals
      → fmt_params m dep g.inputs vals ≡ some ps
      → decode_input m dep payload ≡ some (some ps)
  unfolding decode_input
  decode_input_known payload long known unpacked shown = ground (arith, known, unpacked, shown)

  -- A call that one interface packs is shown with the function of the explorer's interface that has the
  -- same signature and inputs, and that no other of its functions shares the id with.
  pub decode_input-pack :
      (a : Abi) (f g : Function) (vals : List Value) (payload : Bytes) {ps : List Param}
      → function_named f.name a.functions ≡ some f
      → function_named g.name decoder_abi.functions ≡ some g
      → signature f ≡ signature g
      → f.inputs ≡ g.inputs
      → All (λ h. method_id G h ≡ method_id G g → h ≡ g) decoder_abi.functions
      → AllFit f.inputs vals
      → G.pack a f.name vals ≡ ok payload
      → fmt_params m dep g.inputs vals ≡ some ps
      → decode_input m dep payload ≡ some (some ps)
  decode_input-pack a f g vals payload named known same_signature same_inputs unique fit packed
        shown =
      let (body, split, unpacked) = laws.packs a f vals payload named fit packed in
      let same_id : method_id G f ≡ method_id G g =
        ap (λ s. take 4 (G.keccak256 s)) same_signature in
      let head : take 4 payload ≡ method_id G g =
        ap (take 4) split ∙ take-method_id G laws f body ∙ same_id in
      let tail : drop 4 payload ≡ body = ap (drop 4) split ∙ drop-method_id G laws f body in
      decode_input_known payload {g = g} {vals = vals} (long_payload f body payload split)
        (ap (G.method_by_id decoder_abi) head ∙ laws.finds decoder_abi g known unique)
        (ap (G.unpack_arguments g.inputs) tail
          ∙ ap (λ is. G.unpack_arguments is body) (sym same_inputs)
          ∙ unpacked)
        shown

  method_name_known :
      (payload sig : Bytes) {name : Bytes}
      → 4 ≤ length payload
      → take 4 payload ≡ take 4 (G.keccak256 sig)
      → lookup (selector G sig) (selectors G) ≡ some name
      → method_name G payload ≡ name
  unfolding method_name selector
  method_name_known payload sig long head found = ground (arith, found, head)

  pub method_name-pack :
      (a : Abi) (f : Function) (vals : List Value) (payload : Bytes) {name : Bytes}
      → function_named f.name a.functions ≡ some f
      → AllFit f.inputs vals
      → G.pack a f.name vals ≡ ok payload
      → lookup (selector G (signature f)) (selectors G) ≡ some name
      → method_name G payload ≡ name
  method_name-pack a f vals payload named fit packed found =
      let (body, split, _) = laws.packs a f vals payload named fit packed in
      method_name_known payload (signature f) (long_payload f body payload split)
        (ap (take 4) split ∙ take-method_id G laws f body) found
