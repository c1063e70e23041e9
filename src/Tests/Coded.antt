-- ===== src/Tests/Coded.antt =====
-- A concrete ABI coding: a value is a tag, a number and the bytes that the number counts.
use besu_interbank_demo.Base.{
  ◌≢◌, ℕ, true, false, List, [], ◌∷◌, ◌++◌, Option, Option-cases, none, some, ◌≡◌, ◌∙◌, ap, refl,
  Bytes, utf8, bytes_eq_iff, eqb, ◌==◌, if◌then◌else◌, length, take, drop, take-append, drop-append,
  replicate, All, arith, inl, inr, Bool-cases,
}
use besu_interbank_demo.Base.Int.{pos, negsuc}
use besu_interbank_demo.Base.Outcome.{Result, ok, err}
use besu_interbank_demo.Platform.Abi.{
  Argument, Function, Abi, Value, address, big_int, uint64, uint8, bool, str, opaque, nothing,
}
use besu_interbank_demo.Platform.AbiLaws.{AbiLaws, AllFit, signature, function_named, method_id}
use besu_interbank_demo.Platform.Geth.{Geth}
use besu_interbank_demo.Tests.Fake.{fake_geth}

-- A hash that tells signatures of different lengths apart.
abbrev hash : Bytes → Bytes
hash s = replicate 32 (length s)

abbrev id_of : Function → Bytes
id_of f = take 4 (hash (signature f))

encode : Value → Option Bytes
encode (address a) = some (0 ∷ length a ∷ a)
encode (big_int (pos n)) = some (1 ∷ n ∷ [])
encode (uint64 n) = some (2 ∷ n ∷ [])
encode (bool true) = some (3 ∷ 1 ∷ [])
encode (bool false) = some (3 ∷ 0 ∷ [])
encode (str s) = some (4 ∷ length s ∷ s)
encode (uint8 n) = some (5 ∷ n ∷ [])
encode _ = none

unfoldable pub encode_all : List Value → Option Bytes
unfolding encode
encode_all [] = some []
encode_all (v ∷ vals) = elim (encode v) [
  | none ↦ none
  | some e ↦ elim (encode_all vals) [ none ↦ none | some rest ↦ some (e ++ rest) ]
]

-- The value of a tag and a number, before some bytes.
decode : ℕ → ℕ → Bytes → Value × Bytes
decode tag n bs =
    if eqb tag 0
    then (address (take n bs), drop n bs)
    else if eqb tag 1
    then (big_int (pos n), bs)
    else if eqb tag 2
    then (uint64 n, bs)
    else if eqb tag 3
    then (bool (eqb n 1), bs)
    else if eqb tag 4
    then (str (take n bs), drop n bs)
    else (uint8 n, bs)

unfoldable pub decode_all : List Argument → Bytes → Result (List Value)
unfolding decode
decode_all [] bs = ok []
decode_all (a ∷ args) (tag ∷ n ∷ bs) = elim (decode_all args (decode tag n bs).1) [
  | err e ↦ err e
  | ok vals ↦ ok ((decode tag n bs).0 ∷ vals)
]
decode_all (a ∷ args) _ = err (utf8 "abi: short input")

unfoldable pub find : Bytes → List Function → Result Function
find id [] = err (utf8 "no method with id")
find id (f ∷ fs) = let rest = find id fs in if id_of f == id then ok f else rest

abbrev with_id : Option Function → Option Bytes → Result Bytes
with_id (some f) (some body) = ok (id_of f ++ body)
with_id _ _ = err (utf8 "abi: cannot pack")

-- The data that packing gives, or nothing.
abbrev pub coded_payload : Bytes → Abi → List Value → Bytes
coded_payload name a vals = elim (with_id (function_named name a.functions) (encode_all vals)) [
  | ok payload ↦ payload
  | err e ↦ []
]

abbrev pub coded_geth : Geth
coded_geth = record fake_geth {
  keccak256 = hash;
  pack = λ a name vals. with_id (function_named name a.functions) (encode_all vals);
  unpack_arguments = decode_all;
  method_by_id = λ a id. find id a.functions;
}

-- What a value's code is followed by is what is left.
decode_all-encode :
    (a : Argument) (args : List Argument) (v : Value) (e rest : Bytes) (vals : List Value)
    → encode v ≡ some e
    → decode_all args rest ≡ ok vals
    → decode_all (a ∷ args) (e ++ rest) ≡ ok (v ∷ vals)
unfolding decode_all decode encode
decode_all-encode a args (address x) e rest vals h r =
    ground (arith, r, take-append x rest, drop-append x rest)
decode_all-encode a args (big_int (pos n)) e rest vals h r = ground (arith, r)
decode_all-encode a args (big_int (negsuc n)) e rest vals h r = absurd (ground arith)
decode_all-encode a args (uint64 n) e rest vals h r = ground (arith, r)
decode_all-encode a args (uint8 n) e rest vals h r = ground (arith, r)
decode_all-encode a args (bool true) e rest vals h r = ground (arith, r)
decode_all-encode a args (bool false) e rest vals h r = ground (arith, r)
decode_all-encode a args (str s) e rest vals h r =
    ground (arith, r, take-append s rest, drop-append s rest)
decode_all-encode a args (opaque t s) e rest vals h r = absurd (ground arith)
decode_all-encode a args nothing e rest vals h r = absurd (ground arith)

decode_all-encode_all :
    (args : List Argument) (vals : List Value) (body : Bytes)
    → AllFit args vals
    → encode_all vals ≡ some body
    → decode_all args body ≡ ok vals
unfolding encode_all decode_all
decode_all-encode_all [] [] body fit h = refl
decode_all-encode_all [] (v ∷ vals) body fit h = absurd fit
decode_all-encode_all (a ∷ args) [] body fit h = absurd fit
decode_all-encode_all (a ∷ args) (v ∷ vals) body fit h = elim (Option-cases (encode v)) [
  | inl bad ↦ absurd (ground arith)
  | inr (e, one) ↦ elim (Option-cases (encode_all vals)) [
    | inl bad ↦ absurd (ground arith)
    | inr (rest, more) ↦
        ap (decode_all (a ∷ args)) (ground arith)
        ∙ decode_all-encode a args v e rest vals one
            (decode_all-encode_all args vals rest fit.1 more)
  ]
]

find-here :
    (id : Bytes) (g : Function) (fs : List Function)
    → (id_of g == id) ≡ true
    → find id (g ∷ fs) ≡ ok g
unfolding find
find-here id g fs e = ground (arith, e)

find-later :
    (id : Bytes) (g : Function) (fs : List Function)
    → (id_of g == id) ≡ false
    → find id (g ∷ fs) ≡ find id fs
unfolding find
find-later id g fs e = ground (arith, e)

find-named :
    (f : Function) (fs : List Function)
    → function_named f.name fs ≡ some f
    → All (λ g. id_of g ≡ id_of f → g ≡ f) fs
    → find (id_of f) fs ≡ ok f
unfolding function_named
find-named f [] named unique = absurd (ground arith)
find-named f (g ∷ fs) named unique = elim (Bool-cases (id_of g == id_of f)) [
  | inl same ↦
      find-here (id_of f) g fs same ∙ ap ok (unique.0 ((bytes_eq_iff (id_of g) (id_of f)).0 same))
  | inr other ↦
      let apart : g ≢ f =
        λ e. absurd (ground (arith, other, ap id_of e, bytes_eq_iff (id_of g) (id_of f))) in
      find-later (id_of f) g fs other ∙ find-named f fs (ground (arith, named, apart)) unique.1
]

packs_lem :
    (a : Abi) (f : Function) (vals : List Value) (payload : Bytes)
    → function_named f.name a.functions ≡ some f
    → AllFit f.inputs vals
    → coded_geth.pack a f.name vals ≡ ok payload
    → (body : Bytes) × (payload ≡ method_id coded_geth f ++ body)
      × (coded_geth.unpack_arguments f.inputs body ≡ ok vals)
packs_lem a f vals payload named fit packed = elim (Option-cases (encode_all vals)) [
  | inl bad ↦ absurd (ground (arith, named, bad, packed))
  | inr (body, coded) ↦ (
    body,
    ground (arith, named, coded, packed),
    decode_all-encode_all f.inputs vals body fit coded,
  )
]

pub coded_laws : AbiLaws coded_geth
coded_laws = record {
  hash_size = λ s. refl;
  packs = λ a f vals payload named fit packed. packs_lem a f vals payload named fit packed;
  finds = λ a f named unique. find-named f a.functions named unique;
}
