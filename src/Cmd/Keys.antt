-- ===== src/Cmd/Keys.antt =====
-- cmd/signing-router: the KeyIDs that ROUTER_KEYS gives.
use besu_interbank_demo.Base.{
  ℕ, false, List, [], ◌∷◌, ◌++◌, append_assoc, append-nil, ◌≡◌, ◌≢◌, ◌∙◌, ap, sym, refl, Bytes, All,
  arith,
}
use mathlib.Core.List.{cons-ne-nil}
use besu_interbank_demo.Cmd.{
  keep_key, is_space, trim_left, trim_right, trim_space, split_commas, nonempty_keys, router_keys,
}
use besu_interbank_demo.Wfusd.{join_commas}

-- A character that a KeyID in a list may have.
abbrev pub IsPlain : ℕ → Type 0
IsPlain c = (c ≢ b',') × (is_space c ≡ false)

trim_right_plain : (s : Bytes) → All IsPlain s → trim_right s ≡ s
unfolding trim_right
trim_right_plain [] h = refl
trim_right_plain (c ∷ []) h = ground arith
trim_right_plain (c ∷ d ∷ s) h = rw (trim_right_plain (d ∷ s) h.1)

trim_left_plain : (s : Bytes) → All IsPlain s → trim_left s ≡ s
unfolding trim_left
trim_left_plain [] h = refl
trim_left_plain (c ∷ s) h = ground arith

trim_space_plain : (s : Bytes) → All IsPlain s → trim_space s ≡ s
unfolding trim_space
trim_space_plain s h = ap trim_right (trim_left_plain s h) ∙ trim_right_plain s h

split_commas_plain :
    (s rest cur : Bytes)
    → All IsPlain s
    → split_commas cur (s ++ rest) ≡ split_commas (cur ++ s) rest
unfolding split_commas
split_commas_plain [] rest cur h = ap (λ t. split_commas t rest) (sym (append-nil cur))
split_commas_plain (c ∷ s) rest cur h =
    ground (arith, split_commas_plain s rest (cur ++ c ∷ []) h.1, append_assoc cur (c ∷ []) s)

split_commas-join :
    (k : Bytes) (ks : List Bytes)
    → All (All IsPlain) (k ∷ ks)
    → split_commas [] (join_commas (k ∷ ks)) ≡ k ∷ ks
unfolding join_commas split_commas
split_commas-join k [] h =
    ap (split_commas []) (sym (append-nil k)) ∙ split_commas_plain k [] [] h.0
split_commas-join k (j ∷ ks) h =
    split_commas_plain k (b',' ∷ join_commas (j ∷ ks)) [] h.0
    ∙ ap (λ t. k ∷ t) (split_commas-join j ks h.1)

abbrev pub IsKey : Bytes → Type 0
IsKey k = (k ≢ []) × All IsPlain k

nonempty_keys_of_keys : (ks : List Bytes) → All IsKey ks → nonempty_keys ks ≡ ks
unfolding nonempty_keys
nonempty_keys_of_keys [] h = refl
nonempty_keys_of_keys ([] ∷ ks) h = absurd (h.0.0 refl)
nonempty_keys_of_keys ((c ∷ k) ∷ ks) h =
    rw (trim_space_plain (c ∷ k) h.0.1, nonempty_keys)
      (ap (λ t. (c ∷ k) ∷ t) (nonempty_keys_of_keys ks h.1))

keys-IsPlain : (ks : List Bytes) → All IsKey ks → All (All IsPlain) ks
keys-IsPlain [] h = tt
keys-IsPlain (k ∷ ks) h = (h.0.1, keys-IsPlain ks h.1)

-- A list of KeyIDs, each nonempty and free of commas and white space, written with commas between them,
-- is read back as that list.
pub router_keys-join :
    (k : Bytes) (ks : List Bytes) → All IsKey (k ∷ ks) → router_keys (join_commas (k ∷ ks)) ≡ k ∷ ks
unfolding router_keys
router_keys-join k ks h =
    ap nonempty_keys (split_commas-join k ks (keys-IsPlain (k ∷ ks) h))
    ∙ nonempty_keys_of_keys (k ∷ ks) h

keep_key-ne-nil :
    (k : Bytes) (ks : List Bytes) → All (λ j. j ≢ []) ks → All (λ j. j ≢ []) (keep_key k ks)
keep_key-ne-nil [] ks h = h
keep_key-ne-nil (c ∷ k) ks h = (cons-ne-nil c k, h)

nonempty_keys-ne-nil : (ks : List Bytes) → All (λ k. k ≢ []) (nonempty_keys ks)
unfolding nonempty_keys
nonempty_keys-ne-nil [] = tt
nonempty_keys-ne-nil (k ∷ ks) =
    keep_key-ne-nil (trim_space k) (nonempty_keys ks) (nonempty_keys-ne-nil ks)

-- No KeyID that is read is empty, whatever the text.
pub router_keys-ne-nil : (env : Bytes) → All (λ k. k ≢ []) (router_keys env)
unfolding router_keys
router_keys-ne-nil env = nonempty_keys-ne-nil (split_commas [] env)
