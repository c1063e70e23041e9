-- ===== src/SignRouter/Keystore.antt =====
-- internal/signrouter/keystore.go.
use besu_interbank_demo.Base.{[], ◌∷◌, ◌++◌, none, some, Bytes, utf8}
use besu_interbank_demo.Base.Dict.{Dict, lookup}
use besu_interbank_demo.Base.Outcome.{Result, ok, err}
use besu_interbank_demo.Platform.Abi.{Address}
use besu_interbank_demo.Platform.Geth.{Geth}

unfoldable pub keystore : Dict Bytes
keystore =
    (
      utf8 "key://bank-a/issuer",
      utf8 "ac0974bec39a17e36ba4a6b4d238ff944bacb478cbed5efcae784d7bf4f2ff80",
    )
    ∷ (
      utf8 "key://bank-b/holder",
      utf8 "59c6995e998f97a5a0044966f0945389dc9e86dae88c7a8412f4603b6b78690d",
    )
    ∷ []

module _ (G : Geth) where
  pub record Key : Type 0 where
    pub priv : G.PrivateKey
    pub address : Address

  unfoldable pub load_key : Bytes → Result Key
  load_key key_id = elim (lookup key_id keystore) [
    | none ↦ err (utf8 "keystore: no key for keyId " ++ G.quote key_id)
    | some hex ↦ elim (G.hex_to_ecdsa hex) [
      | err e ↦ err (utf8 "keystore: bad key for " ++ G.quote key_id ++ utf8 ": " ++ e)
      | ok priv ↦ ok (record { priv = priv; address = G.pubkey_to_address priv })
    ]
  ]

  unfoldable pub sign_hash : Key → Bytes → Result Bytes
  sign_hash k hash = G.sign hash k.priv
