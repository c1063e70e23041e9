-- ===== src/Base/Dict.antt =====
-- A Go map with string keys, as an association list.
use mathlib.Core.Path.{◌≡◌, refl}
use mathlib.Core.Logic.{◌≢◌}
use mathlib.Core.Option.{Option, none, some}
use mathlib.Core.List.{List, [], ◌∷◌}
use native.Mathlib.Omega.{arith}
use besu_interbank_demo.Base.Tests.{if◌then◌else◌}
use besu_interbank_demo.Base.Text.{Bytes, ◌==◌, bytes_eq_iff}

abbrev pub Dict : Type 0 → Type 0
Dict V = List (Bytes × V)

module _ {V : Type 0} where
  unfoldable pub lookup : Bytes → Dict V → Option V
  lookup k [] = none
  lookup k ((j, v) ∷ d) = if j == k then some v else lookup k d

  unfoldable pub insert : Bytes → V → Dict V → Dict V
  insert k v [] = (k, v) ∷ []
  insert k v ((j, w) ∷ d) = if j == k then (k, v) ∷ d else (j, w) ∷ insert k v d

  unfoldable pub keys : Dict V → List Bytes
  keys [] = []
  keys ((k, _) ∷ d) = k ∷ keys d

  pub lookup-insert :
      (k j : Bytes) (v : V) (d : Dict V)
      → lookup j (insert k v d) ≡ (if k == j then some v else lookup j d)
  unfolding lookup insert
  lookup-insert k j v [] = refl
  lookup-insert k j v ((i, w) ∷ d) =
      ground (arith, bytes_eq_iff k j, bytes_eq_iff i k, bytes_eq_iff i j, lookup-insert k j v d)

  pub lookup-insert_same : (k : Bytes) (v : V) (d : Dict V) → lookup k (insert k v d) ≡ some v
  lookup-insert_same k v d = ground (arith, lookup-insert k k v d, bytes_eq_iff k k)

  pub lookup-insert_other :
      (k j : Bytes) (v : V) (d : Dict V) → k ≢ j → lookup j (insert k v d) ≡ lookup j d
  lookup-insert_other k j v d other = ground (arith, lookup-insert k j v d, bytes_eq_iff k j, other)
