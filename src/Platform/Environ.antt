-- ===== src/Platform/Environ.antt =====
-- The environment of a process that os/exec starts with entries appended to the parent's: os.Getenv gives
-- the value of the last entry "KEY=value" of a key.
use besu_interbank_demo.Base.{List, [], ◌∷◌, Option, none, some, Bytes, eqb, if◌then◌else◌}
use besu_interbank_demo.Platform.Geth.{Geth}
use besu_interbank_demo.Platform.Machine.{Machine}

-- The value, if the entry is of this key.
unfoldable pub value_of : Bytes → Bytes → Option Bytes
value_of [] [] = none
value_of [] (c ∷ entry) = if eqb c b'=' then some entry else none
value_of (k ∷ key) [] = none
value_of (k ∷ key) (c ∷ entry) = let rest = value_of key entry in if eqb k c then rest else none

abbrev or_else : Option Bytes → Bytes → Bytes
or_else (some v) other = v
or_else none other = other

unfoldable pub env_with : List Bytes → (Bytes → Bytes) → Bytes → Bytes
unfolding value_of
env_with [] env key = env key
env_with (entry ∷ entries) env key = env_with entries (λ k. or_else (value_of k entry) (env k)) key

-- The machine as a child process sees it.
abbrev pub child : {G : Geth} → Machine G → List Bytes → Machine G
child m entries = record m { getenv = env_with entries m.getenv }
