-- ===== src/Cmd.antt =====
-- cmd: the settings that each binary takes from its environment.
pub mod Keys
pub mod Local
pub mod Mains
pub mod Spawned
pub mod Wiring
use besu_interbank_demo.Base.{
  ℕ, Bool, true, false, ◌||◌, List, [], ◌∷◌, ◌++◌, Option, none, some, Bytes, utf8, eqb, ◌==◌,
  if◌then◌else◌,
}
use besu_interbank_demo.Base.Dict.{lookup}
use besu_interbank_demo.Base.Int.{ℤ, pos, negsuc}
use besu_interbank_demo.Base.Outcome.{M, Result, ok, err, raise}
use besu_interbank_demo.Config.{Bank, banks}
use besu_interbank_demo.Decimal.{atoi}
use besu_interbank_demo.Platform.Geth.{Geth}
use besu_interbank_demo.Platform.Machine.{Machine}

-- `port, _ = strconv.Atoi(v)` where PORT is set: a text that is no number gives 0.
unfoldable pub port_of : ℕ → Bytes → ℤ
port_of default [] = pos default
port_of default (c ∷ v) = (atoi (c ∷ v)).0

-- The white space of `strings.TrimSpace`, in ASCII.
abbrev pub is_space : ℕ → Bool
is_space c = eqb c b' ' || eqb c 9 || eqb c 10 || eqb c 11 || eqb c 12 || eqb c 13

unfoldable pub trim_left : Bytes → Bytes
trim_left [] = []
trim_left (c ∷ s) = let rest = trim_left s in if is_space c then rest else c ∷ s

-- White space at the end is dropped from the back.
unfoldable pub trim_right : Bytes → Bytes
trim_right [] = []
trim_right (c ∷ s) = elim (trim_right s) [
  | [] ↦ if is_space c then [] else c ∷ []
  | d ∷ t ↦ c ∷ d ∷ t
]

unfoldable pub trim_space : Bytes → Bytes
trim_space s = trim_right (trim_left s)

-- `strings.Split(s, ",")`: `cur` is the part that is being read.
unfoldable pub split_commas : Bytes → Bytes → List Bytes
split_commas cur [] = cur ∷ []
split_commas cur (c ∷ s) = elim (eqb c b',') [
  | true ↦ cur ∷ split_commas [] s
  | false ↦ split_commas (cur ++ c ∷ []) s
]

abbrev pub keep_key : Bytes → List Bytes → List Bytes
keep_key [] keys = keys
keep_key (c ∷ k) keys = (c ∷ k) ∷ keys

-- The loop of the signing router's main over the parts of ROUTER_KEYS.
unfoldable pub nonempty_keys : List Bytes → List Bytes
nonempty_keys [] = []
nonempty_keys (k ∷ ks) = keep_key (trim_space k) (nonempty_keys ks)

unfoldable pub router_keys : Bytes → List Bytes
router_keys env = nonempty_keys (split_commas [] env)

unfoldable pub router_label : Bytes → Bytes
router_label [] = utf8 "signing-router"
router_label (c ∷ s) = c ∷ s

-- The deposit service's main: the bank of BANK_ID, and the port; `none` is the fatal error.
module _ {G : Geth} (m : Machine G) where
  unfoldable pub deposit_svc : Option (Bank × ℤ)
  deposit_svc = elim (lookup (m.getenv (utf8 "BANK_ID")) (banks m)) [
    | none ↦ none
    | some bank ↦ some (bank, port_of bank.deposit_svc_port (m.getenv (utf8 "PORT")))
  ]
