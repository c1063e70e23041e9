-- ===== src/Cmd/Spawned.antt =====
-- cmd with internal/demo: what the binaries do in the environment that the demo's local mode gives them.
use besu_interbank_demo.Base.{
  ℕ, ◌≤◌, true, List, [], ◌∷◌, ◌≡◌, ◌≢◌, ◌∙◌, ap, sym, refl, Bytes, utf8, arith, inl, inr,
}
use besu_interbank_demo.Base.Dict.{insert}
use besu_interbank_demo.Base.Int.{ℤ, pos}
use besu_interbank_demo.Base.Outcome.{Result, Result-cases, ok, err}
use besu_interbank_demo.Cmd.{port_of, router_keys, router_label}
use besu_interbank_demo.Cmd.Keys.{IsKey, router_keys-join}
use besu_interbank_demo.Cmd.Mains.{fatal, signing_router_main}
use besu_interbank_demo.Config.{Bank}
use besu_interbank_demo.Decimal.{decimal, int_string, atoi, max_int64}
use besu_interbank_demo.Decimal.RoundTrip.{decimal-ne-nil, set_string-int_string}
use besu_interbank_demo.Demo.Scenario.{router_env}
use besu_interbank_demo.Platform.Environ.{child, env_with, value_of}
use besu_interbank_demo.Platform.Geth.{Geth}
use besu_interbank_demo.Platform.Machine.{Machine}
use besu_interbank_demo.SignRouter.Keystore.{Key, load_key}
use besu_interbank_demo.SignRouter.Server.{Server, load_keys, new, run}
use besu_interbank_demo.Wfusd.{join_commas}

atoi-decimal : (n : ℕ) → n ≤ max_int64 → atoi (decimal n) ≡ (pos n, true)
unfolding atoi int_string
atoi-decimal n h = rw (set_string-int_string (pos n)) (ground arith)

pub port_of-eq-atoi : (default : ℕ) (s : Bytes) → s ≢ [] → port_of default s ≡ (atoi s).0
unfolding port_of
port_of-eq-atoi default [] h = absurd (h refl)
port_of-eq-atoi default (c ∷ s) h = refl

port_of-decimal : (default n : ℕ) → n ≤ max_int64 → port_of default (decimal n) ≡ pos n
port_of-decimal default n h =
    port_of-eq-atoi default (decimal n) (decimal-ne-nil n) ∙ ap (λ r. r.0) (atoi-decimal n h)

router_label_given : (label : Bytes) → label ≢ [] → router_label label ≡ label
unfolding router_label
router_label_given [] h = absurd (h refl)
router_label_given (c ∷ s) h = refl

router_keys-one : (k : Bytes) → IsKey k → router_keys k ≡ k ∷ []
unfolding join_commas
router_keys-one k h = router_keys-join k [] (h, tt)

module _ (G : Geth) where
  -- Where the router's `Run` succeeds, `New` does, and the address is the port's.
  pub run-eq-ok :
      (port : ℤ) (label : Bytes) (ids : List Bytes) {addr : Bytes} {srv : Server G}
      → run G port label ids ≡ ok (addr, srv)
      → (addr ≡ b':' ∷ int_string port) × (new G label ids ≡ ok srv)
  unfolding run
  run-eq-ok port label ids h = elim (Result-cases (new G label ids)) [
    | inr (e, bad) ↦ absurd (ground arith)
    | inl (s, good) ↦ (ground arith, ground arith)
  ]

  fatal-eq-ok :
      {A : Type 0} (prefix : Bytes) (r : Result A) {a : A} → fatal prefix r ≡ ok a → r ≡ ok a
  fatal-eq-ok prefix (ok b) h = h
  fatal-eq-ok prefix (err e) h = absurd (ground arith)

module _ {G : Geth} {k : Key G} where
  load_keys-one : (id : Bytes) → load_key G id ≡ ok k → load_keys G (id ∷ []) [] ≡ ok ((id, k) ∷ [])
  unfolding load_keys insert
  load_keys-one id of_id = rw (of_id, load_keys) refl

  new-one :
      (label id : Bytes)
      → load_key G id ≡ ok k
      → new G label (id ∷ []) ≡ ok (record { label = label; allowed = (id, k) ∷ [] })
  unfolding new
  new-one label id of_id = rw (load_keys-one id of_id, new) refl

  run-one :
      (p : ℕ) (label id : Bytes)
      → load_key G id ≡ ok k
      → run G (pos p) label (id ∷ [])
        ≡ ok (b':' ∷ decimal p, record { label = label; allowed = (id, k) ∷ [] })
  unfolding run int_string
  run-one p label id of_id = rw (new-one label id of_id, run) refl

module _ {G : Geth} (m : Machine G) where
  -- The router's main in the environment that `spawn` gives it.
  spawned_run :
      (bank : Bank) (label : Bytes)
      → router_keys bank.key_id ≡ bank.key_id ∷ []
      → label ≢ []
      → bank.signing_router_port ≤ max_int64
      → signing_router_main (child m (router_env bank label))
        ≡ fatal
            (utf8 "signing-router: ")
            (run G (pos bank.signing_router_port) label (bank.key_id ∷ []))
  unfolding signing_router_main env_with value_of
  spawned_run bank label one labelled small =
      rw
        (
          port_of-decimal 7401 bank.signing_router_port small,
          router_label_given label labelled,
          one,
        )
        refl

  -- The router that the demo starts for a bank: the signing router's main, in the environment that `spawn`
  -- gives it, listens on the bank's port, has the given label, and holds the keystore's key of the bank's
  -- KeyID and no other key. The KeyID is nonempty and free of commas and white space, the label is nonempty,
  -- the port is an int64, and the keystore has a good key for the KeyID.
  pub signing_router_main_spawned :
      (bank : Bank) (label : Bytes) {k : Key G}
      → IsKey bank.key_id
      → label ≢ []
      → bank.signing_router_port ≤ max_int64
      → load_key G bank.key_id ≡ ok k
      → signing_router_main (child m (router_env bank label))
        ≡ ok (
          b':' ∷ decimal bank.signing_router_port,
          record { label = label; allowed = (bank.key_id, k) ∷ [] },
        )
  signing_router_main_spawned bank label {k} is_key labelled small of_id =
      spawned_run bank label (router_keys-one bank.key_id is_key) labelled small
      ∙ ap (fatal (utf8 "signing-router: "))
          (run-one bank.signing_router_port label bank.key_id of_id)

  -- What a spawned router that starts is: `New` made it of the bank's KeyID alone, and it listens on the
  -- bank's port.
  pub spawned_router :
      (bank : Bank) (label : Bytes) {addr : Bytes} {router : Server G}
      → router_keys bank.key_id ≡ bank.key_id ∷ []
      → label ≢ []
      → bank.signing_router_port ≤ max_int64
      → signing_router_main (child m (router_env bank label)) ≡ ok (addr, router)
      → (addr ≡ b':' ∷ decimal bank.signing_router_port)
        × (new G label (bank.key_id ∷ []) ≡ ok router)
  unfolding int_string
  spawned_router bank label one labelled small started =
      run-eq-ok G (pos bank.signing_router_port) label (bank.key_id ∷ []) (
        fatal-eq-ok G (utf8 "signing-router: ") _
          (sym (spawned_run bank label one labelled small) ∙ started))
