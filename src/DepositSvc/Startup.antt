-- ===== src/DepositSvc/Startup.antt =====
-- internal/depositsvc: the server that `Run` starts.
use besu_interbank_demo.Base.{
  sym, utf8, ◌++◌, ◌∷◌, none, some, ◌≡◌, ◌∙◌, ap, refl, Bytes, arith, Option-cases, inl, inr,
}
use besu_interbank_demo.Base.Dict.{lookup}
use besu_interbank_demo.Base.Int.{ℤ}
use besu_interbank_demo.Base.Outcome.{M, done, fail, raise, pure, ◌>>=◌, ◌>>◌}
use besu_interbank_demo.Base.Runs.{bind-eq-done, pure-eq-done}
use besu_interbank_demo.Config.{Bank, banks}
use besu_interbank_demo.Config.Deployment.{Deployment}
use besu_interbank_demo.Config.Load.{load_deployment}
use besu_interbank_demo.Decimal.{int_string}
use besu_interbank_demo.DepositSvc.Server.{run}
use besu_interbank_demo.DepositSvc.Service.{Service, new}
use besu_interbank_demo.Platform.Geth.{Geth}
use besu_interbank_demo.Platform.Machine.{Machine}

module _ {G : Geth} (m : Machine G) where
  new-bank :
      (bank : Bank) (dep : Deployment) (w w' : m.World) {svc : Service}
      → new m bank dep w ≡ (done svc, w')
      → svc.bank ≡ bank
  unfolding new ◌>>◌
  new-bank bank dep w w' h =
      let (_, v, _, rest) = bind-eq-done _ _ w w' h in
      ap (λ s. s.bank) (pure-eq-done (record { bank = bank; dep = dep }) v w' rest).0

  -- `Run` once the bank is found.
  abbrev start : Bank → ℤ → M m.World (Bytes × Service)
  start bank port =
      load_deployment m >>= λ dep. new m bank dep >>= λ svc. pure (b':' ∷ int_string port, svc)

  run-of-bank :
      (bank : Bank) (port : ℤ) (w w' : m.World) {addr : Bytes} {svc : Service}
      → start bank port w ≡ (done (addr, svc), w')
      → (svc.bank ≡ bank) × (addr ≡ b':' ∷ int_string port)
  run-of-bank bank port w w' h =
      let (dep, v, _, made) = bind-eq-done _ _ w w' h in
      let (s, u, created, rest) = bind-eq-done _ _ v w' made in
      let same = (pure-eq-done (b':' ∷ int_string port, s) u w' rest).0 in
      (ap (λ p. p.1.bank) same ∙ new-bank bank dep v u created, ap (λ p. p.0) same)

  run-found :
      (id : Bytes) (port : ℤ) (w : m.World) {bank : Bank}
      → lookup id (banks m) ≡ some bank
      → run m id port w ≡ start bank port w
  unfolding run
  run-found id port w found = rw (found, run) refl

  run-missing :
      (id : Bytes) (port : ℤ) (w : m.World)
      → lookup id (banks m) ≡ none
      → run m id port w ≡ (fail (utf8 "unknown bank " ++ G.quote id), w)
  unfolding run raise
  run-missing id port w missing = rw (missing, run) refl

  -- A service that `Run` starts is of the bank of its id, and listens on its port.
  pub run-IsOfBank :
      (id : Bytes) (port : ℤ) (w w' : m.World) {addr : Bytes} {svc : Service}
      → run m id port w ≡ (done (addr, svc), w')
      → (lookup id (banks m) ≡ some svc.bank) × (addr ≡ b':' ∷ int_string port)
  run-IsOfBank id port w w' h = elim (Option-cases (lookup id (banks m))) [
    | inl missing ↦ absurd (ground (arith, run-missing id port w missing))
    | inr (bank, found) ↦
        let (same, at_port) = run-of-bank bank port w w' (sym (run-found id port w found) ∙ h) in
        (found ∙ ap some (sym same), at_port)
  ]
