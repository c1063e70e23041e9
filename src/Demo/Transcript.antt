-- ===== src/Demo/Transcript.antt =====
-- internal/demo/demo.go: what the scenario prints, as a function of what it has read.
use besu_interbank_demo.Base.{List, [], ◌∷◌, ◌++◌, refl, Bytes, utf8}
use besu_interbank_demo.Base.Runs.{bind-eq-done}
use besu_interbank_demo.Base.{◌⊎◌, Bool-cases}
use besu_interbank_demo.Base.Outcome.{call, ok}
use besu_interbank_demo.Base.Runs.{call-eq-done}
use besu_interbank_demo.Base.Printing.{and_silently-eq-done, and_say-eq-done}
use besu_interbank_demo.Demo.Starts.{failures, Starts, spawn_all-Reported}
use besu_interbank_demo.Config.Deployment.{Deployment}
use besu_interbank_demo.Config.Load.{load_deployment}
use besu_interbank_demo.Base.{
  Bool, true, false, ◌==◌, if◌then◌else◌, ◌≡◌, inl, inr, ℕ, append-nil, ◌∙◌, ap, sym,
}
use besu_interbank_demo.Base.Outcome.{done, call}
use besu_interbank_demo.Base.Printing.{
  Printing, joined, After, pure-After, bind-After, silently-After, say-After,
}
use besu_interbank_demo.Demo.Client.{Balances}
use besu_interbank_demo.Demo.Console.{amber, teal}
use besu_interbank_demo.Demo.Scenario.{
  Report, run, run_local, deferring, services, spawn_all, show_balances, onboard, drive,
}
use besu_interbank_demo.Demo.Texts.{
  header_text, balances_text, onboarded_text, results_text, result_text, authorize_heading,
  mint_heading, transfer_heading, banner, checks_heading, reconcile_text, mint_check_text,
  key_check_text, farewell,
}
use besu_interbank_demo.Platform.Abi.{Address}
use besu_interbank_demo.Platform.Geth.{Geth}
use besu_interbank_demo.Platform.Machine.{Machine}

module _ {G : Geth} (m : Machine G) where
  abbrev shown : Bytes → Balances m → Bytes
  shown title b = balances_text m title b.bank_b b.merchant b.supply b.rl

  -- The text of a whole scenario, from its result.
  abbrev pub transcript : Report m → Bytes
  transcript r = joined [] (
      header_text r.header
      ∷ shown (utf8 "Opening balances") r.opening
      ∷ authorize_heading
      ∷ onboarded_text (utf8 "Bank B wallet")
      ∷ results_text amber r.onboarded_bank
      ∷ onboarded_text (utf8 "Merchant")
      ∷ results_text amber r.onboarded_merchant
      ∷ mint_heading
      ∷ result_text amber r.mint
      ∷ shown (utf8 "After mint") r.after_mint
      ∷ transfer_heading
      ∷ result_text teal r.xfer
      ∷ shown (utf8 "After transfer") r.after_transfer
      ∷ checks_heading
      ∷ reconcile_text r.after_transfer.supply r.after_transfer.rl
      ∷ mint_check_text r.mint_refusal
      ∷ key_check_text r.key_status
      ∷ farewell
      ∷ [])

  show_balances-After :
      (start title : Bytes) → After start (show_balances m title) (λ b. start ++ shown title b)
  unfolding show_balances
  show_balances-After start title =
      silently-After start _ _ _ λ b. say-After start _ _ _ (pure-After _ b _ refl)

  onboard-After :
      (start who : Bytes) (account : Address)
      → After start
          (onboard m who account)
          (λ res. (start ++ onboarded_text who) ++ results_text amber res)
  unfolding onboard
  onboard-After start who account =
      silently-After start _ _ _
        λ res. say-After start _ _ _ (say-After _ _ _ _ (pure-After _ res _ refl))

  -- A scenario that is done has printed the transcript of its result.
  pub drive-transcript : After [] (drive m) transcript
  unfolding drive
  drive-transcript = silently-After _ _ _ _ λ _. silently-After _ _ _ _ λ header.
      say-After _ _ _ _ (
        bind-After _ _ _ _ _ (show_balances-After _ _) λ opening. say-After _ _ _ _ (
          bind-After _ _ _ _ _ (onboard-After _ _ _) λ bank.
            bind-After _ _ _ _ _ (onboard-After _ _ _) λ shop. say-After _ _ _ _ (
              silently-After _ _ _ _ λ minted. say-After _ _ _ _ (
                bind-After _ _ _ _ _ (show_balances-After _ _) λ after_mint. say-After _ _ _ _ (
                  silently-After _ _ _ _ λ moved. say-After _ _ _ _ (
                    bind-After _ _ _ _ _ (show_balances-After _ _) λ after_transfer.
                      say-After _ _ _ _ (
                        say-After _ _ _ _ (
                          silently-After _ _ _ _ λ refusal. say-After _ _ _ _ (
                            silently-After _ _ _ _ λ status.
                              say-After _ _ _ _ (say-After _ _ _ _ (pure-After _ _ _ refl)))))))))))

  -- The scenario from any text on.
  drive-prints :
      (s s' : Bytes × m.World) (r : Report m)
      → drive m s ≡ (done r, s')
      → s'.0 ≡ s.0 ++ transcript r
  drive-prints s s' r h =
      drive-transcript s.0 s.1 s' r (ap (λ t. drive m (t, s.1)) (append-nil s.0) ∙ h)

  abbrev hosted : Bool
  hosted = m.getenv (utf8 "DEMO_SPAWN") == utf8 "false"

  -- What a run prints behind its banner, from a world on: the transcript alone where the services run already,
  -- and in local mode the reports of just those of its four starts that failed before it.
  abbrev pub Driven : Bytes → m.World → Bytes → Report m → Type 0
  Driven out w out' r =
      ((hosted ≡ true) × (out' ≡ out ++ transcript r))
      ⊎ ((hosted ≡ false)
          × (dir : Bytes) × (v u : m.World) × (failed : List (Bytes × Bytes)) × (m.bin_dir w
              ≡ (ok dir, v))
          × Starts m dir (services m) v u failed
          × (out' ≡ out ++ failures failed ++ transcript r))

  -- A run that is done.
  abbrev pub RunPrinted : Bytes × m.World → Bytes × m.World → Report m → Type 0
  RunPrinted s s' r =
      (dep : Deployment) × (w : m.World) × (load_deployment m s.1 ≡ (done dep, w))
      × Driven (s.0 ++ banner m dep) w s'.0 r

  deferring-eq-done :
      (procs : List ℕ) (body : Printing m.World (Report m)) (s s' : Bytes × m.World) (r : Report m)
      → deferring m procs body s ≡ (done r, s')
      → body s ≡ (done r, (s'.0, (body s).1.1))
  unfolding deferring
  deferring-eq-done procs body s s' r e = ap (λ p. (p.0, (p.1.0, (body s).1.1))) e

  run_local-Driven :
      (s s' : Bytes × m.World) (r : Report m)
      → hosted ≡ false
      → run_local m s ≡ (done r, s')
      → Driven s.0 s.1 s'.0 r
  unfolding run_local
  run_local-Driven s s' r local h =
      let (dir, v, located, next) = and_silently-eq-done (call m.bin_dir) _ s.0 s.1 s' h in
      let (procs, u, spawned, driven) =
        bind-eq-done (spawn_all m dir (services m) []) _ (s.0, v) s' next in
      let (failed, starts, printed) =
        spawn_all-Reported m dir (services m) [] s.0 v u procs spawned in
      inr (
        local,
        dir,
        v,
        u.1,
        failed,
        call-eq-done m.bin_dir s.1 v located,
        starts,
        drive-prints u _ r (deferring-eq-done procs (drive m) u s' r driven)
            ∙ ap (λ t. t ++ transcript r) printed,
      )

  either-Driven :
      (s s' : Bytes × m.World) (r : Report m)
      → (if hosted then drive m else run_local m) s ≡ (done r, s')
      → Driven s.0 s.1 s'.0 r
  either-Driven s s' r h = elim (Bool-cases hosted) [
    | inl e ↦
        inl (e, drive-prints s s' r (ap (λ b. (if b then drive m else run_local m) s) (sym e) ∙ h))
    | inr e ↦
        run_local-Driven s s' r e (ap (λ b. (if b then drive m else run_local m) s) (sym e) ∙ h)
  ]

  -- When a run of the demo is done, it has printed the banner of the deployment that it read, in local mode
  -- a report of each of its four starts that failed, with its error, and of no other, and then the transcript of
  -- its result: the texts of the scenario in their order, made of the values that it read from the services and
  -- returned.
  pub run-RunPrinted :
      (s s' : Bytes × m.World) (r : Report m) → run m s ≡ (done r, s') → RunPrinted s s' r
  unfolding run
  run-RunPrinted s s' r h =
      let (dep, v, loaded, rest) = and_silently-eq-done (load_deployment m) _ s.0 s.1 s' h in
      (
        dep,
        v,
        loaded,
        either-Driven (s.0 ++ banner m dep, v) s' r
            (and_say-eq-done (banner m dep) _ s.0 v s' rest),
      )
