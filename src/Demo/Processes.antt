-- ===== src/Demo/Processes.antt =====
-- internal/demo/demo.go: the service processes that a run leaves behind.
use mathlib.Core.List.{Memᴰ}
use mathlib.Core.List.Memᴰ
use mathlib.Core.Path.{subst, ◌∙◌}
use besu_interbank_demo.Base.{
  arith, refl, sym, ℕ, Bool, true, List, [], ◌∷◌, ◌++◌, ◌≡◌, ◌≢◌, ◌⊎◌, inl, inr, Option, none, some,
  Bytes, utf8, ◌==◌,
}
use besu_interbank_demo.Base.Keeps.{
  Keeps, Result-Keeps, Option-Keeps, try-Keeps, call-Keeps, if-Keeps,
}
use besu_interbank_demo.Base.Outcome.{
  Ext, Result-cases, try, ok, err, call, lift, done, Outcome, ◌>>=◌,
}
use besu_interbank_demo.Base.Runs.{bind-done}
use besu_interbank_demo.Base.Printing.{say, silently}
use besu_interbank_demo.Config.Load.{load_deployment}
use besu_interbank_demo.Demo.Quiet.{KeepsPrinting, and_silently-Keeps, and_say-Keeps, drive-Keeps}
use besu_interbank_demo.Demo.Scenario.{
  started, spawn, spawn_all, services, kill_all, deferring, drive, run_local, run,
}
use besu_interbank_demo.Demo.Texts.{failed_start_text}
use besu_interbank_demo.Platform.Geth.{Geth}
use besu_interbank_demo.Platform.Http.{Call}
use besu_interbank_demo.Platform.Machine.{Machine}

module _ {G : Geth} (m : Machine G) where
  -- A call after which no process runs but those that ran before it.
  abbrev StartsNone : (m.World → ℕ → Bool) → {A : Type 0} → Ext m.World A → Type 0
  StartsNone runs f = (w : m.World) (q : ℕ) → runs (f w).1 q ≡ true → runs w q ≡ true

  -- What the system does with processes: a start that succeeds adds one, a kill ends one, and nothing else
  -- that the demo calls starts any.
  pub record ProcessLaws : Type 0 where
    pub runs : m.World → ℕ → Bool
    pub started :
        (bin : Bytes) (env : List Bytes) (w : m.World) (p q : ℕ)
        → (m.start bin env w).0 ≡ ok p
        → runs (m.start bin env w).1 q ≡ true
        → (q ≡ p) ⊎ (runs w q ≡ true)
    pub not_started :
        (bin : Bytes) (env : List Bytes) (w : m.World) (e : Bytes) (q : ℕ)
        → (m.start bin env w).0 ≡ err e
        → runs (m.start bin env w).1 q ≡ true
        → runs w q ≡ true
    pub killed :
        (w : m.World) (p q : ℕ) → runs (m.kill p w).1 q ≡ true → (q ≢ p) × (runs w q ≡ true)
    pub http_starts : (c : Call) → StartsNone runs (m.http c)
    pub read_starts : (path : Bytes) → StartsNone runs (m.read_file path)
    pub dir_starts : StartsNone runs m.bin_dir

  module _ (laws : ProcessLaws) where
    -- Only processes of a list run.
    abbrev pub RunOnly : List ℕ → m.World → Type 0
    RunOnly procs w = (q : ℕ) → laws.runs w q ≡ true → Memᴰ q procs

    kill_all-RunOnly :
        (procs : List ℕ) (w : m.World) → RunOnly procs w → RunOnly [] (kill_all m procs w)
    unfolding kill_all
    kill_all-RunOnly [] w h = h
    kill_all-RunOnly (p ∷ ps) w h = kill_all-RunOnly ps (m.kill p w).1 λ q r.
        let (other, before) = laws.killed w p q r in
        elim (Memᴰ.cases_cons (h q before)) [ inl same ↦ absurd (other same) | inr rest ↦ rest ]

    -- A start is done, and what it started is on the list.
    abbrev Spawned : Outcome (Option ℕ) × (Bytes × m.World) → List ℕ → Type 0
    Spawned r procs =
        (p : Option ℕ) × (s : Bytes × m.World) × (r ≡ (done p, s)) × RunOnly (started m p procs) s.1

    spawn-Spawned :
        (dir bin : Bytes) (env : List Bytes) (procs : List ℕ) (s : Bytes × m.World)
        → RunOnly procs s.1
        → Spawned (spawn m dir bin env s) procs
    unfolding spawn silently say try call lift ◌>>=◌
    spawn-Spawned dir bin env procs s h =
        elim (Result-cases (m.start (dir ++ utf8 "/" ++ bin) env s.1).0) [
          | inl (p, good) ↦ (
            some p,
            (s.0, (m.start (dir ++ utf8 "/" ++ bin) env s.1).1),
            ground arith,
            λ q r. elim (laws.started _ env s.1 p q good r) [
              | inl same ↦ Memᴰ.append_right procs (Memᴰ.head same)
              | inr before ↦ Memᴰ.append_left (p ∷ []) (h q before)
            ],
          )
          | inr (e, bad) ↦ (
            none,
            (s.0 ++ failed_start_text bin e, (m.start (dir ++ utf8 "/" ++ bin) env s.1).1),
            ground arith,
            λ q r. h q (laws.not_started _ env s.1 e q bad r),
          )
        ]

    abbrev AllSpawned : Outcome (List ℕ) × (Bytes × m.World) → Type 0
    AllSpawned r =
        (procs : List ℕ) × (s : Bytes × m.World) × (r ≡ (done procs, s)) × RunOnly procs s.1

    spawn_all-AllSpawned :
        (dir : Bytes) (list : List (Bytes × List Bytes)) (procs : List ℕ) (s : Bytes × m.World)
        → RunOnly procs s.1
        → AllSpawned (spawn_all m dir list procs s)
    unfolding spawn_all
    spawn_all-AllSpawned dir [] procs s h = (procs, s, refl, h)
    spawn_all-AllSpawned dir ((bin, env) ∷ rest) procs s h =
        let (p, v, ran, only) = spawn-Spawned dir bin env procs s h in
        let (ps, u, later, all) = spawn_all-AllSpawned dir rest (started m p procs) v only in
        (ps, u, bind-done (spawn m dir bin env) _ s v ran ∙ later, all)

    drive_all-RunOnly :
        (procs : List ℕ) (s : Bytes × m.World)
        → RunOnly procs s.1
        → RunOnly [] (deferring m procs (drive m) s).1.1
    unfolding deferring
    drive_all-RunOnly procs s h =
        kill_all-RunOnly procs (drive m s).1.1
          (drive-Keeps m (RunOnly procs) (λ c w only q r. only q (laws.http_starts c w q r)) s h)

    run_local-Keeps : KeepsPrinting (RunOnly []) (run_local m)
    unfolding run_local
    run_local-Keeps =
        and_silently-Keeps (RunOnly []) _ _
          (call-Keeps (RunOnly []) m.bin_dir (λ w h q r. h q (laws.dir_starts w q r)))
          λ dir s h.
            let (procs, v, ran, only) = spawn_all-AllSpawned dir (services m) [] s h in
            subst (λ t. RunOnly [] t.1.1)
              (sym (bind-done (spawn_all m dir (services m) []) _ s v ran))
              (drive_all-RunOnly procs v only)

    load_deployment-Keeps : Keeps (RunOnly []) (load_deployment m)
    unfolding load_deployment
    load_deployment-Keeps =
        try-Keeps (RunOnly []) _ _
          (call-Keeps (RunOnly []) (m.read_file _) (λ w h q r. h q (laws.read_starts _ w q r)))
          λ r.
            Result-Keeps (RunOnly []) r _ _ (λ e w h. h)
              λ raw. Option-Keeps (RunOnly []) _ _ _ (λ w h. h) (λ d w h. h)

    -- Where no process runs before a run of the demo, none runs after it, whether the run is done, fails or
    -- panics, and whichever of the four services of local mode were started: where a start adds one process, a
    -- kill ends one, and no other call that the run makes adds any.
    pub run-ends_processes : KeepsPrinting (RunOnly []) (run m)
    unfolding run
    run-ends_processes = and_silently-Keeps (RunOnly []) _ _ load_deployment-Keeps λ dep.
        and_say-Keeps (RunOnly []) _ _ (
          if-Keeps _ (m.getenv (utf8 "DEMO_SPAWN") == utf8 "false") _ _
            (drive-Keeps m (RunOnly []) (λ c w only q r. only q (laws.http_starts c w q r)))
            run_local-Keeps)
