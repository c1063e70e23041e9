-- ===== src/Demo/Starts.antt =====
-- internal/demo/demo.go: the starts of the services, and how those that fail are reported.
use mathlib.Core.Path.{subst}
use besu_interbank_demo.Base.{
  ℕ, List, [], ◌∷◌, ◌++◌, append_assoc, append-nil, none, some, ◌≡◌, ◌∙◌, sym, Bytes, utf8, inl,
  inr, arith,
}
use besu_interbank_demo.Base.Outcome.{Result-cases, ok, err, done, lift, call, try, ◌>>=◌}
use besu_interbank_demo.Base.Printing.{say, silently}
use besu_interbank_demo.Base.Runs.{bind-done}
use besu_interbank_demo.Demo.Scenario.{spawn, started, spawn_all}
use besu_interbank_demo.Demo.Texts.{failed_start_text}
use besu_interbank_demo.Platform.Geth.{Geth}
use besu_interbank_demo.Platform.Machine.{Machine}

-- The reports of the starts that failed, by binary and error.
abbrev pub failures : List (Bytes × Bytes) → Bytes
failures [] = []
failures ((bin, e) ∷ rest) = failed_start_text bin e ++ failures rest

module _ {G : Geth} (m : Machine G) (dir : Bytes) where
  -- The binaries were started one after the other, from one world to another; those of the last list failed,
  -- with these errors, and no other.
  pub data Starts
      : List (Bytes × List Bytes) → m.World → m.World → List (Bytes × Bytes) → Type 0 where
    all_started : {w : m.World} → Starts [] w w []
    runs :
        {bin : Bytes} {env : List Bytes} {rest : List (Bytes × List Bytes)} {w w' : m.World}
        {failed : List (Bytes × Bytes)}
        → (p : ℕ) → (m.start (dir ++ utf8 "/" ++ bin) env w).0 ≡ ok p
        → Starts rest (m.start (dir ++ utf8 "/" ++ bin) env w).1 w' failed
        → Starts ((bin, env) ∷ rest) w w' failed
    fails :
        {bin : Bytes} {env : List Bytes} {rest : List (Bytes × List Bytes)} {w w' : m.World}
        {failed : List (Bytes × Bytes)}
        → (e : Bytes) → (m.start (dir ++ utf8 "/" ++ bin) env w).0 ≡ err e
        → Starts rest (m.start (dir ++ utf8 "/" ++ bin) env w).1 w' failed
        → Starts ((bin, env) ∷ rest) w w' ((bin, e) ∷ failed)

  spawn_runs :
      (bin : Bytes) (env : List Bytes) (out : Bytes) (w : m.World) {p : ℕ}
      → (m.start (dir ++ utf8 "/" ++ bin) env w).0 ≡ ok p
      → spawn m dir bin env (out, w)
        ≡ (done (some p), (out, (m.start (dir ++ utf8 "/" ++ bin) env w).1))
  unfolding spawn silently say try call lift ◌>>=◌
  spawn_runs bin env out w good = ground arith

  spawn_fails :
      (bin : Bytes) (env : List Bytes) (out : Bytes) (w : m.World) {e : Bytes}
      → (m.start (dir ++ utf8 "/" ++ bin) env w).0 ≡ err e
      → spawn m dir bin env (out, w)
        ≡ (done none, (out ++ failed_start_text bin e, (m.start (dir ++ utf8 "/" ++ bin) env w).1))
  unfolding spawn silently say try call lift ◌>>=◌
  spawn_fails bin env out w bad = ground arith

  -- What the starts have printed.
  abbrev pub Reported : List (Bytes × List Bytes) → Bytes → m.World → Bytes × m.World → Type 0
  Reported list out w s =
      (failed : List (Bytes × Bytes)) × Starts list w s.1 failed × (s.0 ≡ out ++ failures failed)

  pub spawn_all-Reported :
      (list : List (Bytes × List Bytes)) (procs : List ℕ) (out : Bytes) (w : m.World)
      (s : Bytes × m.World) (ps : List ℕ)
      → spawn_all m dir list procs (out, w) ≡ (done ps, s)
      → Reported list out w s
  unfolding spawn_all
  spawn_all-Reported [] procs out w s ps h =
      let world : ◌≡◌ {A = Bytes × m.World} (out, w) s = ground arith in
      subst (Reported [] out w) world ([], all_started, sym (append-nil out))
  spawn_all-Reported ((bin, env) ∷ rest) procs out w s ps h =
      let v = (m.start (dir ++ utf8 "/" ++ bin) env w).1 in
      elim (Result-cases (m.start (dir ++ utf8 "/" ++ bin) env w).0) [
        | inl (p, good) ↦
            let (failed, starts, printed) =
              spawn_all-Reported rest (started m (some p) procs) out v s ps (
                sym (
                  bind-done (spawn m dir bin env) _ (out, w) (out, v)
                    (spawn_runs bin env out w good))
                ∙ h) in
            (failed, runs p good starts, printed)
        | inr (e, bad) ↦
            let text = failed_start_text bin e in
            let (failed, starts, printed) =
              spawn_all-Reported rest (started m none procs) (out ++ text) v s ps (
                sym (
                  bind-done (spawn m dir bin env) _ (out, w) (out ++ text, v)
                    (spawn_fails bin env out w bad))
                ∙ h) in
            (
              (bin, e) ∷ failed,
              fails e bad starts,
              printed ∙ append_assoc out text (failures failed),
            )
      ]
