-- ===== src/DepositSvc/Concurrent.antt =====
-- internal/depositsvc: requests that the services of both banks handle at the same time.
use besu_interbank_demo.Base.{[], ◌≡◌, ◌⊎◌, sym, inl, inr}
use mathlib.Core.Path.{subst}
use besu_interbank_demo.Base.Task.{Task}
use besu_interbank_demo.Base.Task.Schedule.{System, Reach, Reach-IsSafe, Respects}
use besu_interbank_demo.Config.{holder}
use besu_interbank_demo.DepositSvc.Requests.{
  TransfersKeep, MintsKeep, AuthorizesKeep, holder_serve-Respects, issuer_serve-Respects,
}
use besu_interbank_demo.DepositSvc.Sends.{ReadsKeep}
use besu_interbank_demo.DepositSvc.Service.{Service}
use besu_interbank_demo.DepositSvc.Tasks.Serve.{serve}
use besu_interbank_demo.Platform.Geth.{Geth}
use besu_interbank_demo.Platform.Http.{Request, Response}
use besu_interbank_demo.Platform.Machine.{Machine}

module _ {G : Geth} (m : Machine G) where
  -- The task of some request to a service.
  abbrev pub IsRequestTo : Service → Task m.World Response → Type 0
  IsRequestTo s t = (r : Request) × (t ≡ serve m s r)

  -- The task of some request to one of two services.
  abbrev pub IsRequestToEither : Service → Service → Task m.World Response → Type 0
  IsRequestToEither a b t = IsRequestTo a t ⊎ IsRequestTo b t

  -- No request at work yet.
  abbrev pub quiet : m.World → System m.World Response
  quiet w = record { world = w; tasks = [] }

module _ {G : Geth} (m : Machine G) (P : m.World → Type 0) where
  -- Whatever requests a holder's service handles at the same time, and in whatever order their library
  -- calls come, it sends no transaction but calls of the deposit token's `transfer`: a property of the
  -- world that every other library call keeps, and that sending such a transaction keeps, holds throughout.
  pub holder_concurrent :
      (s : Service)
      → ReadsKeep m P s.bank
      → s.bank.role ≡ holder
      → TransfersKeep m P s
      → (w : m.World) {u : System m.World Response} → P w
      → Reach (IsRequestTo m s) (quiet m w) u
      → P u.world
  holder_concurrent s reads is_holder send w p r =
      (Reach-IsSafe P
        (λ t (req, e).
          subst (Respects P) (sym e) (holder_serve-Respects m P s reads is_holder send req))
        r (p, tt)).0

  -- Whatever requests an issuer's and a holder's service handle at the same time, and in whatever order
  -- their library calls come: a property of the world that every other library call keeps, and that
  -- sending the issuer's calls of `mint`, `modifyPolicyWhitelist` and `transfer`, and the holder's calls of
  -- `transfer` keeps, holds throughout.
  pub banks_concurrent :
      (a b : Service)
      → ReadsKeep m P a.bank
      → ReadsKeep m P b.bank
      → b.bank.role ≡ holder
      → MintsKeep m P a
      → AuthorizesKeep m P a
      → TransfersKeep m P a
      → TransfersKeep m P b
      → (w : m.World) {u : System m.World Response} → P w
      → Reach (IsRequestToEither m a b) (quiet m w) u
      → P u.world
  banks_concurrent a b reads_a reads_b is_holder mints authorizes transfers_a transfers_b w p r =
      (Reach-IsSafe P
        (λ t arrived. elim arrived [
          | inl (req, e) ↦
              subst (Respects P) (sym e)
                (issuer_serve-Respects m P a reads_a mints authorizes transfers_a req)
          | inr (req, e) ↦
              subst (Respects P) (sym e)
                (holder_serve-Respects m P b reads_b is_holder transfers_b req)
        ])
        r (p, tt)).0
