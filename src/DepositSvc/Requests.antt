-- ===== src/DepositSvc/Requests.antt =====
-- internal/depositsvc: which transactions a request can make a service send, and what a holder's
-- service refuses.
use mathlib.Core.List.{cons-ne-nil}
use mathlib.Core.Path.{subst}
use besu_interbank_demo.Base.{
  append-ne-nil, ◌≢◌, ℕ, true, false, [], ◌∷◌, ◌++◌, ◌≡◌, Bytes, utf8, arith,
}
use besu_interbank_demo.Base.Int.{ℤ}
use besu_interbank_demo.Base.Outcome.{ok, fail}
use besu_interbank_demo.Base.Runs.{bind-fail}
use besu_interbank_demo.Base.Keeps.{Keeps}
use besu_interbank_demo.Base.Task.{◌>>=◌, after}
use besu_interbank_demo.Base.Task.Schedule.{Respects, alone-Keeps}
use besu_interbank_demo.Chainx.{deposit_token_abi, token_authority_abi, auth_registry_abi}
use besu_interbank_demo.Config.{issuer, holder, role_eq, role_text}
use besu_interbank_demo.DepositSvc.Calls.{serve-Respects}
use besu_interbank_demo.DepositSvc.Sends.{
  ReadsKeep, SendKeeps, mint-Respects, authorize-Respects, transfer-Respects,
}
use besu_interbank_demo.DepositSvc.Server.{handler}
use besu_interbank_demo.DepositSvc.Service.{Service}
use besu_interbank_demo.DepositSvc.Tasks as Tasks
use besu_interbank_demo.DepositSvc.Tasks.Serve.{serve}
use besu_interbank_demo.DepositSvc.Tasks.Served.{serve-handler}
use besu_interbank_demo.DepositSvc.Writes.{require_role, mint, authorize}
use besu_interbank_demo.Platform.Abi.{Address, address, big_int, uint64, bool}
use besu_interbank_demo.Platform.Geth.{Geth}
use besu_interbank_demo.Platform.Http.{Request}
use besu_interbank_demo.Platform.Machine.{Machine}

module _ {G : Geth} (m : Machine G) where
  -- The error text of a refused role.
  abbrev pub refusal : Service → Bytes → Bytes
  refusal s op =
      s.bank.label
      ++ utf8 " ("
      ++ role_text s.bank.role
      ++ utf8 ") may not perform "
      ++ G.quote op
      ++ utf8 " — requires "
      ++ role_text issuer

  pub refusal-ne-nil : (s : Service) (op : Bytes) → refusal s op ≢ []
  unfolding role_text
  refusal-ne-nil s op = append-ne-nil _ _ (cons-ne-nil _ _)

  pub require_role_refused :
      (s : Service) (op : Bytes) (w : m.World)
      → s.bank.role ≡ holder
      → require_role m s issuer op w ≡ (fail (refusal s op), w)
  unfolding require_role role_eq
  require_role_refused s op w e = ground arith

  -- A holder's service refuses to mint and to authorize, before any call of the router or the chain:
  -- the world is as it was.
  pub holder_refused :
      (s : Service) (w : m.World)
      → s.bank.role ≡ holder
      → ((to : Address) (amount : ℤ) → mint m s to amount w ≡ (fail (refusal s (utf8 "mint")), w))
        × ((account : Address) → authorize m s account w ≡ (fail (refusal s (utf8 "authorize")), w))
  unfolding mint authorize
  holder_refused s w e = (
    λ to amount. bind-fail _ _ w w (require_role_refused s (utf8 "mint") w e),
    λ account. bind-fail _ _ w w (require_role_refused s (utf8 "authorize") w e),
  )

module _ {G : Geth} (m : Machine G) (P : m.World → Type 0) (s : Service) where
  not_issuer : s.bank.role ≡ holder → role_eq s.bank.role issuer ≡ false
  unfolding role_eq
  not_issuer e = rw e

  mint_refused-Respects :
      s.bank.role ≡ holder → (to : Address) (amount : ℤ) → Respects P (Tasks.mint m s to amount)
  unfolding Tasks.mint Tasks.require_role ◌>>=◌ after Respects
  mint_refused-Respects e to amount = rw (not_issuer e, Tasks.mint, Tasks.require_role) tt

  authorize_refused-Respects :
      s.bank.role ≡ holder → (account : Address) → Respects P (Tasks.authorize m s account)
  unfolding Tasks.authorize Tasks.require_role ◌>>=◌ after Respects
  authorize_refused-Respects e account = rw (not_issuer e, Tasks.authorize, Tasks.require_role) tt

  -- Sending a packed `transfer` to the deposit token keeps `P`, and so do the two other kinds of call.
  abbrev pub TransfersKeep : Type 0
  TransfersKeep =
      (to : Address) (amount : ℤ) (payload : Bytes)
      → G.pack deposit_token_abi (utf8 "transfer") (address to ∷ big_int amount ∷ []) ≡ ok payload
      → SendKeeps m P s.dep.deposit_token payload

  abbrev pub MintsKeep : Type 0
  MintsKeep =
      (to : Address) (amount : ℤ) (payload : Bytes)
      → G.pack token_authority_abi (utf8 "mint")
          (address s.dep.deposit_token ∷ address to ∷ big_int amount ∷ [])
        ≡ ok payload
      → SendKeeps m P s.dep.token_authority payload

  abbrev pub AuthorizesKeep : Type 0
  AuthorizesKeep =
      (account : Address) (policy : ℕ) (payload : Bytes)
      → G.pack auth_registry_abi (utf8 "modifyPolicyWhitelist")
          (uint64 policy ∷ address account ∷ bool true ∷ [])
        ≡ ok payload
      → SendKeeps m P s.dep.auth_registry payload

  handled-Keeps : (r : Request) → Respects P (serve m s r) → Keeps P (handler m s r)
  handled-Keeps r h w p = subst (λ o. P o.1) (serve-handler m s r w) (alone-Keeps P _ h w p)

module _ {G : Geth} (m : Machine G) (P : m.World → Type 0) (s : Service)
    (reads : ReadsKeep m P s.bank) where
  pub holder_serve-Respects :
      s.bank.role ≡ holder → TransfersKeep m P s → (r : Request) → Respects P (serve m s r)
  holder_serve-Respects is_holder send = serve-Respects m P s reads (record {
    minting = mint_refused-Respects m P s is_holder;
    authorizing = authorize_refused-Respects m P s is_holder;
    transferring = λ to amount. transfer-Respects m P s reads to amount (send to amount);
  })

  -- Whatever is asked of a holder's service, by whatever method, path and body, it sends no transaction
  -- but calls of the deposit token's `transfer`: a property of the world that every other library call
  -- keeps, and that sending such a transaction keeps, is kept by the handler.
  pub holder_handler-Keeps :
      s.bank.role ≡ holder → TransfersKeep m P s → (r : Request) → Keeps P (handler m s r)
  holder_handler-Keeps is_holder send r =
      handled-Keeps m P s r (holder_serve-Respects is_holder send r)

  pub issuer_serve-Respects :
      MintsKeep m P s
      → AuthorizesKeep m P s
      → TransfersKeep m P s
      → (r : Request) → Respects P (serve m s r)
  issuer_serve-Respects send_mint send_authorize send_transfer =
      serve-Respects m P s reads (record {
        minting = λ to amount. mint-Respects m P s reads to amount (send_mint to amount);
        authorizing = λ account. authorize-Respects m P s reads account (send_authorize account);
        transferring =
            λ to amount. transfer-Respects m P s reads to amount (send_transfer to amount);
      })

  -- A service sends calls of `mint` for the deposit token, of `modifyPolicyWhitelist` that add an account,
  -- and of `transfer`, and nothing else: a property of the world that every other library call keeps, and
  -- that sending these three kinds of transaction keeps, is kept by the handler, for every request.
  pub handler-Keeps_lem :
      MintsKeep m P s
      → AuthorizesKeep m P s
      → TransfersKeep m P s
      → (r : Request) → Keeps P (handler m s r)
  handler-Keeps_lem send_mint send_authorize send_transfer r =
      handled-Keeps m P s r (issuer_serve-Respects send_mint send_authorize send_transfer r)
