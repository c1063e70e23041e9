-- ===== src/Demo/Waiting.antt =====
-- internal/demo/demo.go: the wait for a service, as a sequence of health requests.
use besu_interbank_demo.Base.{
  ℕ, zero, suc, ◌≤◌, Bool, true, false, [], ◌++◌, ◌≡◌, ◌⊎◌, ◌∙◌, refl, Bytes, utf8, arith,
  Bool-cases, inl, inr,
}
use besu_interbank_demo.Base.Outcome.{Outcome, done, fail}
use besu_interbank_demo.Base.Runs.{try-call}
use besu_interbank_demo.Demo.Client.{send, is_healthy, wait_loop, wait_healthy}
use besu_interbank_demo.Platform.Geth.{Geth}
use besu_interbank_demo.Platform.Http.{get, Call}
use besu_interbank_demo.Platform.Json.{text}
use besu_interbank_demo.Platform.Machine.{Machine}

module _ {G : Geth} (m : Machine G) (base : Bytes) where
  abbrev pub health_call : Call
  health_call = record {
    method = get;
    url = base ++ utf8 "/health";
    content_type = [];
    body = text [];
  }

  -- A number of health requests, each from the world that the one before left: none but the last is
  -- answered with 200, and the last one is where the flag is true.
  pub data Polled : ℕ → Bool → m.World → m.World → Type 0 where
    unanswered : {w : m.World} → Polled 0 false w w
    answered :
        {w : m.World}
        → is_healthy m (m.http health_call w).0 ≡ true
        → Polled 1 true w (m.http health_call w).1
    again :
        {n : ℕ} {b : Bool} {w w' : m.World}
        → is_healthy m (m.http health_call w).0 ≡ false
        → Polled n b (m.http health_call w).1 w'
        → Polled (suc n) b w w'

  abbrev pub never_healthy : Bytes
  never_healthy = utf8 "service at " ++ base ++ utf8 " never became healthy"

  -- What a wait of some rounds has done: it stopped at an answer, or all its rounds were in vain.
  abbrev pub Waited : ℕ → m.World → Outcome (Unit {0}) → m.World → Type 0
  Waited rounds w o w' =
      ((n : ℕ) × (n ≤ rounds) × Polled n true w w' × (o ≡ done tt))
      ⊎ (Polled rounds false w w' × (o ≡ fail never_healthy))

  abbrev Ended : ℕ → m.World → Type 0
  Ended rounds w =
      (o : Outcome (Unit {0})) × (w' : m.World) × (wait_loop m rounds base w ≡ (o, w'))
      × Waited rounds w o w'

  Waited-again :
      (rounds : ℕ) (w w' : m.World) (o : Outcome (Unit {0}))
      → is_healthy m (m.http health_call w).0 ≡ false
      → Waited rounds (m.http health_call w).1 o w'
      → Waited (suc rounds) w o w'
  Waited-again rounds w w' o bad (inl (n, few, polled, e)) =
      inl (suc n, omega (arith, few), again bad polled, e)
  Waited-again rounds w w' o bad (inr (polled, e)) = inr (again bad polled, e)

  wait_loop-Waited : m.is_url health_call.url ≡ true → (rounds : ℕ) (w : m.World) → Ended rounds w
  unfolding wait_loop send
  wait_loop-Waited url zero w = (fail never_healthy, w, refl, inr (unanswered, refl))
  wait_loop-Waited url (suc rounds) w =
      let v = (m.http health_call w).1 in
      elim (Bool-cases (is_healthy m (m.http health_call w).0)) [
        | inl good ↦ (
          done tt,
          v,
          rw (url, wait_loop, send) (try-call (m.http health_call) _ w ∙ rw good refl),
          inl (1, omega arith, answered good, refl),
        )
        | inr bad ↦
            let (o, w', ran, how) = wait_loop-Waited url rounds v in
            (
              o,
              w',
              rw (url, wait_loop, send) (try-call (m.http health_call) _ w ∙ rw bad ran),
              Waited-again rounds w w' o bad how,
            )
      ]

  -- Where a service's URL parses, the wait for it ends: with success at the first health request that is
  -- answered with 200, after at most 80 of them, or with an error after 80 requests that were not.
  pub wait_healthy-Waited :
      m.is_url health_call.url ≡ true
      → (w : m.World)
      → (o : Outcome (Unit {0})) × (w' : m.World) × (wait_healthy m base w ≡ (o, w'))
        × Waited 80 w o w'
  unfolding wait_healthy
  wait_healthy-Waited url w = wait_loop-Waited url 80 w
