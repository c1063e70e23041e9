-- ===== src/Demo/Quiet.antt =====
-- internal/demo/demo.go: what the scenario does to the world is what its HTTP requests do.
use besu_interbank_demo.Base.{ℕ, zero, suc, List, [], ◌∷◌, Option, Bytes, eqb}
use besu_interbank_demo.Base.Keeps.{
  Keeps, Bool-Keeps, KeepsExt, call-Keeps, attempt-Keeps, try-Keeps, bind-Keeps, if-Keeps,
  Option-Keeps,
}
use besu_interbank_demo.Base.Outcome.{M, ◌>>=◌, ◌>>◌}
use besu_interbank_demo.Base.Printing.{Printing, say, silently}
use besu_interbank_demo.Demo.Client.{
  decoded, get_call, send, get_json, read_response, post_json, is_healthy, wait_loop, wait_healthy,
  balance_of, read_balances, sign_with_wrong_key,
}
use besu_interbank_demo.Demo.Scenario.{
  wait_all, authorize, onboard, post_amount, bank_b_cannot_mint, show_balances, drive,
}
use besu_interbank_demo.Platform.Abi.{Address}
use besu_interbank_demo.Platform.Geth.{Geth}
use besu_interbank_demo.Platform.Http.{Call, Response}
use besu_interbank_demo.Platform.Json.{Body}
use besu_interbank_demo.Platform.Machine.{Machine}
use besu_interbank_demo.Wfusd.{wfusd}

-- A property of the world, for computations that print.
module _ {W : Type 0} (P : W → Type 0) where
  abbrev pub KeepsPrinting : {A : Type 0} → Printing W A → Type 0
  KeepsPrinting f = Keeps (λ s. P s.1) f

  pub say-Keeps : (text : Bytes) → KeepsPrinting (say text)
  unfolding say
  say-Keeps text s h = h

  pub silently-Keeps : {A : Type 0} (f : M W A) → Keeps P f → KeepsPrinting (silently f)
  unfolding silently
  silently-Keeps f k s h = k s.1 h

  pub and_say-Keeps :
      {A : Type 0} (text : Bytes) (f : Printing W A)
      → KeepsPrinting f
      → KeepsPrinting (say text >> f)
  and_say-Keeps text f k = bind-Keeps (λ s. P s.1) (say text) (λ _. f) (say-Keeps text) (λ _. k)

  pub and_silently-Keeps :
      {A B : Type 0} (f : M W A) (k : A → Printing W B)
      → Keeps P f
      → ((a : A) → KeepsPrinting (k a))
      → KeepsPrinting (silently f >>= k)
  and_silently-Keeps f k kf ks = bind-Keeps (λ s. P s.1) (silently f) k (silently-Keeps f kf) ks

module _ {G : Geth} (m : Machine G) (P : m.World → Type 0) where
  send-Keeps : (c : Call) → KeepsExt P (m.http c) → Keeps P (send m c)
  unfolding send
  send-Keeps c k = if-Keeps P (m.is_url c.url) _ _ (call-Keeps P (m.http c) k) (λ w h. h)

  decoded-Keeps :
      {A : Type 0} (decode : Body → Option A) (body : Body) → Keeps P (decoded m decode body)
  unfolding decoded
  decoded-Keeps decode body = Option-Keeps P (decode body) _ _ (λ w h. h) (λ a w h. h)

  read_response-Keeps :
      {A : Type 0} (decode : Body → Option A) (resp : Response)
      → Keeps P (read_response m decode resp)
  unfolding read_response
  read_response-Keeps decode resp =
      if-Keeps P (eqb resp.status 200) _ _ (decoded-Keeps decode resp.body) (λ w h. h)

-- What GET requests keep, the reads of the demo keep.
module _ {G : Geth} (m : Machine G) (P : m.World → Type 0)
    (reads : (url : Bytes) → KeepsExt P (m.http (get_call m url))) where
  pub get_json-Keeps :
      {A : Type 0} (url : Bytes) (decode : Body → Option A) → Keeps P (get_json m url decode)
  unfolding get_json
  get_json-Keeps url decode =
      bind-Keeps P _ _ (send-Keeps m P _ (reads url)) (λ resp. decoded-Keeps m P decode resp.body)

  wait_loop-Keeps : (rounds : ℕ) (base : Bytes) → Keeps P (wait_loop m rounds base)
  unfolding wait_loop
  wait_loop-Keeps zero base = λ w h. h
  wait_loop-Keeps (suc rounds) base =
      try-Keeps P _ _ (send-Keeps m P _ (reads _))
        λ r. Bool-Keeps P (is_healthy m r) _ _ (λ w h. h) (wait_loop-Keeps rounds base)

  pub wait_all-Keeps : (urls : List Bytes) → Keeps P (wait_all m urls)
  unfolding wait_all wait_healthy
  wait_all-Keeps [] = λ w h. h
  wait_all-Keeps (u ∷ us) = bind-Keeps P _ _ (wait_loop-Keeps _ u) (λ _. wait_all-Keeps us)

  balance_of-Keeps : (addr : Bytes) → Keeps P (balance_of m addr)
  unfolding balance_of
  balance_of-Keeps addr = bind-Keeps P _ _ (attempt-Keeps P _ (get_json-Keeps _ _)) (λ _ w h. h)

  read_balances-Keeps : Keeps P (read_balances m)
  unfolding read_balances
  read_balances-Keeps = bind-Keeps P _ _ (balance_of-Keeps _) λ _.
      bind-Keeps P _ _ (balance_of-Keeps _)
        λ _. bind-Keeps P _ _ (attempt-Keeps P _ (get_json-Keeps _ _)) (λ _ w h. h)

  pub show_balances-Keeps : (title : Bytes) → KeepsPrinting P (show_balances m title)
  unfolding show_balances
  show_balances-Keeps title =
      and_silently-Keeps P _ _ read_balances-Keeps λ b. and_say-Keeps P _ _ (λ s h. h)

-- What every request keeps, the scenario keeps.
module _ {G : Geth} (m : Machine G) (P : m.World → Type 0)
    (web : (c : Call) → KeepsExt P (m.http c)) where
  read : (url : Bytes) → KeepsExt P (m.http (get_call m url))
  read url = web (get_call m url)

  post_json-Keeps :
      {A : Type 0} (url : Bytes) (body : Body) (decode : Body → Option A)
      → Keeps P (post_json m url body decode)
  unfolding post_json
  post_json-Keeps url body decode =
      bind-Keeps P _ _ (send-Keeps m P _ (web _)) (read_response-Keeps m P decode)

  onboard-Keeps : (who : Bytes) (account : Address) → KeepsPrinting P (onboard m who account)
  unfolding onboard authorize
  onboard-Keeps who account =
      and_silently-Keeps P _ _ (post_json-Keeps _ _ _)
        λ res. and_say-Keeps P _ _ (and_say-Keeps P _ _ (λ s h. h))

  post_amount-Keeps :
      (url : Bytes) (to : Address) (whole : Bytes) → Keeps P (post_amount m url to whole)
  unfolding post_amount
  post_amount-Keeps url to whole =
      Option-Keeps P (wfusd whole) _ _ (λ w h. h) (λ amount. post_json-Keeps url _ _)

  bank_b_cannot_mint-Keeps : Keeps P (bank_b_cannot_mint m)
  unfolding bank_b_cannot_mint
  bank_b_cannot_mint-Keeps = try-Keeps P _ _ (post_json-Keeps _ _ _) (λ _ w h. h)

  sign_with_wrong_key-Keeps : Keeps P (sign_with_wrong_key m)
  unfolding sign_with_wrong_key
  sign_with_wrong_key-Keeps = try-Keeps P _ _ (send-Keeps m P _ (web _)) (λ _ w h. h)

  pub drive-Keeps : KeepsPrinting P (drive m)
  unfolding drive
  drive-Keeps = and_silently-Keeps P _ _ (wait_all-Keeps m P read _) λ _.
      and_silently-Keeps P _ _ (get_json-Keeps m P read _ _) λ _. and_say-Keeps P _ _ (
        bind-Keeps _ _ _ (show_balances-Keeps m P read _) λ _. and_say-Keeps P _ _ (
          bind-Keeps _ _ _ (onboard-Keeps _ _) λ _. bind-Keeps _ _ _ (onboard-Keeps _ _) λ _.
            and_say-Keeps P _ _ (
              and_silently-Keeps P _ _ (post_amount-Keeps _ _ _) λ _. and_say-Keeps P _ _ (
                bind-Keeps _ _ _ (show_balances-Keeps m P read _) λ _. and_say-Keeps P _ _ (
                  and_silently-Keeps P _ _ (post_amount-Keeps _ _ _) λ _. and_say-Keeps P _ _ (
                    bind-Keeps _ _ _ (show_balances-Keeps m P read _) λ _. and_say-Keeps P _ _ (
                      and_say-Keeps P _ _ (
                        and_silently-Keeps P _ _ bank_b_cannot_mint-Keeps λ _. and_say-Keeps P _ _ (
                          and_silently-Keeps P _ _ sign_with_wrong_key-Keeps
                            λ _. and_say-Keeps P _ _ (and_say-Keeps P _ _ (λ s h. h)))))))))))
