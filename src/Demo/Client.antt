-- ===== src/Demo/Client.antt =====
-- internal/demo/demo.go: the HTTP calls of the demo, and what it decodes.
use besu_interbank_demo.Base.{
  ℕ, zero, suc, Bool, true, false, [], ◌∷◌, ◌++◌, Option, none, some, Bytes, utf8, eqb, ◌==◌,
  replicate, if◌then◌else◌,
}
use besu_interbank_demo.Base.Outcome.{
  M, Result, ok, err, pure, raise, crash, call, try, attempt, ◌>>=◌,
}
use besu_interbank_demo.Config.{bank_a, bank_b, merchant}
use besu_interbank_demo.DepositSvc.Writes.{sign_body}
use besu_interbank_demo.Platform.Geth.{Geth}
use besu_interbank_demo.Platform.Http.{get, post, Call, Response, application_json}
use besu_interbank_demo.Platform.Json.{string, object, field, end, Body, doc, text}
use besu_interbank_demo.Platform.Machine.{Machine}
use besu_interbank_demo.Demo.Replies.{decode_info, decode_raw, error_text}

-- The bodies that the demo posts.
unfoldable pub account_body : Bytes → Body
account_body account = doc (object (field (utf8 "account") (string account) end))

unfoldable pub to_amount_body : Bytes → Bytes → Body
to_amount_body to amount =
    doc (object (field (utf8 "amount") (string amount) (field (utf8 "to") (string to) end)))

module _ {G : Geth} (m : Machine G) where
  -- `json.Unmarshal` or `Decode` of a body.
  unfoldable pub decoded : {A : Type 0} → (Body → Option A) → Body → M m.World A
  decoded decode body = elim (decode body) [ none ↦ raise (m.json_error body) | some a ↦ pure a ]

  abbrev pub get_call : Bytes → Call
  get_call url = record { method = get; url = url; content_type = []; body = text [] }

  abbrev pub post_call : Bytes → Body → Call
  post_call url body = record {
    method = post;
    url = url;
    content_type = application_json;
    body = body;
  }

  -- A request for a URL that does not parse is nil, and using it panics.
  unfoldable pub send : Call → M m.World Response
  send c = if m.is_url c.url then call (m.http c) else crash

  unfoldable pub get_json : {A : Type 0} → Bytes → (Body → Option A) → M m.World A
  get_json url decode = send (get_call url) >>= λ resp. decoded decode resp.body

  -- The error of a response that is not 200: its "error" text, or else its whole body.
  unfoldable pub refusal_text : Body → Bytes
  refusal_text body = if error_text body == [] then m.raw body else error_text body

  unfoldable pub read_response : {A : Type 0} → (Body → Option A) → Response → M m.World A
  read_response decode resp =
      if eqb resp.status 200 then decoded decode resp.body else raise (refusal_text resp.body)

  unfoldable pub post_json : {A : Type 0} → Bytes → Body → (Body → Option A) → M m.World A
  post_json url body decode = send (post_call url body) >>= read_response decode

  unfoldable pub is_healthy : Result Response → Bool
  is_healthy (err _) = false
  is_healthy (ok resp) = eqb resp.status 200

  -- The loop of `waitHealthy`; it sleeps between two rounds.
  unfoldable pub wait_loop : ℕ → Bytes → M m.World (Unit {0})
  wait_loop zero base = raise (utf8 "service at " ++ base ++ utf8 " never became healthy")
  wait_loop (suc rounds) base =
      try (send (get_call (base ++ utf8 "/health")))
        λ r. elim (is_healthy r) [ true ↦ pure tt | false ↦ wait_loop rounds base ]

  abbrev pub health_rounds : ℕ
  health_rounds = 80

  unfoldable pub wait_healthy : Bytes → M m.World (Unit {0})
  wait_healthy base = wait_loop health_rounds base

  abbrev or_zero_text : Option Bytes → Bytes
  or_zero_text none = utf8 "0"
  or_zero_text (some []) = utf8 "0"
  or_zero_text (some (c ∷ s)) = c ∷ s

  unfoldable pub balance_of : Bytes → M m.World Bytes
  balance_of addr =
      attempt (get_json ((bank_a m).deposit_svc_url ++ utf8 "/balance?account=" ++ addr) decode_raw)
      >>= λ raw. pure (or_zero_text raw)

  abbrev or_blank : Option (Bytes × Bytes) → Bytes × Bytes
  or_blank none = ([], [])
  or_blank (some p) = p

  -- The balances and the supplies that `showBalances` reads; an error leaves them blank.
  pub record Balances : Type 0 where
    pub bank_b : Bytes
    pub merchant : Bytes
    pub supply : Bytes
    pub rl : Bytes

  unfoldable pub read_balances : M m.World Balances
  read_balances = do
    b ← balance_of (G.address_hex (bank_b m).address)
    mer ← balance_of (G.address_hex (merchant m))
    info ← attempt (get_json ((bank_a m).deposit_svc_url ++ utf8 "/info") decode_info)
    pure (record { bank_b = b; merchant = mer; supply = (or_blank info).0; rl = (or_blank info).1 })

  abbrev status_or_zero : Result Response → ℕ
  status_or_zero (ok resp) = resp.status
  status_or_zero (err _) = 0

  -- Bank A's router is asked for a signature with Bank B's key.
  unfoldable pub wrong_key_call : Call
  wrong_key_call = record {
    method = post;
    url = (bank_a m).signing_router_url ++ utf8 "/sign";
    content_type = application_json;
    body = sign_body (bank_b m).key_id (utf8 "0x" ++ replicate 64 b'1');
  }

  unfoldable pub sign_with_wrong_key : M m.World ℕ
  sign_with_wrong_key = try (send wrong_key_call) λ r. pure (status_or_zero r)
