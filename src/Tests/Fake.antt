-- ===== src/Tests/Fake.antt =====
-- A concrete go-ethereum and a concrete machine: keys and signatures are their own bytes, hex text doubles
-- each byte, and the world is the list of the transactions sent.
use besu_interbank_demo.Base.{
  if◌then◌else◌, ℕ, eqb, ◌∙◌, ap, sym, bytes_eq, true, List, [], ◌∷◌, ◌++◌, none, some, ◌≡◌, refl,
  Bytes, utf8, replicate, length, arith, inl, inr, ◌*◌,
}
use besu_interbank_demo.Base.Int.{pos}
use besu_interbank_demo.Base.Outcome.{Result, Result-cases, ok, err, Outcome, done}
use besu_interbank_demo.DepositSvc.Sender.{SigningLaws}
use besu_interbank_demo.DepositSvc.Signing.{at_router}
use besu_interbank_demo.Platform.Abi.{Argument, Function, Value, nothing, big_int}
use besu_interbank_demo.Platform.Geth.{Geth, DynamicFeeTx}
use besu_interbank_demo.Platform.Http.{
  get, head, post, other, route, Method, Call, Response, at_path,
}
use besu_interbank_demo.Platform.Machine.{Machine}
use besu_interbank_demo.SignRouter.Listening.{IsRouterPath, ListensAt}
use besu_interbank_demo.SignRouter.Server.{Server, handle_sign, handler, endpoints}
use besu_interbank_demo.SignRouter.Sign.{DecodesHex}

pub record FakeTx : Type 0 where
  pub fields : DynamicFeeTx
  pub signature : Bytes

abbrev pub doubled : Bytes → Bytes
doubled [] = []
doubled (b ∷ bs) = b ∷ b ∷ doubled bs

abbrev pub undoubled : Bytes → Result Bytes
undoubled [] = ok []
undoubled (b ∷ []) = err (utf8 "odd length")
undoubled (b ∷ c ∷ bs) = elim (undoubled bs) [ ok r ↦ ok (c ∷ r) | err e ↦ err e ]

abbrev pub unprefixed : Bytes → Result Bytes
unprefixed (a ∷ b ∷ bs) = undoubled bs
unprefixed _ = err (utf8 "no prefix")

-- A value for each argument that is not indexed.
abbrev pub no_values : List Argument → List Value
no_values [] = []
no_values (a ∷ args) = let rest = no_values args in if a.indexed then rest else nothing ∷ rest

abbrev pub first_function : List Function → Result Function
first_function [] = err []
first_function (f ∷ fs) = ok f

abbrev pub fake_geth : Geth
fake_geth = record {
  hex_to_address = λ s. s;
  address_hex = λ a. a;
  hex_to_hash = λ s. s;
  hash_hex = λ h. h;
  bytes_to_address = λ s. s;
  bytes_to_hex = λ s. s;
  encode_hex = λ s. b'0' ∷ b'x' ∷ doubled s;
  decode_hex = unprefixed;
  PrivateKey = Bytes;
  hex_to_ecdsa = λ s. ok s;
  pubkey_to_address = λ k. k;
  sign = λ h k. ok k;
  keccak256 = λ s. s;
  Transaction = FakeTx;
  new_tx = λ d. record { fields = d; signature = [] };
  signer_hash = λ c tx. replicate 32 0;
  with_signature = λ c tx sig. ok (record { fields = tx.fields; signature = sig });
  sender = λ c tx. ok tx.signature;
  tx_hash = λ tx. tx.signature;
  tx_to = λ tx. some tx.fields.to;
  tx_payload = λ tx. tx.fields.payload;
  tx_value = λ tx. tx.fields.value;
  tx_nonce = λ tx. tx.fields.nonce;
  tx_type = λ tx. 2;
  tx_gas = λ tx. tx.fields.gas;
  pack = λ a method args. ok method;
  unpack = λ a method out. ok (big_int (pos 7) ∷ []);
  unpack_arguments = λ args out. ok (no_values args);
  method_by_id = λ a id. first_function a.functions;
  event_by_id = λ a id. err [];
  quote = λ s. b'"' ∷ s ++ b'"' ∷ [];
}

undoubled-length : (t h : Bytes) → undoubled t ≡ ok h → length t ≡ 2 * length h
undoubled-length [] h e = ground arith
undoubled-length (b ∷ []) h e = absurd (ground arith)
undoubled-length (b ∷ c ∷ bs) h e = elim (Result-cases (undoubled bs)) [
  | inl (r, good) ↦ ground (arith, undoubled-length bs r good)
  | inr (x, bad) ↦ absurd (ground arith)
]

undoubled-doubled : (s : Bytes) → undoubled (doubled s) ≡ ok s
undoubled-doubled [] = refl
undoubled-doubled (b ∷ s) = rw (undoubled-doubled s)

pub fake_hex_length : DecodesHex fake_geth
fake_hex_length [] h e = absurd (ground arith)
fake_hex_length (a ∷ []) h e = absurd (ground arith)
fake_hex_length (a ∷ b ∷ bs) h e = omega (arith, undoubled-length bs h e)

pub fake_hex_round_trip : (s : Bytes) → fake_geth.decode_hex (fake_geth.encode_hex s) ≡ ok s
fake_hex_round_trip s = undoubled-doubled s

pub fake_laws : SigningLaws fake_geth
fake_laws = record {
  hex_length = fake_hex_length;
  hex_round_trip = fake_hex_round_trip;
  hash_size = λ c tx. refl;
  signs = λ hash k size. (k, refl);
  recovers = λ c tx tx' k sig signed assembled. ground arith;
}

-- What a stand-in for the network makes of a router's outcome.
abbrev pub delivered : Outcome Response → Result Response
delivered (done resp) = ok resp
delivered _ = err (utf8 "EOF")

abbrev last_byte : Bytes → ℕ
last_byte [] = 0
last_byte (c ∷ []) = c
last_byte (c ∷ d ∷ s) = last_byte (d ∷ s)

-- The router at /sign, for the method of a call.
abbrev at_sign : Server fake_geth → Method → Call → Outcome Response
at_sign router post c = handle_sign fake_geth router (at_router c)
at_sign router _ c = handler fake_geth [] router (at_path (utf8 "/sign") c)

-- The router at the path of a URL, which its last letter tells.
abbrev at_url : Server fake_geth → Call → Outcome Response
at_url router c =
    if eqb (last_byte c.url) b'h'
    then handler fake_geth [] router (at_path (utf8 "/health") c)
    else at_sign router c.method c

-- A machine whose HTTP calls all reach one router, and whose chain mines each transaction at once.
abbrev pub fake_machine : Server fake_geth → Machine fake_geth
fake_machine router = record {
  World = List FakeTx;
  getenv = λ k. [];
  repo_root = utf8 "/repo";
  stat = λ path w. (err (utf8 "no such file"), w);
  read_file = λ path w. (err (utf8 "no such file"), w);
  unmarshal_address = λ j. none;
  json_error = λ b. utf8 "EOF";
  is_url = λ u. true;
  http = λ c w. (delivered (at_url router c), w);
  raw = λ b. [];
  bin_dir = λ w. (ok (utf8 "/bin"), w);
  start = λ bin env w. (ok 1, w);
  kill = λ p w. (ok tt, w);
  dial = λ url w. (ok tt, w);
  pending_nonce_at = λ a w. (ok (length w), w);
  header_base_fee = λ w. (ok none, w);
  estimate_gas = λ msg w. (ok 100_000, w);
  send_transaction = λ tx w. (ok tt, tx ∷ w);
  wait_mined = λ tx w. (
    ok (record {
      status = 1;
      block_number = some (pos (length w));
      block_hash = [];
      gas_used = 90_000;
      effective_gas_price = none;
      logs = [];
    }),
    w,
  );
  call_contract = λ msg w. (ok [], w);
  block_number = λ w. (ok (length w), w);
  block_by_number = λ n w. (err (utf8 "not found"), w);
  transaction_by_hash = λ h w. (err (utf8 "not found"), w);
  transaction_receipt = λ h w. (err (utf8 "not found"), w);
  header_by_hash = λ h w. (err (utf8 "not found"), w);
}

last_byte-append : (s : Bytes) (c : ℕ) (t : Bytes) → last_byte (s ++ c ∷ t) ≡ last_byte (c ∷ t)
last_byte-append [] c t = refl
last_byte-append (b ∷ []) c t = refl
last_byte-append (b ∷ d ∷ s) c t = last_byte-append (d ∷ s) c t

module _ (router : Server fake_geth) where
  at_sign_routed :
      (method : Method) (c : Call)
      → c.method ≡ method
      → at_sign router method c ≡ handler fake_geth [] router (at_path (utf8 "/sign") c)
  unfolding handler handle_sign endpoints route bytes_eq
  at_sign_routed get c e = refl
  at_sign_routed head c e = refl
  at_sign_routed post c e = rw (e) refl
  at_sign_routed (other name) c e = refl

  abbrev at_byte : Call → ℕ → Outcome Response
  at_byte c b =
      if eqb b b'h'
      then handler fake_geth [] router (at_path (utf8 "/health") c)
      else at_sign router c.method c

  at_url_sign :
      (c : Call) (base : Bytes)
      → c.url ≡ base ++ utf8 "/sign"
      → at_url router c ≡ handler fake_geth [] router (at_path (utf8 "/sign") c)
  at_url_sign c base e =
      ap (at_byte c) (ap last_byte e ∙ last_byte-append base b'/' (utf8 "sign"))
      ∙ at_sign_routed c.method c refl

  at_url_health :
      (c : Call) (base : Bytes)
      → c.url ≡ base ++ utf8 "/health"
      → at_url router c ≡ handler fake_geth [] router (at_path (utf8 "/health") c)
  at_url_health c base e =
      ap (at_byte c) (ap last_byte e ∙ last_byte-append base b'/' (utf8 "health"))

  pub at_url_routed :
      (c : Call) (base path : Bytes)
      → IsRouterPath path
      → c.url ≡ base ++ path
      → at_url router c ≡ handler fake_geth [] router (at_path path c)
  at_url_routed c base path (inl sign) at =
      at_url_sign c base (at ∙ ap (λ p. base ++ p) sign)
      ∙ ap (λ p. handler fake_geth [] router (at_path p c)) (sym sign)
  at_url_routed c base path (inr health) at =
      at_url_health c base (at ∙ ap (λ p. base ++ p) health)
      ∙ ap (λ p. handler fake_geth [] router (at_path p c)) (sym health)

  -- The machine's router listens at every URL.
  pub fake_listens : (base : Bytes) → ListensAt (fake_machine router) base router
  fake_listens base = record {
    visited = [];
    url = λ path served. refl;
    reaches = λ c path served at w resp e.
        ap (λ o. (delivered o, w)) (at_url_routed c base path served at ∙ e);
  }
