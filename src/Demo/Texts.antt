-- ===== src/Demo/Texts.antt =====
-- internal/demo/demo.go: the texts that the demo prints.
use besu_interbank_demo.Base.{
  ℕ, suc, ◌-◌, ◌&&◌, List, [], ◌∷◌, ◌++◌, Option, none, some, Bytes, utf8, leb, ltb, length, take,
  replicate, ◌==◌, eqb, if◌then◌else◌,
}
use besu_interbank_demo.Config.{bank_b, merchant}
use besu_interbank_demo.Config.Deployment.{Deployment}
use besu_interbank_demo.Decimal.{decimal, int_string}
use besu_interbank_demo.Demo.Console.{bold, dim, green, red, amber, teal, reset, tint}
use besu_interbank_demo.Demo.Replies.{TxResult, TokenHeader}
use besu_interbank_demo.Platform.Geth.{Geth}
use besu_interbank_demo.Platform.Machine.{Machine}
use besu_interbank_demo.Wfusd.{fmt_wfusd}

abbrev pub line : Bytes → Bytes
line s = s ++ 10 ∷ []

-- The characters of a UTF-8 text: the bytes that do not continue one.
unfoldable pub rune_count : Bytes → ℕ
rune_count [] = 0
rune_count (b ∷ s) = let rest = rune_count s in if leb 0x80 b && ltb b 0xC0 then rest else suc rest

-- The verbs `%16s` and `%-24s`: blanks before or behind a text, up to a width.
unfoldable pub pad_left : ℕ → Bytes → Bytes
pad_left width s = replicate (width - rune_count s) b' ' ++ s

unfoldable pub pad_right : ℕ → Bytes → Bytes
pad_right width s = s ++ replicate (width - rune_count s) b' '

-- A text over `n` bytes is cut to them, with an ellipsis.
unfoldable pub cut : ℕ → Bytes → Bytes
cut n s = if ltb n (length s) then take n s ++ utf8 "…" else s

-- The method `print` of a result.
unfoldable pub result_text : Bytes → TxResult → Bytes
result_text color t =
    let mark =
      if t.status == utf8 "success" then tint green (utf8 "✓") else tint red (utf8 "✗ reverted") in
    line (
      utf8 "    "
      ++ mark
      ++ utf8 " "
      ++ pad_right 24 t.op
      ++ utf8 " "
      ++ dim
      ++ utf8 "blk#"
      ++ t.block_number
      ++ reset
      ++ utf8 "  "
      ++ dim
      ++ cut 18 t.tx_hash
      ++ reset
      ++ utf8 "  signed by "
      ++ tint color (cut 10 t.signed_by))

-- The results of an authorization, one by one.
unfoldable pub results_text : Bytes → List TxResult → Bytes
results_text color [] = []
results_text color (t ∷ ts) = result_text color t ++ results_text color ts

unfoldable pub header_text : TokenHeader → Bytes
header_text h = line (
    utf8 "  Token: "
    ++ bold
    ++ h.name
    ++ reset
    ++ utf8 " ("
    ++ h.symbol
    ++ utf8 "), "
    ++ int_string h.decimals
    ++ utf8 " decimals")

unfoldable pub onboarded_text : Bytes → Bytes
onboarded_text who = line (dim ++ utf8 "    onboarded " ++ who ++ reset)

-- The headings of the four steps.
abbrev pub authorize_heading : Bytes
authorize_heading =
    10 ∷ line (amber ++ utf8 "  ① Bank A authorizes Bank B's wallet and the merchant" ++ reset)

abbrev pub mint_heading : Bytes
mint_heading =
    10
    ∷ line (
        amber
        ++ utf8 "  ② Bank A mints "
        ++ bold
        ++ utf8 "1,000,000 WFUSD"
        ++ reset
        ++ amber
        ++ utf8 " → Bank B's wallet"
        ++ reset)

abbrev pub transfer_heading : Bytes
transfer_heading =
    10
    ∷ line (
        teal
        ++ utf8 "  ③ Bank B transfers "
        ++ bold
        ++ utf8 "250,000 WFUSD"
        ++ reset
        ++ teal
        ++ utf8 " → Merchant (real-time)"
        ++ reset)

abbrev pub checks_heading : Bytes
checks_heading = 10 ∷ line (bold ++ utf8 "  ④ Reconcile & key-isolation checks" ++ reset)

abbrev pub ok_mark : Bytes
ok_mark = utf8 "    " ++ green ++ utf8 "✓" ++ reset

abbrev bad_mark : Bytes
bad_mark = utf8 "    " ++ red ++ utf8 "✗" ++ reset

-- The outcomes of the three checks.
unfoldable pub reconcile_text : Bytes → Bytes → Bytes
reconcile_text supply rl =
    if supply == rl
    then line (
        ok_mark
        ++ utf8 " ReserveLedger backing "
        ++ fmt_wfusd rl
        ++ utf8 " == deposit-token supply "
        ++ fmt_wfusd supply)
    else line
        (bad_mark ++ utf8 " backing " ++ fmt_wfusd rl ++ utf8 " != supply " ++ fmt_wfusd supply)

-- `some` error is the refusal that bank B gets.
unfoldable pub mint_check_text : Option Bytes → Bytes
mint_check_text (some e) =
    line (ok_mark ++ utf8 " Bank B cannot mint " ++ dim ++ utf8 "(" ++ e ++ utf8 ")" ++ reset)
mint_check_text none = line (bad_mark ++ utf8 " Bank B was able to mint — SHOULD NOT HAPPEN")

unfoldable pub key_check_text : ℕ → Bytes
key_check_text code =
    if eqb code 403
    then line (
        ok_mark
        ++ utf8 " Bank A's router refuses to sign with Bank B's key "
        ++ dim
        ++ utf8 "(403 — key not held)"
        ++ reset)
    else line (
        bad_mark
        ++ utf8 " Bank A's router signed for Bank B — SHOULD NOT HAPPEN ("
        ++ decimal code
        ++ utf8 ")")

abbrev pub farewell : Bytes
farewell =
    10
    ∷ line (
        line (
          green
          ++ utf8 "  ✓ Demo complete — two banks, two keys, tokens moved in real time."
          ++ reset))

unfoldable pub failed_start_text : Bytes → Bytes → Bytes
failed_start_text bin e =
    line (red ++ utf8 "  ✗ failed to start " ++ bin ++ utf8 ": " ++ e ++ reset)

module _ {G : Geth} (m : Machine G) where
  unfoldable pub banner : Deployment → Bytes
  banner dep =
      10 ∷ line (bold ++ utf8 "══════ Besu Interbank Deposit-Token Demo ══════" ++ reset)
      ++ line (
          dim
          ++ utf8 "  chainId "
          ++ decimal dep.chain_id
          ++ utf8 " · deposit token @ "
          ++ G.address_hex dep.deposit_token
          ++ reset)
      ++ line (
          line (
            dim
            ++ utf8 "  Each bank runs its own signing-router (its key) + deposit-svc (no key)."
            ++ reset))

  -- The balances and supplies under a title.
  unfoldable pub balances_text : Bytes → Bytes → Bytes → Bytes → Bytes → Bytes
  balances_text title in_bank_b in_merchant supply rl =
      10 ∷ line (bold ++ utf8 "  " ++ title ++ reset)
      ++ line (
          utf8 "    "
          ++ tint teal (utf8 "Bank B wallet")
          ++ utf8 "   "
          ++ pad_left 16 (fmt_wfusd in_bank_b)
          ++ utf8 "   "
          ++ dim
          ++ G.address_hex (bank_b m).address
          ++ reset)
      ++ line (
          utf8 "    Merchant          "
          ++ pad_left 16 (fmt_wfusd in_merchant)
          ++ utf8 "   "
          ++ dim
          ++ G.address_hex (merchant m)
          ++ reset)
      ++ line (
          dim
          ++ utf8 "    ─ deposit-token supply "
          ++ fmt_wfusd supply
          ++ utf8 "  ·  ReserveLedger backing "
          ++ fmt_wfusd rl
          ++ reset)
