-- ===== src/Demo/Reconcile.antt =====
-- internal/demo/demo.go: the reconciliation when the state of the token cannot be read.
use besu_interbank_demo.Base.{[], ◌++◌, ◌≡◌, ◌∙◌, refl, Bytes, utf8, bytes_eq}
use besu_interbank_demo.Base.Outcome.{done, fail}
use besu_interbank_demo.Base.Runs.{bind-done, attempt-fail}
use besu_interbank_demo.Config.{bank_a, bank_b, merchant}
use besu_interbank_demo.Demo.Client.{Balances, get_json, balance_of, read_balances}
use besu_interbank_demo.Demo.Replies.{decode_info}
use besu_interbank_demo.Demo.Texts.{line, ok_mark, reconcile_text}
use besu_interbank_demo.Platform.Geth.{Geth}
use besu_interbank_demo.Platform.Machine.{Machine}
use besu_interbank_demo.Wfusd.{fmt_wfusd, thousands, join_commas, group}
use besu_interbank_demo.Decimal.{int_string, set_string}
use besu_interbank_demo.Base.Int.{quo_ℕ}

reconcile_blank :
    reconcile_text [] []
    ≡ line (ok_mark ++ utf8 " ReserveLedger backing 0 WFUSD == deposit-token supply 0 WFUSD")
unfolding reconcile_text bytes_eq fmt_wfusd thousands join_commas group int_string quo_ℕ set_string
reconcile_blank = refl

module _ {G : Geth} (m : Machine G) where
  abbrev pub blank : Bytes → Bytes → Balances m
  blank in_bank_b in_merchant = record {
    bank_b = in_bank_b;
    merchant = in_merchant;
    supply = [];
    rl = [];
  }

  -- When the request for the state of the token fails, after the two balances, both supplies are blank, and
  -- the demo reports with its mark of success that a backing of 0 WFUSD equals a supply of 0 WFUSD.
  pub unread_info_reconciles :
      (w v u w' : m.World) (x y e : Bytes)
      → balance_of m (G.address_hex (bank_b m).address) w ≡ (done x, v)
      → balance_of m (G.address_hex (merchant m)) v ≡ (done y, u)
      → get_json m ((bank_a m).deposit_svc_url ++ utf8 "/info") decode_info u ≡ (fail e, w')
      → (read_balances m w ≡ (done (blank x y), w'))
        × (reconcile_text (blank x y).supply (blank x y).rl
            ≡ line
                (ok_mark ++ utf8 " ReserveLedger backing 0 WFUSD == deposit-token supply 0 WFUSD"))
  unfolding read_balances
  unread_info_reconciles w v u w' x y e first second third = (
    bind-done _ _ w v first
        ∙ bind-done _ _ v u second
        ∙ bind-done _ _ u w' (attempt-fail _ u w' third),
    reconcile_blank,
  )
