-- ===== src/Demo/Steps.antt =====
-- internal/demo: the requests of a whole scenario, in their order.
use mathlib.Core.Path.{subst, ap₂}
use besu_interbank_demo.Base.{List, ◌++◌, Option, ◌≡◌, ◌∙◌, sym, ap, Bytes, utf8}
use besu_interbank_demo.Base.Outcome.{done}
use besu_interbank_demo.Base.Printing.{
  through, through_silently, and_silently-eq-done, and_say-eq-done,
}
use besu_interbank_demo.Base.Runs.{pure-eq-done}
use besu_interbank_demo.Config.{bank_a, bank_b, merchant}
use besu_interbank_demo.Demo.Client.{get_json, get_call, Balances, sign_with_wrong_key}
use besu_interbank_demo.Demo.Quiet.{wait_all-Keeps, get_json-Keeps, show_balances-Keeps}
use besu_interbank_demo.Demo.Replies.{TxResult}
use besu_interbank_demo.Demo.Scenario.{
  wait_all, Report, show_balances, onboard, authorize, post_amount, bank_b_cannot_mint, drive,
}
use besu_interbank_demo.Platform.Abi.{Address}
use besu_interbank_demo.Platform.Geth.{Geth}
use besu_interbank_demo.Platform.Json.{Body}
use besu_interbank_demo.Platform.Machine.{Machine}

module _ {G : Geth} (m : Machine G) where
  -- Some GET requests, one after the other.
  pub data Browsed (w : m.World) : m.World → Type 0 where
    stay : Browsed w w
    fetch : {v : m.World} → Browsed w v → (url : Bytes) → Browsed w (m.http (get_call m url) v).1

  show_balances-Browsed :
      (title out : Bytes) (v w : m.World) (s : Bytes × m.World) {b : Balances m}
      → Browsed v w
      → show_balances m title (out, w) ≡ (done b, s)
      → Browsed v s.1
  show_balances-Browsed title out v w s before h =
      subst (λ r. Browsed v r.1.1) h
        (show_balances-Keeps m (Browsed v) (λ url u seen. fetch seen url) title (out, w) before)

  waited-Browsed :
      (urls : List Bytes) (w w' : m.World) {u : Unit {0}}
      → wait_all m urls w ≡ (done u, w')
      → Browsed w w'
  waited-Browsed urls w w' h =
      subst (λ r. Browsed w r.1) h
        (wait_all-Keeps m (Browsed w) (λ url u seen. fetch seen url) urls w stay)

  fetched-Browsed :
      {A : Type 0} (url : Bytes) (decode : Body → Option A) (v w w' : m.World) {x : A}
      → Browsed v w
      → get_json m url decode w ≡ (done x, w')
      → Browsed v w'
  fetched-Browsed url decode v w w' before h =
      subst (λ r. Browsed v r.1) h
        (get_json-Keeps m (Browsed v) (λ url u seen. fetch seen url) url decode w before)

  onboard-eq-done :
      (who : Bytes) (account : Address) (out : Bytes) (w : m.World) (s : Bytes × m.World)
      {ts : List TxResult}
      → onboard m who account (out, w) ≡ (done ts, s)
      → authorize m account w ≡ (done ts, s.1)
  unfolding onboard
  onboard-eq-done who account out w s h =
      let (ts, v, ran, h1) = and_silently-eq-done (authorize m account) _ out w s h in
      let (same, world) =
        pure-eq-done ts _ s (and_say-eq-done _ _ _ v s (and_say-eq-done _ _ out v s h1)) in
      ran ∙ ap₂ (λ t u. (done t, u)) (sym same) (ap (λ p. p.1) world)

  -- The requests of a scenario from one world to another, with the report that it makes of the answers: reads,
  -- two authorizations and a mint, reads, a transfer, reads, and two checks.
  pub record Posted (r : Report m) (w w' : m.World) : Type 0 where
    pub at_bank : m.World
    pub at_shop : m.World
    pub at_mint : m.World
    pub minted : m.World
    pub at_transfer : m.World
    pub transferred : m.World
    pub at_check : m.World
    pub at_sign : m.World
    pub opening : Browsed w at_bank
    pub bank_posted : authorize m (bank_b m).address at_bank ≡ (done r.onboarded_bank, at_shop)
    pub shop_posted : authorize m (merchant m) at_shop ≡ (done r.onboarded_merchant, at_mint)
    pub mint_posted :
        post_amount m
          ((bank_a m).deposit_svc_url ++ utf8 "/mint")
          (bank_b m).address
          (utf8 "1000000")
          at_mint
        ≡ (done r.mint, minted)
    pub between : Browsed minted at_transfer
    pub transfer_posted :
        post_amount m
          ((bank_b m).deposit_svc_url ++ utf8 "/transfer")
          (merchant m)
          (utf8 "250000")
          at_transfer
        ≡ (done r.xfer, transferred)
    pub closing : Browsed transferred at_check
    pub mint_checked : bank_b_cannot_mint m at_check ≡ (done r.mint_refusal, at_sign)
    pub sign_checked : sign_with_wrong_key m at_sign ≡ (done r.key_status, w')

  -- A scenario that is done has made these requests, and no other.
  pub drive-Posted :
      (out : Bytes) (w : m.World) (s : Bytes × m.World) (r : Report m)
      → drive m (out, w) ≡ (done r, s)
      → Posted r w s.1
  unfolding drive
  drive-Posted out w s r h0 = through_silently _ _ out w s h0 λ _ w1 waited h1.
      through_silently _ _ out w1 s h1 λ header w2 fetched h2.
        through _ _ _ s (and_say-eq-done _ _ out w2 s h2) λ opening o3 w3 opened h3.
          through _ _ _ s (and_say-eq-done _ _ o3 w3 s h3) λ bank o4 w4 bank_added h4.
            through _ _ (o4, w4) s h4
              λ shop o5 w5 shop_added h5.
                through_silently _ _ _ w5 s (and_say-eq-done _ _ o5 w5 s h5)
                  λ minted w6 mint_done h6.
                    through _ _ _ s (and_say-eq-done _ _ _ w6 s h6) λ after_mint o7 w7 seen h7.
                      through_silently _ _ _ w7 s (and_say-eq-done _ _ o7 w7 s h7)
                        λ moved w8 transfer_done h8.
                          through _ _ _ s (and_say-eq-done _ _ _ w8 s h8)
                            λ after_transfer o9 w9 seen_again h9.
                              through_silently _ _ _ w9 s
                                (and_say-eq-done _ _ _ w9 s (and_say-eq-done _ _ o9 w9 s h9))
                                λ refusal w10 checked h10.
                                  through_silently _ _ _ w10 s (and_say-eq-done _ _ _ w10 s h10)
                                    λ status w11 signed h11.
                                      let (same, world) = pure-eq-done _ _ s (
                                        and_say-eq-done _ _ _ w11 s
                                          (and_say-eq-done _ _ _ w11 s h11)) in
                                      subst (λ p. Posted r w p.1) world
                                        (subst (λ q. Posted q w w11) (sym same)
                                          (record {
                                            at_bank = w3;
                                            at_shop = w4;
                                            at_mint = w5;
                                            minted = w6;
                                            at_transfer = w7;
                                            transferred = w8;
                                            at_check = w9;
                                            at_sign = w10;
                                            opening =
                                                show_balances-Browsed _ _ w w2 (o3, w3)
                                                  (fetched-Browsed _ _ w w1 w2
                                                    (waited-Browsed _ w w1 waited) fetched)
                                                  opened;
                                            bank_posted =
                                                onboard-eq-done _ _ _ w3 (o4, w4) bank_added;
                                            shop_posted =
                                                onboard-eq-done _ _ _ w4 (o5, w5) shop_added;
                                            mint_posted = mint_done;
                                            between =
                                                show_balances-Browsed _ _ w6 w6 (o7, w7) stay seen;
                                            transfer_posted = transfer_done;
                                            closing =
                                                show_balances-Browsed _ _ w8 w8 (o9, w9) stay
                                                  seen_again;
                                            mint_checked = checked;
                                            sign_checked = signed;
                                          }))
