-- ===== src/Demo/Trades.antt =====
-- internal/demo with internal/depositsvc: what a whole scenario makes the services do.
use besu_interbank_demo.Base.{List, ◌++◌, map, some, ◌≡◌, ◌∙◌, sym, refl, Bytes, utf8}
use besu_interbank_demo.Base.Int.{ℤ, pos, mul_ℕ}
use besu_interbank_demo.Base.Outcome.{done}
use besu_interbank_demo.Config.{bank_a, bank_b, merchant}
use besu_interbank_demo.Decimal.{int_string, set_string}
use besu_interbank_demo.Demo.Client.{post_call, account_body, to_amount_body, post_json}
use besu_interbank_demo.Demo.Decoding.{kept}
use besu_interbank_demo.Demo.Posts.{
  Reaches, mint_body-Replied, transfer_body-Replied, account_body-Replied,
}
use besu_interbank_demo.Demo.Replies.{decode_tx_result}
use besu_interbank_demo.Demo.Scenario.{Report, authorize, post_amount, drive}
use besu_interbank_demo.DepositSvc.Service as Service
use besu_interbank_demo.DepositSvc.Service.{Service}
use besu_interbank_demo.DepositSvc.Writes as Writes
use besu_interbank_demo.Platform.Abi.{Address}
use besu_interbank_demo.Platform.Geth.{Geth}
use besu_interbank_demo.Platform.Machine.{Machine}
use besu_interbank_demo.Wfusd.{wfusd}
use besu_interbank_demo.Demo.Steps.{Posted, drive-Posted}

module _ {G : Geth} (m : Machine G) where
  post_amount-eq :
      (url : Bytes) (to : Address) (whole : Bytes) (amount : ℤ) (w : m.World)
      → wfusd whole ≡ some (int_string amount)
      → post_amount m url to whole w
        ≡ post_json m url (to_amount_body (G.address_hex to) (int_string amount)) decode_tx_result w
  unfolding post_amount
  post_amount-eq url to whole amount w e = rw (e, post_amount) refl

  abbrev bank_text : Bytes
  bank_text = G.address_hex (bank_b m).address

  abbrev shop_text : Bytes
  shop_text = G.address_hex (merchant m)

  -- The amounts in base units: a million tokens, and a quarter of that.
  abbrev million : ℤ
  million = pos 1_000_000_000_000

  abbrev quarter : ℤ
  quarter = pos 250_000_000_000

  -- The four writes of the scenario reach the services of the two banks.
  pub record WritesReach (a b : Service) : Type 0 where
    pub authorizing_bank :
        Reaches m a
          (utf8 "/authorize")
          (post_call m ((bank_a m).deposit_svc_url ++ utf8 "/authorize") (account_body bank_text))
    pub authorizing_shop :
        Reaches m a
          (utf8 "/authorize")
          (post_call m ((bank_a m).deposit_svc_url ++ utf8 "/authorize") (account_body shop_text))
    pub minting : Reaches m a (utf8 "/mint") (
        post_call m
          ((bank_a m).deposit_svc_url ++ utf8 "/mint")
          (to_amount_body bank_text (int_string million)))
    pub transferring : Reaches m b (utf8 "/transfer") (
        post_call m
          ((bank_b m).deposit_svc_url ++ utf8 "/transfer")
          (to_amount_body shop_text (int_string quarter)))

  -- A scenario from one world to another, whose authorizations and mint of a million tokens for bank B were done
  -- by service `a`, and whose transfer of a quarter of them to the merchant was done by service `b`. The report
  -- holds what the services returned.
  pub record Traded (a b : Service) (r : Report m) (w w' : m.World) : Type 0 where
    pub posted : Posted m r w w'
    pub bank_results : List Service.TxResult
    pub shop_results : List Service.TxResult
    pub mint_result : Service.TxResult
    pub transfer_result : Service.TxResult
    pub bank_added :
        Writes.authorize m a (G.hex_to_address bank_text) posted.at_bank
        ≡ (done bank_results, posted.at_shop)
    pub shop_added :
        Writes.authorize m a (G.hex_to_address shop_text) posted.at_shop
        ≡ (done shop_results, posted.at_mint)
    pub mint_done :
        Writes.mint m a (G.hex_to_address bank_text) million posted.at_mint
        ≡ (done mint_result, posted.minted)
    pub transfer_done :
        Writes.transfer m b (G.hex_to_address shop_text) quarter posted.at_transfer
        ≡ (done transfer_result, posted.transferred)
    pub bank_reported : r.onboarded_bank ≡ map kept bank_results
    pub shop_reported : r.onboarded_merchant ≡ map kept shop_results
    pub mint_reported : r.mint ≡ kept mint_result
    pub transfer_reported : r.xfer ≡ kept transfer_result

  million_text : wfusd (utf8 "1000000") ≡ some (int_string million)
  unfolding wfusd int_string set_string mul_ℕ
  million_text = refl

  quarter_text : wfusd (utf8 "250000") ≡ some (int_string quarter)
  unfolding wfusd int_string set_string mul_ℕ
  quarter_text = refl

  -- Where the four writes of the demo reach the services `a` and `b`, a scenario that is done has read, has
  -- authorized bank B's wallet and the merchant and minted a million tokens to bank B's wallet at service `a`,
  -- has read, has transferred a quarter of them to the merchant at service `b`, has read, and has made its two
  -- checks, in this order and with no other request; each write was done by the service, and the report holds
  -- its result.
  pub drive-Traded :
      (a b : Service)
      → WritesReach a b
      → (out : Bytes) (w : m.World) (s : Bytes × m.World) (r : Report m)
      → drive m (out, w) ≡ (done r, s)
      → Traded a b r w s.1
  unfolding authorize
  drive-Traded a b reach out w s r h =
      let p = drive-Posted m out w s r h in
      let (bank_results, bank_added, bank_same) =
        account_body-Replied m a _ bank_text reach.authorizing_bank p.at_bank p.at_shop _
          p.bank_posted in
      let (shop_results, shop_added, shop_same) =
        account_body-Replied m a _ shop_text reach.authorizing_shop p.at_shop p.at_mint _
          p.shop_posted in
      let (mint_result, mint_done, mint_same) =
        mint_body-Replied m a _ bank_text million reach.minting p.at_mint p.minted _
          (sym (post_amount-eq _ _ _ million p.at_mint million_text) ∙ p.mint_posted) in
      let (transfer_result, transfer_done, transfer_same) =
        transfer_body-Replied m b _ shop_text quarter reach.transferring p.at_transfer p.transferred
          _ (sym (post_amount-eq _ _ _ quarter p.at_transfer quarter_text) ∙ p.transfer_posted) in
      record {
        posted = p;
        bank_results = bank_results;
        shop_results = shop_results;
        mint_result = mint_result;
        transfer_result = transfer_result;
        bank_added = bank_added;
        shop_added = shop_added;
        mint_done = mint_done;
        transfer_done = transfer_done;
        bank_reported = bank_same;
        shop_reported = shop_same;
        mint_reported = mint_same;
        transfer_reported = transfer_same;
      }
