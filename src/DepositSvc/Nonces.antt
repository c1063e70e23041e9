-- ===== src/DepositSvc/Nonces.antt =====
-- internal/depositsvc/service.go: the nonces of the transactions that a service broadcasts.
use besu_interbank_demo.Base.{
  some, ℕ, suc, ◌+◌, true, List, [], ◌∷◌, ◌≡◌, ◌∙◌, ap, sym, refl, Bytes, elem, length, arith,
}
use mathlib.Core.Path.{ap₂}
use besu_interbank_demo.Base.Outcome.{ok, done, pure}
use besu_interbank_demo.Base.Runs.{try-call}
use besu_interbank_demo.Config.{Bank, chain_id}
use besu_interbank_demo.DepositSvc.Broadcast.{IsBroadcast}
use besu_interbank_demo.DepositSvc.Effects.{Added, authorize_iff}
use besu_interbank_demo.DepositSvc.Sender.{SigningLaws, IsBroadcast-sender}
use besu_interbank_demo.DepositSvc.Sends.{ReadsKeep}
use besu_interbank_demo.DepositSvc.Service.{Service, TxResult}
use besu_interbank_demo.DepositSvc.Signing.{IsWired}
use besu_interbank_demo.DepositSvc.Writes.{build_tx, estimated_gas, authorize, authorize_steps}
use besu_interbank_demo.Platform.Abi.{Address}
use besu_interbank_demo.Platform.Geth.{Geth, DynamicFeeTx}
use besu_interbank_demo.Platform.Machine.{Machine}
use besu_interbank_demo.SignRouter.Keystore.{Key, load_key}
use besu_interbank_demo.SignRouter.Server.{Server, new}

module _ {G : Geth} (m : Machine G) where
  -- What an Ethereum node documents of an account's pending nonce: it is the nonce of the account's next
  -- transaction, `count`, reads do not change it, and a transaction that has it and is accepted uses it
  -- up (nothing waits in the pool with a later nonce, as the service alone sends from its account). A
  -- transaction that is assembled with its signature keeps its nonce.
  pub record NonceLaws (bank : Bank) (count : m.World → ℕ) : Type 0 where
    pub read :
        (w w' : m.World) (n : ℕ) → m.pending_nonce_at bank.address w ≡ (ok n, w') → n ≡ count w
    pub reads : (c : ℕ) → ReadsKeep m (λ w. count w ≡ c) bank
    pub numbered :
        (c : ℕ) (fields : DynamicFeeTx) (sig : Bytes) (tx : G.Transaction)
        → G.with_signature c (G.new_tx fields) sig ≡ ok tx
        → G.tx_nonce tx ≡ fields.nonce
    pub sent :
        (tx : G.Transaction) (w w' : m.World)
        → G.sender chain_id tx ≡ ok bank.address
        → G.tx_nonce tx ≡ count w
        → m.send_transaction tx w ≡ (ok tt, w')
        → count w' ≡ suc (count w)

  estimated_gas-world :
      (from to : Address) (payload : Bytes) (w : m.World)
      → (estimated_gas m from to payload w).1
        ≡ (m.estimate_gas (record { from = some from; to = to; payload = payload }) w).1
  unfolding estimated_gas pure
  estimated_gas-world from to payload w = ap (λ p. p.1) (try-call _ _ w)

-- The numbers from `c` on, one for each step.
abbrev from : ℕ → List (ℕ × Bytes) → List ℕ
from c [] = []
from c (step ∷ steps) = c ∷ from (suc c) steps

module _ {G : Geth} (m : Machine G) (s : Service) where
  -- The nonces of the broadcasts of an authorization, in order.
  abbrev pub nonces :
      (account : Address) (steps : List (ℕ × Bytes)) (w w' : m.World) (rs : List TxResult)
      → Added m s account steps w w' rs
      → List ℕ
  nonces account [] w w' rs added = []
  nonces account ((policy_id, tag) ∷ steps) w w' rs (payload, res, rest, v, same, e, g, more) =
      g.nonce ∷ nonces account steps v w' rest more

module _ {G : Geth} (m : Machine G) (s : Service) (count : m.World → ℕ)
    (laws : NonceLaws m s.bank count) where
  -- A broadcast has the next nonce, and uses it up.
  IsBroadcast-nonce :
      (op : Bytes) (to : Address) (payload : Bytes) (w w' : m.World) {res : TxResult}
      (g : IsBroadcast m s op to payload w w' res)
      → G.sender chain_id g.sending.signed_tx ≡ ok s.bank.address
      → g.sending.at_send ≡ g.at_sign
      → (g.nonce ≡ count w) × (count w' ≡ suc (count w))
  unfolding build_tx
  IsBroadcast-nonce op to payload w w' g own unmoved =
      let first : g.nonce ≡ count w = laws.read w g.at_head g.nonce g.read_nonce in
      let at_head : count g.at_head ≡ count w =
        ap (λ p. count p.1) (sym g.read_nonce)
        ∙ (laws.reads (count w)).nonce s.bank.address w refl in
      let at_gas : count g.at_gas ≡ count w =
        ap (λ p. count p.1) (sym g.read_head) ∙ (laws.reads (count w)).base_fee g.at_head at_head in
      let at_sign : count g.at_sign ≡ count w =
        ap (λ p. count p.1) (sym g.read_gas)
        ∙ ap count (estimated_gas-world m s.bank.address to payload g.at_gas)
        ∙ (laws.reads (count w)).gas _ g.at_gas at_gas in
      let at_mine : count g.sending.at_mine ≡ suc (count w) =
        laws.sent g.sending.signed_tx g.sending.at_send g.sending.at_mine own
          (laws.numbered _ _ g.sending.reply.0 g.sending.signed_tx g.sending.assembled
            ∙ first
            ∙ sym (ap count unmoved ∙ at_sign))
          g.sending.sent
        ∙ ap (λ v. suc (count v)) unmoved
        ∙ ap suc at_sign in
      let at_end : count w' ≡ suc (count w) =
        ap (λ p. count p.1) (sym g.sending.mined)
        ∙ (laws.reads (suc (count w))).mined g.sending.signed_tx g.sending.at_mine at_mine in
      (first, at_end)

  module _ (signing : SigningLaws G) (label : Bytes) (ids : List Bytes) {router : Server G}
      (made : new G label ids ≡ ok router) (wired : IsWired m s router)
      (listed : elem s.bank.key_id ids ≡ true)
      (own : (k : Key G) → load_key G s.bank.key_id ≡ ok k → k.address ≡ s.bank.address) where
    Added-nonces :
        (account : Address) (steps : List (ℕ × Bytes)) (w w' : m.World) (rs : List TxResult)
        (added : Added m s account steps w w' rs)
        → (nonces m s account steps w w' rs added ≡ from (count w) steps)
          × (count w' ≡ count w + length steps)
    Added-nonces account [] w w' rs (_, world) = (refl, ground (arith, ap count world))
    Added-nonces account ((policy_id, tag) ∷ steps) w w' rs
          (payload, res, rest, v, same, e, g, more) =
        let (k, of_id, sender, _, unmoved) =
          IsBroadcast-sender m s signing label ids {router = router} made wired listed _ _ payload w
            v g in
        let (first, next) =
          IsBroadcast-nonce _ _ payload w v g (sender ∙ ap ok (own k of_id)) unmoved in
        let (others, last) = Added-nonces account steps v w' rest more in
        (
          ap₂ (λ n ns. n ∷ ns) first (others ∙ ap (λ c. from c steps) next),
          omega (arith, last, next),
        )

    -- An authorization that returned its results has broadcast two transactions, with the account's next two
    -- nonces in order, and used these up. The service's router URL reaches a router that was provisioned with
    -- its KeyID, the key of that KeyID has the bank's address, signing and pending nonces are as documented.
    pub authorize-nonces :
        (account : Address) (w w' : m.World) (rs : List TxResult)
        → authorize m s account w ≡ (done rs, w')
        → (added : Added m s account (authorize_steps m s) w w' rs) × (nonces m s account
              (authorize_steps m s)
              w
              w'
              rs
              added
            ≡ count w ∷ suc (count w) ∷ [])
          × (count w' ≡ count w + 2)
    unfolding authorize_steps
    authorize-nonces account w w' rs ran =
        let (_, added) = (authorize_iff m s account w w' rs).0 ran in
        let (ns, total) = Added-nonces account (authorize_steps m s) w w' rs added in
        (added, ns, total)
