-- ===== src/Webui/Blocks.antt =====
-- internal/webui/server.go: the list of the latest blocks.
use besu_interbank_demo.Base.{
  ℕ, zero, suc, ◌+◌, ◌-◌, ◌^◌, ◌≤◌, ◌<◌, ◌⊎◌, Bool, true, false, List, [], ◌∷◌, ◌++◌, append_assoc,
  append-nil, map, ◌≡◌, ◌∙◌, ap, sym, refl, Bytes, utf8, bytes_eq, length, length-append, arith,
  Bool-cases, inl, inr,
}
use mathlib.Core.Path.{subst}
use besu_interbank_demo.Base.Outcome.{ok, err, done, pure, Result-cases}
use besu_interbank_demo.Base.Runs.{try-call, bind-done, try-done, call-ok}
use besu_interbank_demo.Config.Deployment.{Deployment}
use besu_interbank_demo.Decimal.{atoi}
use besu_interbank_demo.Platform.Geth.{Geth}
use besu_interbank_demo.Platform.Http.{Request, query_get, write_json}
use besu_interbank_demo.Platform.Json.{slice}
use besu_interbank_demo.Platform.Machine.{Machine, Block}
use besu_interbank_demo.Webui.Shapes.{ExTx, ExBlock, ex_block_json}
use besu_interbank_demo.Webui.Explorer.{
  ex_tx, ex_block, in_range, block_count, not_past_genesis, decode_tx, decode_txs, after_block,
  blocks_loop, reply_blocks, handle_blocks,
}
use besu_interbank_demo.Base.Int.{ℤ, pos, negsuc}

in_range_bounds : (v : ℤ) (good : Bool) → (1 ≤ in_range (v, good)) × (in_range (v, good) ≤ 50)
in_range_bounds (pos v) true = (ground arith, ground arith)
in_range_bounds (pos v) false = (omega arith, omega arith)
in_range_bounds (negsuc v) true = (omega arith, omega arith)
in_range_bounds (negsuc v) false = (omega arith, omega arith)

-- Every query asks for at least one block and at most 50.
pub block_count_bounds : (q : Bytes) → (1 ≤ block_count q) × (block_count q ≤ 50)
unfolding block_count bytes_eq
block_count_bounds [] = (omega arith, omega arith)
block_count_bounds (c ∷ q) = in_range_bounds (atoi (c ∷ q)).0 (atoi (c ∷ q)).1

add_suc : (i n : ℕ) → i + 1 + n ≡ i + suc n
add_suc i n = omega arith

past_le : (head i : ℕ) → not_past_genesis head i ≡ true → i ≤ head
past_le head i h = ground arith

-- The blocks from the number `head - i` down, each with all its transactions.
abbrev pub CountsDown : ℕ → ℕ → List ExBlock → Type 0
CountsDown head i [] = Unit
CountsDown head i (b ∷ bs) =
    (b.number + i ≡ head) × (b.tx_count ≡ length b.txs) × CountsDown head (i + 1) bs

-- A number below 2 ^ 63 that is not counted down to is past the first block.
past_genesis : (head i : ℕ) → head < 2 ^ 63 → not_past_genesis head i ≡ false → head < i
past_genesis head i small h = ground arith

module _ {G : Geth} (m : Machine G) (dep : Deployment) where
  -- Why a list of `n` blocks from the number `head - i` down is not longer: it has as many as were asked
  -- for, it has reached block 0, or the node gave an error for the next block.
  abbrev pub Complete : ℕ → ℕ → ℕ → ℕ → Type 0
  Complete rounds i head n =
      (n ≡ rounds)
      ⊎ ((head < i + n)
          ⊎ ((v : m.World) × (e : Bytes) × ((m.block_by_number (head - (i + n)) v).0 ≡ err e)))

  Complete-suc :
      (rounds i head n : ℕ) → Complete rounds (i + 1) head n → Complete (suc rounds) i head (suc n)
  Complete-suc rounds i head n (inl all) = inl (ap suc all)
  Complete-suc rounds i head n (inr (inl low)) = inr (inl (omega (arith, low)))
  Complete-suc rounds i head n (inr (inr (v, e, bad))) =
      inr (inr (v, e, subst (λ k. (m.block_by_number (head - k) v).0 ≡ err e) (add_suc i n) bad))

  -- A node answers the request for a block by its number with that block.
  abbrev pub AnswersByNumber : Type 0
  AnswersByNumber =
      (n : ℕ) (w w' : m.World) (b : Block G) → m.block_by_number n w ≡ (ok b, w') → b.number ≡ n

  decode_txs_runs :
      (block : ℕ) (txs : List G.Transaction) (acc : List ExTx) (w : m.World)
      → (out : List ExTx) × (w' : m.World) × (decode_txs m dep block txs acc w ≡ (done out, w'))
        × (length out ≡ length acc + length txs)
  unfolding decode_txs decode_tx pure
  decode_txs_runs block [] acc w = (acc, w, refl, omega arith)
  decode_txs_runs block (tx ∷ txs) acc w =
      let answer = m.transaction_receipt (G.tx_hash tx) w in
      let t = ex_tx m dep block tx answer.0 in
      let (out, w', ran, len) = decode_txs_runs block txs (acc ++ t ∷ []) answer.1 in
      (
        out,
        w',
        bind-done _ _ w answer.1 (try-call _ _ w) ∙ ran,
        omega (arith, len, length-append acc (t ∷ [])),
      )

  abbrev Listed : ℕ → ℕ → ℕ → List ExBlock → m.World → Type 0
  Listed rounds i head acc w =
      (new : List ExBlock) × (w' : m.World) × (blocks_loop m dep rounds i head acc w
        ≡ (done (acc ++ new), w'))
      × (length new ≤ rounds)
      × Complete rounds i head (length new)
      × CountsDown head i new

  stopped :
      (rounds i head : ℕ) (acc : List ExBlock) (w w' : m.World)
      → blocks_loop m dep rounds i head acc w ≡ (done acc, w')
      → Complete rounds i head 0
      → Listed rounds i head acc w
  stopped rounds i head acc w w' e why =
      ([], w', e ∙ ap (λ t. (done t, w')) (sym (append-nil acc)), omega arith, why, tt)

  blocks_loop_runs :
      AnswersByNumber
      → (rounds i head : ℕ) (acc : List ExBlock) (w : m.World) → head < 2 ^ 63
      → Listed rounds i head acc w
  unfolding blocks_loop after_block ex_block pure
  blocks_loop_runs numbered zero i head acc w small = stopped zero i head acc w w refl (inl refl)
  blocks_loop_runs numbered (suc rounds) i head acc w small =
      elim (Bool-cases (not_past_genesis head i)) [
        | inl past ↦ elim (Result-cases (m.block_by_number (head - i) w).0) [
          | inl (blk, good) ↦
              let v = (m.block_by_number (head - i) w).1 in
              let (txs, v1, decoded, len) = decode_txs_runs blk.number blk.transactions [] v in
              let b = ex_block m dep blk txs in
              let (new, w', ran, short, why, down) =
                blocks_loop_runs numbered rounds (i + 1) head (acc ++ b ∷ []) v1 small in
              (
                b ∷ new,
                w',
                rw (past, blocks_loop)
                    (try-call _ _ w
                      ∙ rw (good, after_block)
                          (bind-done _ _ v v1 decoded
                            ∙ ran
                            ∙ ap (λ t. (done t, w')) (append_assoc acc (b ∷ []) new))),
                omega (arith, short),
                Complete-suc rounds i head (length new) why,
                (
                  omega (
                    arith,
                    past_le head i past,
                    numbered (head - i) w v blk (ap (λ r. (r, v)) good),
                  ),
                  omega (arith, len),
                  down,
                ),
              )
          | inr (x, bad) ↦
              stopped (suc rounds) i head acc w (m.block_by_number (head - i) w).1
                (rw (past, blocks_loop) (try-call _ _ w ∙ rw (bad, after_block) refl))
                (inr (
                  inr (
                    w,
                    x,
                    subst (λ k. (m.block_by_number (head - k) w).0 ≡ err x) (omega arith) bad,
                  )))
        ]
        | inr stop ↦
            stopped (suc rounds) i head acc w w (rw (stop, blocks_loop) refl)
              (inr (inl (omega (arith, past_genesis head i small stop))))
      ]

  -- Where the node's head is `head`, below 2 ^ 63, and it answers a request by number with that block,
  -- GET /api/blocks is answered with 200 and a list of at most 50 blocks, and of no more than the query's
  -- count: the head first and then the block of each number below, every one with as many transactions as
  -- it says. The list has as many blocks as the query's count, or goes down to block 0, or the node gives
  -- an error for the block after its last one.
  pub handle_blocks_lem :
      AnswersByNumber
      → (r : Request) (w w1 : m.World) {head : ℕ} → head < 2 ^ 63
      → m.block_number w ≡ (ok head, w1)
      → (out : List ExBlock) × (w' : m.World) × (handle_blocks m dep r w
          ≡ (done (write_json 200 (slice (map ex_block_json out))), w'))
        × (length out ≤ block_count (query_get (utf8 "n") r.query))
        × (length out ≤ 50)
        × Complete (block_count (query_get (utf8 "n") r.query)) 0 head (length out)
        × CountsDown head 0 out
  unfolding handle_blocks reply_blocks pure
  handle_blocks_lem numbered r w w1 {head} small at_head =
      let n = block_count (query_get (utf8 "n") r.query) in
      let (out, w', ran, short, why, down) = blocks_loop_runs numbered n 0 head [] w1 small in
      (
        out,
        w',
        try-done _ _ w w1 (call-ok _ w w1 at_head) ∙ bind-done _ _ w1 w' ran,
        short,
        omega (arith, short, block_count_bounds (query_get (utf8 "n") r.query)),
        why,
        down,
      )
