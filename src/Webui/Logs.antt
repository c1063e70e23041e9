-- ===== src/Webui/Logs.antt =====
-- internal/webui/server.go: the values of a log's event.
use besu_interbank_demo.Base.{
  ℕ, suc, true, false, List, [], ◌∷◌, ◌≡◌, ap, refl, length, arith, Bool-cases, inl, inr,
  if◌then◌else◌,
}
use besu_interbank_demo.Platform.Abi.{Argument, Hash, Value}
use besu_interbank_demo.Platform.Geth.{Geth}
use besu_interbank_demo.Webui.Decode.{event_values, non_indexed, topic_value}

-- The values at the arguments that are not indexed, and those at the arguments that are.
abbrev pub at_data : List Argument → List Value → List Value
at_data [] vals = []
at_data (a ∷ args) [] = []
at_data (a ∷ args) (v ∷ vals) = let rest = at_data args vals in if a.indexed then rest else v ∷ rest

abbrev pub at_topics : List Argument → List Value → List Value
at_topics [] vals = []
at_topics (a ∷ args) [] = []
at_topics (a ∷ args) (v ∷ vals) =
    let rest = at_topics args vals in if a.indexed then v ∷ rest else rest

-- What the topics of the indexed arguments say, in order.
abbrev pub topic_values : Geth → List Argument → List Hash → List Value
topic_values G [] topics = []
topic_values G (a ∷ args) [] = topic_values G args []
topic_values G (a ∷ args) (t ∷ ts) =
    let rest = topic_values G args ts in
    let skip = topic_values G args (t ∷ ts) in
    if a.indexed then topic_value G a.type t ∷ rest else skip

abbrev pub indexed_count : List Argument → ℕ
indexed_count [] = 0
indexed_count (a ∷ args) = let rest = indexed_count args in if a.indexed then suc rest else rest

-- Where a log has a topic for each indexed argument of its event, and its data a value for each other
-- one, every argument gets one value, the data's values stand at the arguments that are not indexed, and
-- the topics' values at those that are, each in order.
pub event_values-merged :
    (G : Geth) (args : List Argument) (topics : List Hash) (vals : List Value)
    → length topics ≡ indexed_count args
    → length vals ≡ length (non_indexed args)
    → (length (event_values G args topics vals) ≡ length args)
      × (at_data args (event_values G args topics vals) ≡ vals)
      × (at_topics args (event_values G args topics vals) ≡ topic_values G args topics)
unfolding event_values non_indexed
event_values-merged G [] [] [] h k = (refl, refl, refl)
event_values-merged G [] (t ∷ ts) vals h k = absurd (omega (arith, h))
event_values-merged G [] [] (v ∷ vs) h k = absurd (omega (arith, k))
event_values-merged G (a ∷ args) topics vals h k = elim (Bool-cases a.indexed) [
  | inl ix ↦ indexed_step (event_values-merged G args) topics vals ix h k
  | inr ix ↦ data_step (event_values-merged G args) topics vals ix h k
]
  where
    Rest : List Hash → List Value → Type 0
    Rest ts vs =
        length ts ≡ indexed_count args
        → length vs ≡ length (non_indexed args)
        → (length (event_values G args ts vs) ≡ length args)
          × (at_data args (event_values G args ts vs) ≡ vs)
          × (at_topics args (event_values G args ts vs) ≡ topic_values G args ts)

    Goal : List Hash → List Value → Type 0
    Goal topics vals =
        (length (event_values G (a ∷ args) topics vals) ≡ length (a ∷ args))
        × (at_data (a ∷ args) (event_values G (a ∷ args) topics vals) ≡ vals)
        × (at_topics (a ∷ args) (event_values G (a ∷ args) topics vals)
            ≡ topic_values G (a ∷ args) topics)

    indexed_step :
        ((ts : List Hash) (vs : List Value) → Rest ts vs)
        → (topics : List Hash) (vals : List Value) → a.indexed ≡ true
        → length topics ≡ indexed_count (a ∷ args)
        → length vals ≡ length (non_indexed (a ∷ args))
        → Goal topics vals
    indexed_step rest [] vals ix h k = absurd (ground arith)
    indexed_step rest (t ∷ ts) vals ix h k =
        let (l, d, i) = rest ts vals (ground arith) (ground arith) in
        (rw ix (ap suc l), rw (ix) d, rw ix (ap (λ r. topic_value G a.type t ∷ r) i))

    data_step :
        ((ts : List Hash) (vs : List Value) → Rest ts vs)
        → (topics : List Hash) (vals : List Value) → a.indexed ≡ false
        → length topics ≡ indexed_count (a ∷ args)
        → length vals ≡ length (non_indexed (a ∷ args))
        → Goal topics vals
    data_step rest topics [] ix h k = absurd (ground arith)
    data_step rest [] (v ∷ vs) ix h k =
        let (l, d, i) = rest [] vs (ground arith) (ground arith) in
        (rw ix (ap suc l), rw ix (ap (λ r. v ∷ r) d), rw ix i)
    data_step rest (t ∷ ts) (v ∷ vs) ix h k =
        let (l, d, i) = rest (t ∷ ts) vs (ground arith) (ground arith) in
        (rw ix (ap suc l), rw ix (ap (λ r. v ∷ r) d), rw ix i)
