-- ===== src/Listener/Quiet.antt =====
-- Which blocks a run has got from the node, and the work on one block, which gets none: the
-- collectors and the publisher.
use chain_ops.Common.{
  ◌≡◌, refl, ◌∙◌, inl, inr, List, [], ◌∷◌, ◌++◌, if◌then◌else◌, Bool-cases, Option-cases, All, take,
}
use chain_ops.Common.Int.{ℤ}
use chain_ops.Schema.{ActivityEvent}
use chain_ops.Chain.{Address, Hash, Tx, Log, Block}
use chain_ops.World.{
  Result, ok, err, Client, Node, FilterQuery, NatsMsg, get_block, get_logs, Trace, Outcome, done, M,
  pure, bind_done, ◌>>=◌,
}
use chain_ops.Publisher.{publish}
use chain_ops.Publisher.Delivery.{push, all_wires, publish_delivers}
use chain_ops.Txn.{collect_txn_events}
use chain_ops.Txn.Expected.{HasSelector, senders, fetches}
use chain_ops.Txn.Collect.{Priced, all_fetches, collect_txn_events_lem}
use chain_ops.Usdc.{collect_usdc_events, transfer_query}
use chain_ops.Usdc.Receipts.{HasTopics, asked}
use chain_ops.Usdc.Events.{Answers, collect_usdc_events_lem, collect_usdc_events_disabled}
use chain_ops.Listener.{
  EvmListener, Env, block_events, block_message, publish_events, process_block,
}

-- The numbers of the blocks that the node has handed out, the latest first.
abbrev pub fetched : Node → Trace → List ℤ
fetched n [] = []
fetched n (a ∷ t) = elim a [
  | get_block c b ↦ elim (n.block_by_number t c b) [ ok _ ↦ b ∷ fetched n t | err _ ↦ fetched n t ]
  | _ ↦ fetched n t
]

-- The conditions under which the collectors do not panic, for every provider of the node: receipts
-- have a price, call data that is not empty has a selector, and logs have their topics.
abbrev pub IsOrderly : Env → EvmListener → Type 0
IsOrderly env el =
    ((client : Client) → Priced env.eth el.eth_asset env.node client)
    × ((t : Trace) (client : Client) (b : ℤ) (block : Block)
        → env.node.block_by_number t client b ≡ ok block
        → All HasSelector block.transactions)
    × ((t : Trace) (client : Client) (q : FilterQuery) (logs : List Log)
        → env.node.filter_logs t client q ≡ ok logs
        → All (HasTopics env.eth) logs)

module _ (n : Node) where
  -- The step returns, and gets no block.
  abbrev pub Finishes : {A : Type 0} → M A → Trace → Type 0
  Finishes {A} m t = (a : A) × (t' : Trace) × (m t ≡ (done a, t')) × (fetched n t' ≡ fetched n t)

  pub bind-Finishes :
      {A B : Type 0} (m : M A) (f : A → M B) (t : Trace)
      → Finishes m t
      → ((a : A) (t' : Trace) → Finishes (f a) t')
      → Finishes (m >>= f) t
  bind-Finishes m f t (a, t', run, same) rest =
      let (b, t2, run2, same2) = rest a t' in (b, t2, bind_done m f t run ∙ run2, same2 ∙ same)

  fetched-push : (ms : List NatsMsg) (t : Trace) → fetched n (push ms t) ≡ fetched n t
  fetched-push [] t = refl
  fetched-push (m ∷ ms) t = fetched-push ms _

  fetched-asked :
      (client : Client) (hs : List Hash) (t : Trace) → fetched n (asked client hs t) ≡ fetched n t
  fetched-asked client [] t = refl
  fetched-asked client (h ∷ hs) t = fetched-asked client hs _

  fetched-fetches :
      (client : Client) (h : Hash) (l : List Address) (t : Trace)
      → fetched n (fetches client h l t) ≡ fetched n t
  fetched-fetches client h [] t = refl
  fetched-fetches client h (_ ∷ l) t = fetched-fetches client h l _

module _ (env : Env) (el : EvmListener) where
  fetched-all_fetches :
      (client : Client) (addresses : List Address) (txs : List Tx) (t : Trace)
      → fetched env.node
          (all_fetches env.eth el.eth_asset env.node client el.known_contracts addresses txs t)
        ≡ fetched env.node t
  fetched-all_fetches client addresses [] t = refl
  fetched-all_fetches client addresses (tx ∷ txs) t =
      fetched-all_fetches client addresses txs _
      ∙ fetched-fetches env.node client tx.hash (senders env.eth el.known_contracts tx addresses) t

  usdc_answer-Finishes :
      IsOrderly env el
      → (client : Client) (addresses : List Address) (block : Block) (t : Trace)
        (answer : Result (List Log)) (run : Outcome (List ActivityEvent) × Trace)
      → env.node.filter_logs t client (transfer_query env.eth el.usdc block) ≡ answer
      → Answers env.eth el.usdc env.node client block addresses t answer run
      → (es : List ActivityEvent) × (t' : Trace) × (run ≡ (done es, t'))
        × (fetched env.node t' ≡ fetched env.node t)
  usdc_answer-Finishes _ client addresses block t (err e) run failed same =
      ([], get_logs client (transfer_query env.eth el.usdc block) ∷ t, same, refl)
  usdc_answer-Finishes (_, _, topics) client addresses block t (ok logs) run answered answers =
      let (hs, m, same, _, _, _, _, _) = answers (topics t client _ logs answered) in
      (
        _,
        _,
        same,
        fetched-asked env.node client hs
            (get_logs client (transfer_query env.eth el.usdc block) ∷ t),
      )

  usdc-Finishes :
      IsOrderly env el
      → (client : Client) (a : Address) (rest : List Address) (block : Block) (t : Trace)
      → Finishes env.node (collect_usdc_events env.eth el.usdc env.node client block (a ∷ rest)) t
  usdc-Finishes orderly client a rest block t = elim (Option-cases el.usdc.asset) [
    | inl off ↦ (
      [],
      t,
      collect_usdc_events_disabled env.eth el.usdc env.node client block (a ∷ rest) t (inl off),
      refl,
    )
    | inr (asset, on) ↦ usdc_answer-Finishes orderly client (a ∷ rest) block t _ _ refl (
        collect_usdc_events_lem env.eth el.usdc env.node client block (a ∷ rest) t (λ off. cc)
          (λ empty. cc))
  ]

  block_events-Finishes :
      IsOrderly env el
      → (client : Client) (a : Address) (rest : List Address) (block : Block) (t : Trace)
      → All HasSelector block.transactions
      → Finishes env.node (block_events env el client (a ∷ rest) block) t
  unfolding block_events
  block_events-Finishes orderly client a rest block t selectors =
      bind-Finishes env.node
        (collect_txn_events env.eth el.eth_asset env.node client el.known_contracts block
          (a ∷ rest))
        _ t
        (
          _,
          _,
          collect_txn_events_lem env.eth el.eth_asset env.node client el.known_contracts block
              (a ∷ rest) t (orderly.0 client) selectors,
          fetched-all_fetches client (a ∷ rest) block.transactions t,
        )
        (λ txn t.
          bind-Finishes env.node usdc_step (λ usdc. pure (txn ++ usdc)) t (usdc_step-Finishes t)
            (λ usdc t. (txn ++ usdc, t, refl, refl)))
    where
      usdc_step : M (List ActivityEvent)
      usdc_step =
          if el.usdc_listen
          then collect_usdc_events env.eth el.usdc env.node client block (a ∷ rest)
          else pure []

      usdc_step-Finishes : (t : Trace) → Finishes env.node usdc_step t
      usdc_step-Finishes t = elim (Bool-cases el.usdc_listen) [
        | inl on ↦ rw on (usdc-Finishes orderly client a rest block t)
        | inr off ↦ rw off ([], t, refl, refl)
      ]

  publish_events-Finishes :
      (block : Block) (es : List ActivityEvent) (t : Trace)
      → Finishes env.node (publish_events env el block es) t
  unfolding publish_events block_message
  publish_events-Finishes block [] t = (tt, t, refl, refl)
  publish_events-Finishes block (e ∷ es) t = elim (Option-cases el.publisher) [
    | inl off ↦ (tt, t, rw off, refl)
    | inr (p, on) ↦
        let msg = block_message env el block (e ∷ es) in
        let (k, r, run, _, _) = publish_delivers env.broker p msg t in
        (
          tt,
          push (take k (all_wires env.broker p msg)) t,
          rw on (bind_done (publish env.broker p msg) (λ _. pure tt) t run),
          fetched-push env.node (take k (all_wires env.broker p msg)) t,
        )
  ]

  -- The work on a block returns and gets no other block.
  pub process_block-Finishes :
      IsOrderly env el
      → (client : Client) (a : Address) (rest : List Address) (block : Block) (t : Trace)
      → All HasSelector block.transactions
      → Finishes env.node (process_block env el client (a ∷ rest) block) t
  unfolding process_block
  process_block-Finishes orderly client a rest block t selectors =
      bind-Finishes env.node (block_events env el client (a ∷ rest) block)
        (publish_events env el block) t
        (block_events-Finishes orderly client a rest block t selectors)
        (publish_events-Finishes block)
