-- ===== src/Listener/Delivered.antt =====
-- A block from the collectors to a consumer of its messages.
use chain_ops.Common.{
  ◌≡◌, refl, ap, ◌∙◌, inl, inr, List, [], ◌∷◌, ◌++◌, Option, none, some, true, false, All,
  Bool-cases, Option-cases, if◌then◌else◌,
}
use chain_ops.Common.Int.{ℤ}
use chain_ops.Common.Text.{Text}
use chain_ops.Schema.{ActivityEvent, BlockActivityMessage}
use chain_ops.Chain.{Address, Hash, Log, Block, word64}
use chain_ops.Wire.{Json}
use chain_ops.World.{
  Error, Result, ok, err, Client, NatsMsg, get_logs, Trace, Outcome, done, M, pure, bind_done,
  ◌>>=◌,
}
use chain_ops.Publisher.{batch_size, Publisher, chunk, publish}
use chain_ops.Publisher.Chunk.{all_events}
use chain_ops.Publisher.Delivery.{push}
use chain_ops.Publisher.Accepted.{publish_acknowledged}
use chain_ops.Publisher.Consumer.{SameBlock, Reads, receive_all, publish_received}
use chain_ops.Txn.{collect_txn_events}
use chain_ops.Txn.Expected.{HasSelector, expect_txs}
use chain_ops.Txn.Collect.{all_fetches, collect_txn_events_lem}
use chain_ops.Usdc.{Receipts, transfer_query, collect_usdc_events}
use chain_ops.Usdc.Receipts.{Holds}
use chain_ops.Usdc.Events.{
  Answers, expect_logs, collect_usdc_events_lem, collect_usdc_events_disabled,
}
use chain_ops.Listener.{
  EvmListener, Env, block_events, block_message, publish_events, process_block,
}
use chain_ops.Listener.Quiet.{IsOrderly}

-- The events of a block's USDC logs, where the logs are asked for behind the trace t. The receipts
-- for the gas are the node's answers.
pub data FromLogs (env : Env) (el : EvmListener) (client : Client) (addresses : List Address)
    (block : Block) (t : Trace) : List ActivityEvent → Type 0 where
  off : el.usdc_listen ≡ false → FromLogs env el client addresses block t []
  no_asset : el.usdc.asset ≡ none → FromLogs env el client addresses block t []
  unanswered :
      (e : Error)
      → env.node.filter_logs t client (transfer_query env.eth el.usdc block) ≡ err e
      → FromLogs env el client addresses block t []
  answered :
      (logs : List Log) (hs : List Hash) (m : Receipts)
      → env.node.filter_logs t client (transfer_query env.eth el.usdc block) ≡ ok logs
      → Holds env.eth el.usdc env.node client addresses m hs
          (get_logs client (transfer_query env.eth el.usdc block) ∷ t)
      → FromLogs env el client addresses block t (expect_logs env.eth el.usdc addresses m logs)

-- The trace behind the receipts of the block's transactions.
abbrev pub behind_receipts : Env → EvmListener → Client → List Address → Block → Trace → Trace
behind_receipts env el client addresses block t =
    all_fetches env.eth el.eth_asset env.node client el.known_contracts addresses block.transactions
      t

module _ (env : Env) (el : EvmListener) (orderly : IsOrderly env el) (client : Client) (a : Address)
    (rest : List Address) (block : Block) where
  abbrev usdc_step : M (List ActivityEvent)
  usdc_step =
      if el.usdc_listen
      then collect_usdc_events env.eth el.usdc env.node client block (a ∷ rest)
      else pure []

  -- A step that returns the events of the logs.
  abbrev Collects : Trace → Outcome (List ActivityEvent) × Trace → Type 0
  Collects t run =
      (es : List ActivityEvent) × (t' : Trace) × (run ≡ (done es, t'))
      × FromLogs env el client (a ∷ rest) block t es

  answer-Collects :
      (t : Trace) (answer : Result (List Log)) (run : Outcome (List ActivityEvent) × Trace)
      → env.node.filter_logs t client (transfer_query env.eth el.usdc block) ≡ answer
      → Answers env.eth el.usdc env.node client block (a ∷ rest) t answer run
      → Collects t run
  answer-Collects t (err e) run failed same = ([], _, same, unanswered e failed)
  answer-Collects t (ok logs) run got answers =
      let (hs, m, same, _, _, _, holds, _) = answers (orderly.2 t client _ logs got) in
      (_, _, same, answered logs hs m got holds)

  usdc_step_on :
      (t : Trace)
      → el.usdc_listen ≡ true
      → usdc_step t ≡ collect_usdc_events env.eth el.usdc env.node client block (a ∷ rest) t
  usdc_step_on t on = rw on refl

  usdc_step_off : (t : Trace) → el.usdc_listen ≡ false → usdc_step t ≡ (done [], t)
  usdc_step_off t quiet = rw quiet refl

  usdc_step-Collects : (t : Trace) → Collects t (usdc_step t)
  usdc_step-Collects t = elim (Bool-cases el.usdc_listen) [
    | inr quiet ↦ ([], t, usdc_step_off t quiet, off quiet)
    | inl on ↦ elim (Option-cases el.usdc.asset) [
      | inl unset ↦ (
        [],
        t,
        usdc_step_on t on
            ∙ collect_usdc_events_disabled env.eth el.usdc env.node client block (a ∷ rest) t
                (inl unset),
        no_asset unset,
      )
      | inr (asset, set) ↦
          let (es, t', run, from) = answer-Collects t _ _ refl (
            collect_usdc_events_lem env.eth el.usdc env.node client block (a ∷ rest) t (λ unset. cc)
              (λ empty. cc)) in
          (es, t', usdc_step_on t on ∙ run, from)
    ]
  ]

  -- The collectors' data is orderly, and call data that is not empty has a selector. The collectors
  -- return; the events of the block are those expected of its transactions, with their assets, gas
  -- details and metadata, by the receipts that the node gives, and behind them those of its USDC
  -- logs.
  pub block_events_lem :
      (t : Trace)
      → All HasSelector block.transactions
      → (txn usdc : List ActivityEvent) × (t' : Trace) × (block_events env el client
            (a ∷ rest)
            block
            t
          ≡ (done (txn ++ usdc), t'))
        × (txn
            ≡ expect_txs env.eth el.eth_asset env.node client el.known_contracts
                (a ∷ rest)
                block.transactions
                t)
        × FromLogs env el client
            (a ∷ rest)
            block
            (behind_receipts env el client (a ∷ rest) block t)
            usdc
  unfolding block_events
  block_events_lem t selectors =
      let txn =
        expect_txs env.eth el.eth_asset env.node client el.known_contracts (a ∷ rest)
          block.transactions t in
      let collected =
        collect_txn_events_lem env.eth el.eth_asset env.node client el.known_contracts block
          (a ∷ rest) t (orderly.0 client) selectors in
      let (usdc, t', run, from) =
        usdc_step-Collects (behind_receipts env el client (a ∷ rest) block t) in
      (
        txn,
        usdc,
        t',
        bind_done
              (collect_txn_events env.eth el.eth_asset env.node client el.known_contracts block
                (a ∷ rest))
              (λ txn. usdc_step >>= λ usdc. pure (txn ++ usdc)) t collected
            ∙ bind_done usdc_step (λ usdc. pure (txn ++ usdc))
                (behind_receipts env el client (a ∷ rest) block t) run,
        refl,
        from,
      )

  module _ (parse : Text → Option Json) (parse_time : Text → Option ℤ) (p : Publisher) (time : Text)
      (on : el.publisher ≡ some p)
      (accepts : (t : Trace) (m : NatsMsg) → env.broker.publish t m ≡ none)
      (stamped : env.broker.time_text (word64 block.time) ≡ ok time)
      (at : parse_time time ≡ some (word64 block.time)) where
    publish_events-run :
        (e : ActivityEvent) (es : List ActivityEvent) (t : Trace) {t' : Trace}
        → publish env.broker p (block_message env el block (e ∷ es)) t ≡ (done none, t')
        → publish_events env el block (e ∷ es) t ≡ (done tt, t')
    unfolding publish_events block_message
    publish_events-run e es t run = rw on (
        bind_done (publish env.broker p (block_message env el block (e ∷ es))) (λ _. pure tt) t run)

    -- The events of a block, published and read back.
    publish_events-received :
        (es : List ActivityEvent) (t : Trace)
        → All
            (Reads parse parse_time env.broker p time)
            (chunk (block_message env el block es) batch_size)
        → (sent : List NatsMsg) × (batches : List BlockActivityMessage) × (publish_events env el
              block es t
            ≡ (done tt, push sent t))
          × (receive_all parse parse_time sent ≡ some batches)
          × All (SameBlock (block_message env el block es)) batches
          × (all_events batches ≡ es)
    unfolding publish_events block_message
    publish_events-received [] t reads = ([], [], refl, refl, tt, refl)
    publish_events-received (e ∷ es) t reads =
        let msg = block_message env el block (e ∷ es) in
        let run = publish_acknowledged env.broker p accepts time msg t stamped in
        let (sent, batches, pushed, received, same, all) =
          publish_received parse parse_time env.broker p time msg t stamped at reads run in
        (
          sent,
          batches,
          publish_events-run e es t run ∙ ap (λ x. (done tt, x)) pushed,
          received,
          same,
          all,
        )

    -- The collectors' data is orderly, and call data that is not empty has a selector; the listener
    -- has a publisher whose broker acknowledges everything, the timestamp of the block has the text
    -- `time`, and a consumer reads this text, and the document of each batch of the block's events
    -- from its print. Then the work on the block returns, and the messages that it sends are read
    -- back as batches of the block, whose events, one batch after another, are those expected of
    -- its transactions and behind them those of its USDC logs.
    pub process_block-received :
        (t : Trace)
        → All HasSelector block.transactions
        → ((es : List ActivityEvent) (t1 : Trace)
            → block_events env el client (a ∷ rest) block t ≡ (done es, t1)
            → All
                (Reads parse parse_time env.broker p time)
                (chunk (block_message env el block es) batch_size))
        → (txn usdc : List ActivityEvent) × (t1 : Trace) × (sent : List NatsMsg) × (batches : List
            BlockActivityMessage)
          × (process_block env el client (a ∷ rest) block t ≡ (done tt, push sent t1))
          × (receive_all parse parse_time sent ≡ some batches)
          × All (SameBlock (block_message env el block (txn ++ usdc))) batches
          × (all_events batches ≡ txn ++ usdc)
          × (txn
              ≡ expect_txs env.eth el.eth_asset env.node client el.known_contracts
                  (a ∷ rest)
                  block.transactions
                  t)
          × FromLogs env el client
              (a ∷ rest)
              block
              (behind_receipts env el client (a ∷ rest) block t)
              usdc
    unfolding process_block
    process_block-received t selectors reads =
        let (txn, usdc, t1, run, expected, from) = block_events_lem t selectors in
        let (sent, batches, published, received, same, all) =
          publish_events-received (txn ++ usdc) t1 (reads (txn ++ usdc) t1 run) in
        (
          txn,
          usdc,
          t1,
          sent,
          batches,
          bind_done (block_events env el client (a ∷ rest) block) (publish_events env el block) t
                run
              ∙ published,
          received,
          same,
          all,
          expected,
          from,
        )
