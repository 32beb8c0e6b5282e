-- ===== src/Tests/Delivering.antt =====
-- A block with a transfer, from the collectors to a consumer.
use chain_ops.Common.{◌≡◌, refl, ap, subst, List, [], ◌∷◌, ◌++◌, arith, Option, some, All}
use chain_ops.Common.Text.{Text, codes}
use chain_ops.Common.Int.{ℤ}
use chain_ops.Schema.{ActivityEvent, BlockActivityMessage}
use chain_ops.Chain.{Block, word64}
use chain_ops.Wire.{Json, message_json}
use chain_ops.World.{Outcome, done, panic, Trace, NatsMsg}
use chain_ops.Publisher.{batch_size, chunk, Publisher}
use chain_ops.Publisher.Chunk.{all_events}
use chain_ops.Publisher.Delivery.{push}
use chain_ops.Publisher.Consumer.{Reads, SameBlock, receive_all}
use chain_ops.Txn.{
  collect_txn_events, txs_events, tx_events, outgoing_events, emit_outgoing,
  get_receipt_transaction, gas_of, outgoing_event, incoming_events, get_gas_details, has_address,
}
use chain_ops.Txn.Expected.{expect_txs}
use chain_ops.Usdc.{collect_usdc_events}
use chain_ops.Listener.{block_events, block_message, process_block}
use chain_ops.Listener.Delivered.{
  FromLogs, behind_receipts, block_events_lem, process_block-received,
}
use chain_ops.Tests.Collecting.{block_of, transfer}
use chain_ops.Tests.Listening.{env, listener, env-IsOrderly}

abbrev block : Block
block = block_of (transfer ∷ [])

abbrev publisher : Publisher
publisher = record { subject = codes "s" }

events_of : Outcome (List ActivityEvent) → List ActivityEvent
events_of (done es) = es
events_of panic = []

-- What the two wallets see of the transfer.
abbrev seen : List ActivityEvent
seen = events_of (block_events env listener 0 (1 ∷ 2 ∷ []) block []).0

abbrev parse : Text → Option Json
parse _ = some (message_json (codes "t") (block_message env listener block seen))

abbrev parse_time : Text → Option ℤ
parse_time _ = some (word64 block.time)

reads :
    (es : List ActivityEvent) (t1 : Trace)
    → block_events env listener 0 (1 ∷ 2 ∷ []) block [] ≡ (done es, t1)
    → All
        (Reads parse parse_time env.broker publisher (codes "t"))
        (chunk (block_message env listener block es) batch_size)
unfolding chunk events_of block_message block_events collect_txn_events txs_events tx_events
    outgoing_events has_address emit_outgoing get_receipt_transaction gas_of get_gas_details
    outgoing_event collect_usdc_events incoming_events
reads es t1 run =
    subst
      (λ es.
        All (Reads parse parse_time env.broker publisher (codes "t"))
          (chunk (block_message env listener block es) batch_size))
      (ap (λ r. events_of r.0) run) small
  where
    small :
        All
          (Reads parse parse_time env.broker publisher (codes "t"))
          (chunk (block_message env listener block seen) batch_size)
    small = (refl, tt)

block_events_lem_example :
    (txn usdc : List ActivityEvent) × (t' : Trace) × (block_events env listener 0
        (1 ∷ 2 ∷ [])
        block
        []
      ≡ (done (txn ++ usdc), t'))
    × (txn ≡ expect_txs env.eth listener.eth_asset env.node 0 [] (1 ∷ 2 ∷ []) block.transactions [])
    × FromLogs env listener 0
        (1 ∷ 2 ∷ [])
        block
        (behind_receipts env listener 0 (1 ∷ 2 ∷ []) block [])
        usdc
block_events_lem_example =
    block_events_lem env listener (env-IsOrderly listener) 0 1 (2 ∷ []) block [] (omega arith)

process_block-received_example :
    (txn usdc : List ActivityEvent) × (t1 : Trace) × (sent : List NatsMsg) × (batches : List
      BlockActivityMessage)
    × (process_block env listener 0 (1 ∷ 2 ∷ []) block [] ≡ (done tt, push sent t1))
    × (receive_all parse parse_time sent ≡ some batches)
    × All (SameBlock (block_message env listener block (txn ++ usdc))) batches
    × (all_events batches ≡ txn ++ usdc)
    × (txn ≡ expect_txs env.eth listener.eth_asset env.node 0 [] (1 ∷ 2 ∷ []) block.transactions [])
    × FromLogs env listener 0
        (1 ∷ 2 ∷ [])
        block
        (behind_receipts env listener 0 (1 ∷ 2 ∷ []) block [])
        usdc
process_block-received_example =
    process_block-received env listener (env-IsOrderly listener) 0 1 (2 ∷ []) block parse parse_time
      publisher (codes "t") refl (λ _ _. refl) refl refl [] (omega arith) reads
