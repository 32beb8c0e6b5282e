-- ===== src/Publisher.antt =====
-- services/listener/publisher/publisher.go: a block's message is cut into batches of at most
-- `batch_size` events, and the batches are published in order until one fails. The NATS connection
-- options of `New` and the log lines are left out; `int` indices stay far below 2^63.
pub mod Chunk
pub mod Delivery
pub mod Connect
pub mod Consumer
pub mod Accepted
pub mod Headers
use mathlib.Core.Option
use chain_ops.Common.{
  ℕ, zero, suc, ◌+◌, ◌-◌, List, [], ◌∷◌, Option, none, some, ltb, leb, length, take, drop,
  if◌then◌else◌,
}
use chain_ops.Common.Text.{Text, codes, decimal}
use chain_ops.Schema.{ActivityEvent, BlockActivityMessage}
use chain_ops.Wire.{message_json}
use chain_ops.World.{
  Error, Result, ok, err, NatsMsg, publish_msg, Broker, M, done, panic, pure, call, ◌>>=◌,
}

abbrev pub batch_size : ℕ
batch_size = 100

-- Publisher without its connection: the broker is the environment's.
pub record Publisher : Type 0 where
  pub subject : Text

-- The errors that `publishBatch` and `Publish` wrap, by the text they put in front.
pub data PublishError : Type 0 where
  marshal_failed : Error → PublishError
  jetstream_failed : Error → PublishError

-- "block %d batch %d/%d: %w"
pub record BatchError : Type 0 where
  pub block : ℕ
  pub batch_idx : ℕ
  pub total : ℕ
  pub cause : PublishError

-- xs[i:j]
abbrev pub slice : List ActivityEvent → ℕ → ℕ → List ActivityEvent
slice xs i j = take (j - i) (drop i xs)

-- The loop of `chunk` from index i, with fuel for its rounds.
unfoldable pub chunk_from : ℕ → ℕ → BlockActivityMessage → ℕ → List BlockActivityMessage
chunk_from zero i msg n = []
chunk_from (suc fuel) i msg n =
    let size = length msg.events in
    let end = if ltb size (i + n) then size else i + n in
    let batch : BlockActivityMessage = record {
      network_id = msg.network_id;
      block_number = msg.block_number;
      block_hash = msg.block_hash;
      block_timestamp = msg.block_timestamp;
      events = slice msg.events i end;
    } in
    let rest = chunk_from fuel (i + n) msg n in if ltb i size then batch ∷ rest else []

unfoldable pub chunk : BlockActivityMessage → ℕ → List BlockActivityMessage
chunk msg n =
    let size = length msg.events in if leb size n then msg ∷ [] else chunk_from size 0 msg n

-- The message that `publishBatch` builds around a marshalled batch.
unfoldable pub wire : Publisher → BlockActivityMessage → Text → ℕ → ℕ → NatsMsg
wire p msg payload batch_idx total = record {
  subject = p.subject;
  payload = payload;
  header =
      (codes "X-Network-ID", msg.network_id)
      ∷ (codes "X-Block-Number", decimal msg.block_number)
      ∷ (codes "X-Batch-Index", decimal batch_idx)
      ∷ (codes "X-Total-Batches", decimal total)
      ∷ [];
}

-- json.Marshal of a message
unfoldable pub marshal : Broker → BlockActivityMessage → Result Text
marshal b msg = elim (b.time_text msg.block_timestamp) [
  | err e ↦ err e
  | ok time ↦ ok (b.print (message_json time msg))
]

module _ (b : Broker) (p : Publisher) where
  unfoldable pub publish_batch : BlockActivityMessage → ℕ → ℕ → M (Option PublishError)
  publish_batch msg batch_idx total = elim (marshal b msg) [
    | err e ↦ pure (some (marshal_failed e))
    | ok payload ↦ do
      let m = wire p msg payload batch_idx total
      answer ← call (publish_msg m) (λ t. b.publish t m)
      pure (Option.map jetstream_failed answer)
  ]

  -- The loop of `Publish` over the batches left, the first of which has the index i.
  unfoldable pub publish_from : ℕ → ℕ → ℕ → List BlockActivityMessage → M (Option BatchError)
  publish_from block total i [] = pure none
  publish_from block total i (batch ∷ rest) = do
    answer ← publish_batch batch (i + 1) total
    elim answer [
      | some e ↦ pure (some (record { block = block; batch_idx = i + 1; total = total; cause = e }))
      | none ↦ publish_from block total (i + 1) rest
    ]

  unfoldable pub publish : BlockActivityMessage → M (Option BatchError)
  publish msg =
      let batches = chunk msg batch_size in publish_from msg.block_number (length batches) 0 batches
