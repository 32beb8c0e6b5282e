-- ===== src/Publisher/Consumer.antt =====
-- What a consumer has of a block that `Publish` sent: the payloads of its messages, read back.
use chain_ops.Common.{
  ℕ, ◌+◌, subst, ◌<◌, ◌⊎◌, inl, inr, ◌≡◌, refl, sym, ◌∙◌, List, [], ◌∷◌, Option, none, some, All,
  All-mono, arith, length,
}
use chain_ops.Common.Int.{ℤ}
use chain_ops.Common.Text.{Text}
use chain_ops.Schema.{BlockActivityMessage}
use chain_ops.Wire.{Json, message_json}
use chain_ops.Wire.Decode.{◌>>=◌, as_message}
use chain_ops.Wire.RoundTrip.{bind_some, as_message-message_json}
use chain_ops.World.{ok, NatsMsg, Trace, Broker, done}
use chain_ops.Publisher.{batch_size, Publisher, chunk, wire, marshal, publish}
use chain_ops.Publisher.Chunk.{all_events, IsBatch, chunk-IsBatch}
use chain_ops.Publisher.Delivery.{push, payload_of, wires, all_wires, publish_complete}

-- A batch belongs to the block of a message.
pub record SameBlock (msg batch : BlockActivityMessage) : Type 0 where
  pub network : batch.network_id ≡ msg.network_id
  pub number : batch.block_number ≡ msg.block_number
  pub hash : batch.block_hash ≡ msg.block_hash
  pub timestamp : batch.block_timestamp ≡ msg.block_timestamp

zero_or_positive : (n : ℕ) → (n ≡ 0) ⊎ (0 < n)
zero_or_positive n = ground arith

pub chunk-SameBlock : (msg : BlockActivityMessage) → All (SameBlock msg) (chunk msg batch_size)
chunk-SameBlock msg =
    let batches = chunk-IsBatch msg batch_size (omega arith) in
    elim (zero_or_positive (length msg.events)) [
      | inl no_event ↦
          subst (All (SameBlock msg)) (sym (batches.1 no_event))
            (record { network = refl; number = refl; hash = refl; timestamp = refl }, tt)
      | inr some_event ↦
          All-mono (IsBatch msg batch_size) (SameBlock msg) (chunk msg batch_size)
            (λ batch h. record {
              network = h.same_network;
              number = h.same_number;
              hash = h.same_hash;
              timestamp = h.same_timestamp;
            })
            (batches.0 some_event)
    ]

-- A consumer, by its readers of documents and timestamps.
module _ (parse : Text → Option Json) (parse_time : Text → Option ℤ) where
  abbrev pub receive : NatsMsg → Option BlockActivityMessage
  receive m = parse m.payload >>= as_message parse_time

  abbrev pub receive_all : List NatsMsg → Option (List BlockActivityMessage)
  receive_all [] = some []
  receive_all (m ∷ ms) = receive m >>= λ batch. receive_all ms >>= λ rest. some (batch ∷ rest)

  module _ (b : Broker) (p : Publisher) (time : Text) where
    -- The consumer's reader reads what the broker's printer printed.
    abbrev pub Reads : BlockActivityMessage → Type 0
    Reads m = parse (b.print (message_json time m)) ≡ some (message_json time m)

    -- The timestamp has the text, and is read from it.
    abbrev pub Timed : BlockActivityMessage → Type 0
    Timed m = (b.time_text m.block_timestamp ≡ ok time) × (parse_time time ≡ some m.block_timestamp)

    receive-wire :
        (m : BlockActivityMessage) (i total : ℕ)
        → b.time_text m.block_timestamp ≡ ok time
        → parse_time time ≡ some m.block_timestamp
        → Reads m
        → receive (wire p m (payload_of (marshal b m)) i total) ≡ some m
    unfolding wire marshal
    receive-wire m i total timed at reads =
        rw (timed, payload_of) (bind_some _ _ reads ∙ as_message-message_json m parse_time time at)

    receive_all-wires :
        (batches : List BlockActivityMessage) (total i : ℕ)
        → All Timed batches
        → All Reads batches
        → receive_all (wires b p total i batches) ≡ some batches
    receive_all-wires [] total i timed reads = refl
    receive_all-wires (m ∷ l) total i timed reads =
        bind_some _ _ (receive-wire m (i + 1) total timed.0.0 timed.0.1 reads.0)
        ∙ bind_some _ _ (receive_all-wires l total (i + 1) timed.1 reads.1)

module _ (parse : Text → Option Json) (parse_time : Text → Option ℤ) (b : Broker) (p : Publisher)
    (time : Text) (msg : BlockActivityMessage) (t : Trace) where
  -- Suppose that `Publish` returns a nil error for a message whose timestamp has the text `time`,
  -- and that a consumer reads this text as the timestamp, and reads the document of each batch from
  -- its print. Then the messages that were sent are read back as batches of the same block (with
  -- its network, number, hash and timestamp) whose events, one batch after another, are the events
  -- of the block.
  pub publish_received :
      {t' : Trace}
      → b.time_text msg.block_timestamp ≡ ok time
      → parse_time time ≡ some msg.block_timestamp
      → All (Reads parse parse_time b p time) (chunk msg batch_size)
      → publish b p msg t ≡ (done none, t')
      → (sent : List NatsMsg) × (batches : List BlockActivityMessage) × (t' ≡ push sent t)
        × (receive_all parse parse_time sent ≡ some batches)
        × All (SameBlock msg) batches
        × (all_events batches ≡ msg.events)
  publish_received timed at reads returned =
      let (sent, _, complete) = publish_complete b p msg t returned in
      let batches = chunk msg batch_size in
      let same = chunk-SameBlock msg in
      (
        all_wires b p msg,
        batches,
        sent,
        receive_all-wires parse parse_time b p time batches (length batches) 0
            (All-mono (SameBlock msg) (Timed parse parse_time b p time) batches
              (λ m h. simp (h.timestamp, timed, at) (refl, refl)) same)
            reads,
        same,
        complete,
      )
