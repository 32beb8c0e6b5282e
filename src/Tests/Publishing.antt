-- ===== src/Tests/Publishing.antt =====
-- A publisher whose broker refuses its third message.
use chain_ops.Common.{
  ℕ, ◌*◌, ◌≤◌, ◌<◌, ◌≡◌, refl, [], ◌∷◌, Option, none, some, ltb, length, take, All, arith,
  if◌then◌else◌, false,
}
use chain_ops.Common.Int.{pos}
use chain_ops.Common.Text.{codes}
use chain_ops.Schema.{native_transfer, incoming, ActivityEvent, BlockActivityMessage}
use chain_ops.World.{Error, ok, Broker, Trace, done}
use chain_ops.Publisher.{
  batch_size, Publisher, BatchError, chunk, publish, publish_from, chunk_from, publish_batch,
  marshal,
}
use chain_ops.Publisher.Chunk.{all_events, all_events-chunk, chunk-IsBatch, chunk-count, IsBatch}
use chain_ops.Publisher.Delivery.{
  push, all_wires, Acknowledged, Ends, publish_delivers, publish_complete,
}

abbrev transfer : ℕ → ActivityEvent
transfer n = record {
  wallet_address = codes "0xa";
  tx_hash = n ∷ [];
  event_type = native_transfer;
  activity_type = incoming;
  from_address = [];
  to_address = codes "0xa";
  amount = codes "5";
  asset = none;
  gas_details = none;
  metadata = [];
}

abbrev pub three_events : BlockActivityMessage
three_events = record {
  network_id = codes "net";
  block_number = 7;
  block_hash = codes "0xb";
  block_timestamp = pos 1000;
  events = transfer 1 ∷ transfer 2 ∷ transfer 3 ∷ [];
}

all_events-chunk_example : all_events (chunk three_events 2) ≡ three_events.events
all_events-chunk_example = all_events-chunk three_events 2 (omega arith)

chunk-IsBatch_example :
    (0 < length three_events.events → All (IsBatch three_events 2) (chunk three_events 2))
    × (length three_events.events ≡ 0 → chunk three_events 2 ≡ three_events ∷ [])
chunk-IsBatch_example = chunk-IsBatch three_events 2 (omega arith)

chunk-count_example :
    (3 ≤ length (chunk three_events 2) * 2) × (length (chunk three_events 2) * 2 < 5)
chunk-count_example = chunk-count three_events 2 (omega arith) (omega arith)

two_batches : length (chunk three_events 2) ≡ 2
unfolding chunk chunk_from
two_batches = refl

abbrev refusal : Error
refusal = record {
  deadline_exceeded = false;
  net_error = false;
  message = codes "nats: no stream found";
}

abbrev pub broker : Broker
broker = record {
  publish = λ t _. if ltb (length t) 2 then none else some refusal;
  time_text = λ _. ok (codes "1970-01-01T00:16:40Z");
  print = λ _. codes "{}";
}

abbrev pub publisher : Publisher
publisher = record { subject = codes "chainops.block.activity" }

publish_delivers_example :
    (k : ℕ) × (r : Option BatchError) × (publish broker publisher three_events []
      ≡ (done r, push (take k (all_wires broker publisher three_events)) []))
    × (k ≤ length (all_wires broker publisher three_events))
    × Ends broker publisher
        (length (chunk three_events batch_size))
        0
        (all_wires broker publisher three_events)
        []
        k
        r
publish_delivers_example = publish_delivers broker publisher three_events []

abbrev pub sent_trace : Trace
sent_trace = push (all_wires broker publisher three_events) []

pub three_published : publish broker publisher three_events [] ≡ (done none, sent_trace)
unfolding publish publish_from publish_batch chunk marshal
three_published = refl

publish_complete_example :
    (sent_trace ≡ push (all_wires broker publisher three_events) [])
    × Acknowledged broker publisher (all_wires broker publisher three_events) []
    × (all_events (chunk three_events batch_size) ≡ three_events.events)
publish_complete_example = publish_complete broker publisher three_events [] three_published
