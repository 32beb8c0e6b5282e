-- ===== src/Publisher/Accepted.antt =====
-- `Publish` to a broker that acknowledges everything.
use chain_ops.Common.{ℕ, ◌+◌, ◌≡◌, refl, ◌∙◌, List, [], ◌∷◌, none, All, All-mono, length}
use chain_ops.Common.Text.{Text}
use chain_ops.Schema.{BlockActivityMessage}
use chain_ops.Wire.{message_json}
use chain_ops.World.{ok, NatsMsg, publish_msg, Trace, Broker, done}
use chain_ops.Publisher.{batch_size, Publisher, chunk, wire, marshal, publish_from, publish}
use chain_ops.Publisher.Delivery.{push, wires, all_wires, publish_from_accepted}
use chain_ops.Publisher.Consumer.{SameBlock, chunk-SameBlock}

module _ (b : Broker) (p : Publisher) (accepts : (t : Trace) (m : NatsMsg) → b.publish t m ≡ none)
    (time : Text) where
  abbrev Stamped : BlockActivityMessage → Type 0
  Stamped m = b.time_text m.block_timestamp ≡ ok time

  marshal-Stamped :
      (m : BlockActivityMessage) → Stamped m → marshal b m ≡ ok (b.print (message_json time m))
  unfolding marshal
  marshal-Stamped m stamped = rw (stamped, marshal) refl

  publish_from_acknowledged :
      (block total i : ℕ) (batches : List BlockActivityMessage) (t : Trace)
      → All Stamped batches
      → publish_from b p block total i batches t ≡ (done none, push (wires b p total i batches) t)
  unfolding publish_from
  publish_from_acknowledged block total i [] t _ = refl
  publish_from_acknowledged block total i (m ∷ l) t (stamped, others) =
      let payload = b.print (message_json time m) in
      let marshalled = marshal-Stamped m stamped in
      rw marshalled (
        publish_from_accepted b p block total i m l t payload marshalled
          (accepts t (wire p m payload (i + 1) total))
        ∙ publish_from_acknowledged block total (i + 1) l
            (publish_msg (wire p m payload (i + 1) total) ∷ t) others)

  -- All messages of a block are sent.
  pub publish_acknowledged :
      (msg : BlockActivityMessage) (t : Trace)
      → Stamped msg
      → publish b p msg t ≡ (done none, push (all_wires b p msg) t)
  unfolding publish
  publish_acknowledged msg t stamped =
      let batches = chunk msg batch_size in
      publish_from_acknowledged msg.block_number (length batches) 0 batches t (
        All-mono (SameBlock msg) Stamped batches (λ m h. simp (h.timestamp, stamped))
          (chunk-SameBlock msg))
