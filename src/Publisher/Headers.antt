-- ===== src/Publisher/Headers.antt =====
-- What a consumer has from the headers of a block's messages.
use chain_ops.Common.{
  Option, none, take, take_all, zero, arith, ◌∙◌, ℕ, suc, ◌+◌, ◌≡◌, refl, ap, List, [], ◌∷◌, some,
  All, length, if◌then◌else◌,
}
use chain_ops.Common.Text.{Text, codes, text_eq}
use chain_ops.Common.Text.Decimal.{read_decimal, read_decimal-decimal}
use chain_ops.Schema.{BlockActivityMessage}
use chain_ops.World.{NatsMsg, Broker, Trace, done}
use chain_ops.Publisher.{BatchError, publish, batch_size, Publisher, chunk, wire, marshal}
use chain_ops.Publisher.Delivery.{payload_of, wires, all_wires, push, Ends, publish_delivers}
use chain_ops.Publisher.Consumer.{SameBlock, chunk-SameBlock}

-- Header.Get
unfoldable pub get : List (Text × Text) → Text → Text
get [] key = []
get ((k, v) ∷ header) key = if text_eq k key then v else get header key

-- The headers of a message say that it is this batch of so many of a block.
pub record Says (msg : BlockActivityMessage) (batch_idx total : ℕ) (m : NatsMsg) : Type 0 where
  pub network : get m.header (codes "X-Network-ID") ≡ msg.network_id
  pub number : read_decimal (get m.header (codes "X-Block-Number")) ≡ some msg.block_number
  pub index : read_decimal (get m.header (codes "X-Batch-Index")) ≡ some batch_idx
  pub count : read_decimal (get m.header (codes "X-Total-Batches")) ≡ some total

-- The messages are the batches that follow index i.
abbrev pub Numbered : BlockActivityMessage → ℕ → ℕ → List NatsMsg → Type 0
Numbered msg total i [] = Unit
Numbered msg total i (m ∷ ms) = Says msg (i + 1) total m × Numbered msg total (i + 1) ms

wire-Says :
    (p : Publisher) (msg batch : BlockActivityMessage) (payload : Text) (batch_idx total : ℕ)
    → SameBlock msg batch
    → Says msg batch_idx total (wire p batch payload batch_idx total)
unfolding wire get text_eq
wire-Says p msg batch payload batch_idx total same = record {
  network = same.network;
  number = read_decimal-decimal batch.block_number ∙ ap some same.number;
  index = read_decimal-decimal batch_idx;
  count = read_decimal-decimal total;
}

module _ (b : Broker) (p : Publisher) (msg : BlockActivityMessage) where
  wires-Numbered :
      (total i : ℕ) (batches : List BlockActivityMessage)
      → All (SameBlock msg) batches
      → Numbered msg total i (wires b p total i batches)
  wires-Numbered total i [] _ = tt
  wires-Numbered total i (m ∷ l) (same, others) = (
    wire-Says p msg m (payload_of (marshal b m)) (i + 1) total same,
    wires-Numbered total (i + 1) l others,
  )

  length-wires :
      (total i : ℕ) (batches : List BlockActivityMessage)
      → length (wires b p total i batches) ≡ length batches
  length-wires total i [] = refl
  length-wires total i (m ∷ l) = ap suc (length-wires total (i + 1) l)

  take-Numbered :
      (total i k : ℕ) (ms : List NatsMsg)
      → Numbered msg total i ms
      → Numbered msg total i (take k ms)
  take-Numbered total i zero ms _ = tt
  take-Numbered total i (suc k) [] _ = tt
  take-Numbered total i (suc k) (m ∷ ms) (first, others) =
      (first, take-Numbered total (i + 1) k ms others)

  -- Without an error, a message was sent for each batch.
  abbrev pub IsWhole : Option BatchError → List NatsMsg → Type 0
  IsWhole none sent = length sent ≡ length (chunk msg batch_size)
  IsWhole (some e) sent = Unit

  Ends-IsWhole :
      (t : Trace) (k : ℕ) (r : Option BatchError)
      → Ends b p (length (chunk msg batch_size)) 0 (all_wires b p msg) t k r
      → IsWhole r (take k (all_wires b p msg))
  Ends-IsWhole t k (some e) _ = tt
  Ends-IsWhole t k none (all, _) =
      let batches = chunk msg batch_size in
      ap length (take_all k (all_wires b p msg) (omega arith))
      ∙ length-wires (length batches) 0 batches

  -- Whatever the broker answers, `Publish` returns. The headers of the messages that it has sent by
  -- then read back: each has the network and the number of the block, the messages are numbered
  -- from 1 on in the order in which they were sent, and each has the number of the block's batches
  -- as the total. If it returns no error, so many messages were sent.
  pub publish-Numbered :
      (t : Trace)
      → (r : Option BatchError) × (sent : List NatsMsg) × (publish b p msg t
          ≡ (done r, push sent t))
        × IsWhole r sent
        × Numbered msg (length (chunk msg batch_size)) 0 sent
  publish-Numbered t =
      let (k, r, run, bound, ends) = publish_delivers b p msg t in
      let batches = chunk msg batch_size in
      (
        r,
        take k (all_wires b p msg),
        run,
        Ends-IsWhole t k r ends,
        take-Numbered (length batches) 0 k (all_wires b p msg)
            (wires-Numbered (length batches) 0 batches (chunk-SameBlock msg)),
      )
