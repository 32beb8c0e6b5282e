-- ===== src/Publisher/Delivery.antt =====
-- What `Publish` has sent when it returns, on every path.
use chain_ops.Common.{
  ℕ, suc, ◌+◌, ◌≤◌, ◌<◌, ◌≡◌, refl, sym, ap, ◌∙◌, take_all, ◌⊎◌, inl, inr, List, [], ◌∷◌, Option,
  none, some, arith, length, take, Option-cases,
}
use chain_ops.Common.Text.{Text}
use chain_ops.Schema.{BlockActivityMessage}
use chain_ops.World.{
  Error, Result, ok, err, Result-cases, NatsMsg, publish_msg, Trace, Broker, Outcome, done,
}
use chain_ops.Publisher.Chunk.{all_events, all_events-chunk}
use chain_ops.Publisher.{
  batch_size, Publisher, marshal_failed, jetstream_failed, BatchError, chunk, wire, publish_batch,
  publish_from, publish, marshal,
}

-- The trace after the messages were sent one after another.
abbrev pub push : List NatsMsg → Trace → Trace
push [] t = t
push (m ∷ ms) t = push ms (publish_msg m ∷ t)

abbrev pub payload_of : Result Text → Text
payload_of (ok payload) = payload
payload_of (err _) = []

module _ (b : Broker) (p : Publisher) where
  -- The messages of the batches that follow index i.
  abbrev pub wires : ℕ → ℕ → List BlockActivityMessage → List NatsMsg
  wires total i [] = []
  wires total i (m ∷ ms) =
      wire p m (payload_of (marshal b m)) (i + 1) total ∷ wires total (i + 1) ms

  -- The broker acknowledges each of the messages, sent in this order.
  abbrev pub Acknowledged : List NatsMsg → Trace → Type 0
  Acknowledged [] t = Unit
  Acknowledged (m ∷ ms) t = (b.publish t m ≡ none) × Acknowledged ms (publish_msg m ∷ t)

  -- How `Publish` ends when it has sent the first k of the messages after index i.
  abbrev pub Ends : ℕ → ℕ → List NatsMsg → Trace → ℕ → Option BatchError → Type 0
  Ends total i ms t k none = (k ≡ length ms) × Acknowledged ms t
  Ends total i ms t k (some e) =
      (e.total ≡ total)
      × ((((c : Error) × (e.cause ≡ marshal_failed c))
            × (e.batch_idx ≡ i + k + 1)
            × (k < length ms)
            × Acknowledged (take k ms) t)
          ⊎ (((c : Error) × (e.cause ≡ jetstream_failed c))
              × ((j : ℕ) × (k ≡ suc j) × (e.batch_idx ≡ i + suc j) × Acknowledged (take j ms) t)))

  Ends-accepted :
      (total i : ℕ) (m : NatsMsg) (ms : List NatsMsg) (t : Trace) (k : ℕ) (r : Option BatchError)
      → b.publish t m ≡ none
      → Ends total (i + 1) ms (publish_msg m ∷ t) k r
      → Ends total i (m ∷ ms) t (suc k) r
  Ends-accepted total i m ms t k none a (all_sent, acks) = (omega arith, (a, acks))
  Ends-accepted total i m ms t k (some e) a (same, inl (c, idx, short, acks)) =
      (same, inl (c, omega arith, omega arith, (a, acks)))
  Ends-accepted total i m ms t k (some e) a (same, inr (c, (j, at, idx, acks))) =
      (same, inr (c, (suc j, omega arith, omega arith, (a, acks))))

  -- One round, by the answers that it gets.
  publish_from_unmarshalled :
      (block total i : ℕ) (batch : BlockActivityMessage) (rest : List BlockActivityMessage)
      (t : Trace) (e : Error)
      → marshal b batch ≡ err e
      → publish_from b p block total i (batch ∷ rest) t ≡ (
        done (
            some (record {
              block = block;
              batch_idx = i + 1;
              total = total;
              cause = marshal_failed e;
            })),
        t,
      )
  unfolding publish_from publish_batch
  publish_from_unmarshalled block total i batch rest t e failed = ground arith

  module _ (block total i : ℕ) (batch : BlockActivityMessage) (rest : List BlockActivityMessage)
      (t : Trace) (payload : Text) (marshalled : marshal b batch ≡ ok payload) where
    publish_from_refused :
        (e : Error)
        → b.publish t (wire p batch payload (i + 1) total) ≡ some e
        → publish_from b p block total i (batch ∷ rest) t ≡ (
          done (
              some (record {
                block = block;
                batch_idx = i + 1;
                total = total;
                cause = jetstream_failed e;
              })),
          publish_msg (wire p batch payload (i + 1) total) ∷ t,
        )
    unfolding publish_from publish_batch
    publish_from_refused e refused = ground arith

    pub publish_from_accepted :
        b.publish t (wire p batch payload (i + 1) total) ≡ none
        → publish_from b p block total i (batch ∷ rest) t
          ≡ publish_from b p block total
              (i + 1)
              rest
              (publish_msg (wire p batch payload (i + 1) total) ∷ t)
    unfolding publish_from publish_batch
    publish_from_accepted accepted = ground arith

  publish_from_lem :
      (block total i : ℕ) (batches : List BlockActivityMessage) (t : Trace)
      → let ms = wires total i batches in
        (k : ℕ) × (r : Option BatchError) × (publish_from b p block total i batches t
          ≡ (done r, push (take k ms) t))
        × (k ≤ length ms)
        × Ends total i ms t k r
  unfolding publish_from
  publish_from_lem block total i [] t = (0, none, refl, omega arith, (refl, tt))
  publish_from_lem block total i (batch ∷ rest) t = elim (Result-cases (marshal b batch)) [
    | inr (e, failed) ↦ (
      0,
      some (record { block = block; batch_idx = i + 1; total = total; cause = marshal_failed e }),
      publish_from_unmarshalled block total i batch rest t e failed,
      omega arith,
      (refl, inl ((e, refl), omega arith, omega arith, tt)),
    )
    | inl (payload, marshalled) ↦
        let m = wire p batch payload (i + 1) total in
        elim (Option-cases (b.publish t m)) [
          | inr (e, refused) ↦ (
            1,
            some (record {
              block = block;
              batch_idx = i + 1;
              total = total;
              cause = jetstream_failed e;
            }),
            rw marshalled
                (publish_from_refused block total i batch rest t payload marshalled e refused),
            omega arith,
            (refl, inr ((e, refl), (0, refl, omega arith, tt))),
          )
          | inl accepted ↦
              let (k, r, run, bound, ends) =
                publish_from_lem block total (i + 1) rest (publish_msg m ∷ t) in
              (
                suc k,
                r,
                rw marshalled (
                    publish_from_accepted block total i batch rest t payload marshalled accepted
                    ∙ run),
                omega arith,
                rw marshalled (Ends-accepted total i m _ t k r accepted ends),
              )
        ]
  ]

-- The messages that a block's batches become, with the total in every header.
abbrev pub all_wires : Broker → Publisher → BlockActivityMessage → List NatsMsg
all_wires b p msg = let batches = chunk msg batch_size in wires b p (length batches) 0 batches

module _ (b : Broker) (p : Publisher) (msg : BlockActivityMessage) (t : Trace) where
  -- Whatever the broker answers, `Publish` returns, and the messages that it sent are the first k
  -- of the block's messages, in order. It returns no error exactly when k is their number and each
  -- was acknowledged. An error names the batch: of a batch that cannot be marshalled nothing is
  -- sent, and all before it were acknowledged; a batch that the broker refuses is the last one
  -- sent, and all before it were acknowledged.
  pub publish_delivers :
      (k : ℕ) × (r : Option BatchError) × (publish b p msg t
        ≡ (done r, push (take k (all_wires b p msg)) t))
      × (k ≤ length (all_wires b p msg))
      × Ends b p (length (chunk msg batch_size)) 0 (all_wires b p msg) t k r
  unfolding publish
  publish_delivers =
      let batches = chunk msg batch_size in
      publish_from_lem b p msg.block_number (length batches) 0 batches t

  -- A nil error from `Publish` means that every event was delivered: all messages of the block were
  -- sent in order and acknowledged, and the events of their batches are the events of the block.
  pub publish_complete :
      {t' : Trace}
      → publish b p msg t ≡ (done none, t')
      → (t' ≡ push (all_wires b p msg) t)
        × Acknowledged b p (all_wires b p msg) t
        × (all_events (chunk msg batch_size) ≡ msg.events)
  publish_complete {t'} returned =
      let (k, r, run, bound, ends) = publish_delivers in conclude k r (sym run ∙ returned) ends
    where
      conclude :
          (k : ℕ) (r : Option BatchError)
          → ◌≡◌ {A = Outcome (Option BatchError) × Trace}
              (done r, push (take k (all_wires b p msg)) t)
              (done none, t')
          → Ends b p (length (chunk msg batch_size)) 0 (all_wires b p msg) t k r
          → (t' ≡ push (all_wires b p msg) t)
            × Acknowledged b p (all_wires b p msg) t
            × (all_events (chunk msg batch_size) ≡ msg.events)
      conclude k (some e) same _ = cc (ap (λ x. x.0) same)
      conclude k none same (all_sent, acks) = (
        sym (ap (λ x. x.1) same)
            ∙ ap (λ ms. push ms t) (take_all k (all_wires b p msg) (omega arith)),
        acks,
        all_events-chunk msg batch_size (omega arith),
      )
