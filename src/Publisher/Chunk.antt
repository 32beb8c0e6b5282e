-- ===== src/Publisher/Chunk.antt =====
-- What `chunk` does to a message.
use chain_ops.Common.{
  ℕ, zero, suc, ◌+◌, ◌-◌, ◌*◌, ◌≤◌, ◌<◌, ◌≡◌, List, [], ◌∷◌, ◌++◌, append-nil, arith, ltb, leb,
  length, drop, All, Bool-cases, inl, inr, refl, take-append-drop, length-take, length-drop,
  take_all, drop_all, drop-drop, ltb→lt, leb→le, leb→gt, ltb→ge, lt→ltb, if◌then◌else◌,
}
use chain_ops.Schema.{ActivityEvent, BlockActivityMessage}
use chain_ops.Publisher.{slice, chunk_from, chunk}

-- The events of the batches, one after another.
abbrev pub all_events : List BlockActivityMessage → List ActivityEvent
all_events [] = []
all_events (m ∷ ms) = m.events ++ all_events ms

-- A batch of a message: its envelope, with at least one event and at most n.
pub record IsBatch (msg : BlockActivityMessage) (n : ℕ) (batch : BlockActivityMessage)
    : Type 0 where
  pub same_network : batch.network_id ≡ msg.network_id
  pub same_number : batch.block_number ≡ msg.block_number
  pub same_hash : batch.block_hash ≡ msg.block_hash
  pub same_timestamp : batch.block_timestamp ≡ msg.block_timestamp
  pub not_empty : 0 < length batch.events
  pub not_over : length batch.events ≤ n

-- One round's slice and what lies behind it.
slice-append-drop :
    (xs : List ActivityEvent) (i n : ℕ)
    → slice xs i (if ltb (length xs) (i + n) then length xs else i + n) ++ drop (i + n) xs
      ≡ drop i xs
slice-append-drop xs i n = elim (Bool-cases (ltb (length xs) (i + n))) [
  | inl short ↦
      rw
        (
          short,
          take_all (length xs - i) (drop i xs) (omega (arith, length-drop i xs)),
          drop_all (i + n) xs (omega (arith, ltb→lt _ _ short)),
        )
        (append-nil _)
  | inr full ↦
      let e : i + n - i ≡ n = omega arith in
      rw (full, e, drop-drop i n xs) (take-append-drop n (drop i xs))
]

-- The rounds from index i cover everything from there on, when the fuel covers it.
all_events-chunk_from :
    (fuel i : ℕ) (msg : BlockActivityMessage) (n : ℕ)
    → 0 < n
    → length msg.events ≤ i + fuel
    → all_events (chunk_from fuel i msg n) ≡ drop i msg.events
unfolding chunk_from
all_events-chunk_from zero i msg n pos h = rw (drop_all i msg.events (omega arith))
all_events-chunk_from (suc fuel) i msg n pos h = elim (Bool-cases (ltb i (length msg.events))) [
  | inl more ↦
      rw (more, all_events-chunk_from fuel (i + n) msg n pos (omega arith))
        (slice-append-drop msg.events i n)
  | inr end ↦ rw (end, drop_all i msg.events (ltb→ge _ _ end))
]

-- The slice of a round that starts before the end has between one and n events.
length-slice :
    (xs : List ActivityEvent) (i n : ℕ)
    → 0 < n
    → i < length xs
    → let events = slice xs i (if ltb (length xs) (i + n) then length xs else i + n) in
      (0 < length events) × (length events ≤ n)
length-slice xs i n pos h = elim (Bool-cases (ltb (length xs) (i + n))) [
  | inl short ↦
      rw (short, length-take (length xs - i) (drop i xs), length-drop i xs)
        (omega (arith, ltb→lt _ _ short))
  | inr full ↦
      rw (full, length-take (i + n - i) (drop i xs), length-drop i xs)
        (omega (arith, ltb→ge _ _ full))
]

chunk_from-IsBatch :
    (fuel i : ℕ) (msg : BlockActivityMessage) (n : ℕ)
    → 0 < n
    → All (IsBatch msg n) (chunk_from fuel i msg n)
unfolding chunk_from
chunk_from-IsBatch zero i msg n pos = tt
chunk_from-IsBatch (suc fuel) i msg n pos = elim (Bool-cases (ltb i (length msg.events))) [
  | inl more ↦ rw more (
      (
        record {
          same_network = refl;
          same_number = refl;
          same_hash = refl;
          same_timestamp = refl;
          not_empty = (length-slice msg.events i n pos (ltb→lt _ _ more)).0;
          not_over = (length-slice msg.events i n pos (ltb→lt _ _ more)).1;
        },
        chunk_from-IsBatch fuel (i + n) msg n pos,
      ))
  | inr end ↦ rw end tt
]

chunk_from_end :
    (fuel i : ℕ) (msg : BlockActivityMessage) (n : ℕ)
    → length msg.events ≤ i
    → chunk_from fuel i msg n ≡ []
unfolding chunk_from
chunk_from_end zero i msg n h = refl
chunk_from_end (suc fuel) i msg n h = ground arith

-- The batches cover the events, and one batch fewer would not: all but the last are full.
chunk_from-count :
    (fuel i : ℕ) (msg : BlockActivityMessage) (n : ℕ)
    → 0 < n
    → length msg.events ≤ i + fuel
    → i < length msg.events
    → (length msg.events ≤ i + length (chunk_from fuel i msg n) * n)
      × (i + length (chunk_from fuel i msg n) * n < length msg.events + n)
unfolding chunk_from
chunk_from-count zero i msg n pos h lt = absurd (omega arith)
chunk_from-count (suc fuel) i msg n pos h lt =
    rw (lt→ltb _ _ lt) (elim (Bool-cases (ltb (i + n) (length msg.events))) [
      | inl more ↦
          let ih = chunk_from-count fuel (i + n) msg n pos (omega arith) (ltb→lt _ _ more) in
          (omega (arith, ih.0), omega (arith, ih.1))
      | inr last ↦
          rw (chunk_from_end fuel (i + n) msg n (ltb→ge _ _ last))
            (omega (arith, ltb→ge _ _ last), omega arith)
    ])

-- For a positive batch size n, the events of the batches, one batch after another, are the events
-- of the message: none is lost, repeated or moved.
pub all_events-chunk :
    (msg : BlockActivityMessage) (n : ℕ) → 0 < n → all_events (chunk msg n) ≡ msg.events
unfolding chunk
all_events-chunk msg n pos = elim (Bool-cases (leb (length msg.events) n)) [
  | inl small ↦ rw small (append-nil msg.events)
  | inr large ↦ rw large (all_events-chunk_from _ 0 msg n pos (omega arith))
]

-- For a positive batch size n, every batch of a message that has events carries the envelope of the
-- message and between one and n of its events. A message without events is one batch, itself.
pub chunk-IsBatch :
    (msg : BlockActivityMessage) (n : ℕ)
    → 0 < n
    → (0 < length msg.events → All (IsBatch msg n) (chunk msg n))
      × (length msg.events ≡ 0 → chunk msg n ≡ msg ∷ [])
unfolding chunk
chunk-IsBatch msg n pos = elim (Bool-cases (leb (length msg.events) n)) [
  | inl small ↦ rw small (
    λ h. (
      record {
        same_network = refl;
        same_number = refl;
        same_hash = refl;
        same_timestamp = refl;
        not_empty = h;
        not_over = leb→le _ _ small;
      },
      tt,
    ),
    λ _. refl,
  )
  | inr large ↦
      rw large
        (λ _. chunk_from-IsBatch _ 0 msg n pos, λ h. absurd (omega (arith, leb→gt _ _ large)))
]

-- For a positive batch size n, a message with k > 0 events is cut into k / n batches, rounded up:
-- b batches with k ≤ b * n < k + n.
pub chunk-count :
    (msg : BlockActivityMessage) (n : ℕ)
    → 0 < n
    → 0 < length msg.events
    → (length msg.events ≤ length (chunk msg n) * n)
      × (length (chunk msg n) * n < length msg.events + n)
unfolding chunk
chunk-count msg n pos some_event = elim (Bool-cases (leb (length msg.events) n)) [
  | inl small ↦ rw small (omega (arith, leb→le _ _ small), omega arith)
  | inr large ↦
      let count = chunk_from-count (length msg.events) 0 msg n pos (omega arith) some_event in
      rw large (omega (arith, count.0), omega (arith, count.1))
]
