-- ===== src/Usdc/Receipts.antt =====
-- The receipts that `collectUSDCEvents` fetches before it builds the events.
use chain_ops.Common.{
  ◌≡◌, ◌≢◌, ◌⊎◌, inl, inr, refl, ◌∙◌, List, [], ◌∷◌, Option, none, some, true, false, arith, All,
  All-mono, Bool-cases,
}
use chain_ops.Chain.{Address, Hash, Receipt, Log, Eth}
use chain_ops.World.{
  Result, ok, err, Result-cases, Client, Node, get_receipt, Trace, done, bind_done,
}
use chain_ops.Txn.{has_address}
use chain_ops.Usdc.Entries.{
  already_fetched_self, receipt_at_self, already_fetched-cons, already_fetched_ne, receipt_at_ne,
  absent-Distinct, has_address-cons,
}
use chain_ops.Usdc.{
  Usdc, topic, Receipts, already_fetched, receipt_at, fetch_receipt, prefetch_one, prefetch,
}

-- The trace after these receipts were asked for, one after another.
abbrev pub asked : Client → List Hash → Trace → Trace
asked client [] t = t
asked client (h ∷ hs) t = asked client hs (get_receipt client h ∷ t)

-- No hash stands twice.
abbrev pub Distinct : List Hash → Type 0
Distinct [] = Unit
Distinct (h ∷ hs) = (has_address hs h ≡ false) × Distinct hs

-- The log has a sender and a receiver topic.
abbrev pub HasTopics : Eth → Log → Type 0
HasTopics eth vlog =
    ((from : Address) × (topic eth vlog 1 ≡ some from))
    × ((to : Address) × (topic eth vlog 2 ≡ some to))

-- A monitored wallet sent the tokens.
abbrev pub SentBy : Eth → List Address → Log → Type 0
SentBy eth addresses vlog =
    (from : Address) × (topic eth vlog 1 ≡ some from) × (has_address addresses from ≡ true)

-- The transaction of some log by a monitored wallet.
abbrev pub IsSent : Eth → List Address → List Log → Hash → Type 0
IsSent eth addresses [] h = ⊥
IsSent eth addresses (vlog ∷ logs) h =
    ((vlog.tx_hash ≡ h) × SentBy eth addresses vlog) ⊎ IsSent eth addresses logs h

abbrev pub received : Result Receipt → Option Receipt
received (ok r) = some r
received (err _) = none

module _ (eth : Eth) (usdc : Usdc) (n : Node) (client : Client) (addresses : List Address) where
  -- The map holds the node's answer for each of the hashes, asked for in this order.
  abbrev pub Holds : Receipts → List Hash → Trace → Type 0
  Holds m [] t = Unit
  Holds m (h ∷ hs) t =
      (receipt_at m h ≡ received (n.transaction_receipt t client h))
      × Holds m hs (get_receipt client h ∷ t)

  -- What one round does: it asks for the receipt of a new transaction that a monitored wallet sent.
  prefetch_one_lem :
      (m : Receipts) (vlog : Log) (t : Trace)
      → HasTopics eth vlog
      → ((prefetch_one eth usdc n client addresses m vlog t ≡ (done m, t))
          × (SentBy eth addresses vlog → already_fetched m vlog.tx_hash ≡ true))
        ⊎ ((already_fetched m vlog.tx_hash ≡ false)
            × SentBy eth addresses vlog
            × (prefetch_one eth usdc n client addresses m vlog t ≡ (
              done ((vlog.tx_hash, received (n.transaction_receipt t client vlog.tx_hash)) ∷ m),
              get_receipt client vlog.tx_hash ∷ t,
            )))
  unfolding prefetch_one fetch_receipt
  prefetch_one_lem m vlog t ((from, is_from), to) =
      elim (Bool-cases (already_fetched m vlog.tx_hash)) [
        | inl old ↦ inl (rw old, λ _. old)
        | inr new ↦ elim (Bool-cases (has_address addresses from)) [
          | inl monitored ↦ inr (
            new,
            (from, is_from, monitored),
            elim (Result-cases (n.transaction_receipt t client vlog.tx_hash)) [
              | inl (r, answer) ↦ rw (new, is_from, monitored, answer)
              | inr (e, answer) ↦ rw (new, is_from, monitored, answer)
            ],
          )
          | inr other ↦ inl (rw (new, is_from, other), λ s. let (from', at, monitored) = s in cc)
        ]
      ]

  -- What the loop over the logs has done when it started with the map m and ended with m', having
  -- asked for the receipts of hs.
  pub record Prefetched (m : Receipts) (logs : List Log) (t : Trace) (hs : List Hash)
      (m' : Receipts) : Type 0 where
    pub distinct : Distinct hs
    pub new : All (λ h. already_fetched m h ≡ false) hs
    pub sent : All (IsSent eth addresses logs) hs
    pub covered :
        All (λ vlog. SentBy eth addresses vlog → already_fetched m' vlog.tx_hash ≡ true) logs
    pub answered : Holds m' hs t
    pub kept :
        (h : Hash)
        → already_fetched m h ≡ true
        → (already_fetched m' h ≡ true) × (receipt_at m' h ≡ receipt_at m h)
    pub exact :
        (h : Hash)
        → already_fetched m h ≡ false
        → has_address hs h ≡ false
        → already_fetched m' h ≡ false

  skipped :
      (m : Receipts) (vlog : Log) (logs : List Log) (t : Trace) (hs : List Hash) (m' : Receipts)
      → (SentBy eth addresses vlog → already_fetched m vlog.tx_hash ≡ true)
      → Prefetched m logs t hs m'
      → Prefetched m (vlog ∷ logs) t hs m'
  skipped m vlog logs t hs m' no_need p = record {
    distinct = p.distinct;
    new = p.new;
    sent = All-mono _ _ hs (λ h s. inr s) p.sent;
    covered = (λ s. (p.kept vlog.tx_hash (no_need s)).0, p.covered);
    answered = p.answered;
    kept = p.kept;
    exact = p.exact;
  }

  fetched :
      (m : Receipts) (vlog : Log) (logs : List Log) (t : Trace) (hs : List Hash) (m' : Receipts)
      → already_fetched m vlog.tx_hash ≡ false
      → SentBy eth addresses vlog
      → let h = vlog.tx_hash in
        Prefetched
          ((h, received (n.transaction_receipt t client h)) ∷ m)
          logs
          (get_receipt client h ∷ t)
          hs
          m'
        → Prefetched m (vlog ∷ logs) t (vlog.tx_hash ∷ hs) m'
  fetched m vlog logs t hs m' absent by p =
      let h = vlog.tx_hash in
      let r = received (n.transaction_receipt t client h) in
      let own = p.kept h (already_fetched_self h r m) in
      record {
        distinct = (absent-Distinct h r m hs p.new, p.distinct);
        new = (absent, All-mono _ _ hs (λ k a. (already_fetched-cons h r m k a).1) p.new);
        sent = (inl (refl, by), All-mono _ _ hs (λ h s. inr s) p.sent);
        covered = (λ _. own.0, p.covered);
        answered = (own.1 ∙ receipt_at_self h r m, p.answered);
        kept = λ k old.
            let ne : h ≢ k = λ e. cc in
            let later = p.kept k (already_fetched_ne h r m k ne ∙ old) in
            (later.0, later.1 ∙ receipt_at_ne h r m k ne);
        exact = λ k old none_asked.
            let (ne, others) = has_address-cons h hs k none_asked in
            p.exact k (already_fetched_ne h r m k ne ∙ old) others;
      }

  prefetch_from_lem :
      (m : Receipts) (logs : List Log) (t : Trace)
      → All (HasTopics eth) logs
      → (hs : List Hash) × (m' : Receipts) × (prefetch eth usdc n client addresses m logs t
          ≡ (done m', asked client hs t))
        × Prefetched m logs t hs m'
  unfolding prefetch
  prefetch_from_lem m [] t topics = (
    [],
    m,
    refl,
    record {
      distinct = tt;
      new = tt;
      sent = tt;
      covered = tt;
      answered = tt;
      kept = λ h old. (old, refl);
      exact = λ h old _. old;
    },
  )
  prefetch_from_lem m (vlog ∷ logs) t (first, others) = elim (prefetch_one_lem m vlog t first) [
    | inl (run, no_need) ↦
        let (hs, m', runs, p) = prefetch_from_lem m logs t others in
        (
          hs,
          m',
          bind_done (prefetch_one eth usdc n client addresses m vlog)
                (λ m. prefetch eth usdc n client addresses m logs) t run
              ∙ runs,
          skipped m vlog logs t hs m' no_need p,
        )
    | inr (absent, by, run) ↦
        let h = vlog.tx_hash in
        let m1 = (h, received (n.transaction_receipt t client h)) ∷ m in
        let (hs, m', runs, p) = prefetch_from_lem m1 logs (get_receipt client h ∷ t) others in
        (
          h ∷ hs,
          m',
          bind_done (prefetch_one eth usdc n client addresses m vlog)
                (λ m. prefetch eth usdc n client addresses m logs) t run
              ∙ runs,
          fetched m vlog logs t hs m' absent by p,
        )
  ]

  absent-none : (m : Receipts) (h : Hash) → already_fetched m h ≡ false → receipt_at m h ≡ none
  unfolding already_fetched receipt_at
  absent-none [] h absent = refl
  absent-none ((k, r) ∷ m) h absent = ground (arith, absent-none m h)

  present-asked :
      (logs : List Log) (t : Trace) (hs : List Hash) (m' : Receipts)
      → Prefetched [] logs t hs m'
      → (h : Hash) → already_fetched m' h ≡ true
      → has_address hs h ≡ true
  unfolding already_fetched
  present-asked logs t hs m' p h present = elim (Bool-cases (has_address hs h)) [
    | inl asked_for ↦ asked_for
    | inr not_asked ↦ let absent = p.exact h refl not_asked in cc
  ]

  -- If every log has its topics, the loop returns. The receipts that it asks for are those of the
  -- transactions with a log that a monitored wallet sent, each of them once. The map gives the
  -- node's answer for each of these, nil where the node failed, and nil for any other transaction.
  pub prefetch_lem :
      (logs : List Log) (t : Trace)
      → All (HasTopics eth) logs
      → (hs : List Hash) × (m : Receipts) × (prefetch eth usdc n client addresses [] logs t
          ≡ (done m, asked client hs t))
        × Distinct hs
        × All (IsSent eth addresses logs) hs
        × All (λ vlog. SentBy eth addresses vlog → has_address hs vlog.tx_hash ≡ true) logs
        × Holds m hs t
        × ((h : Hash) → has_address hs h ≡ false → receipt_at m h ≡ none)
  unfolding already_fetched
  prefetch_lem logs t topics =
      let (hs, m, run, p) = prefetch_from_lem [] logs t topics in
      (
        hs,
        m,
        run,
        p.distinct,
        p.sent,
        All-mono _ _ logs (λ vlog found by. present-asked logs t hs m p vlog.tx_hash (found by))
            p.covered,
        p.answered,
        λ h not_asked. absent-none m h (p.exact h refl not_asked),
      )
