-- ===== src/Usdc/Events.antt =====
-- `collectUSDCEvents` as a whole.
use mathlib.Core.Path.{ap₂}
use chain_ops.Common.{
  ℕ, ◌≡◌, ◌≢◌, ◌⊎◌, inl, inr, refl, sym, ◌∙◌, List, [], ◌∷◌, ◌++◌, Option, none, some, true, false,
  All, map, Option-cases,
}
use chain_ops.Schema.{ActivityEvent}
use chain_ops.Chain.{Address, Hash, Receipt, Log, Block, Eth}
use chain_ops.World.{
  Result, ok, err, Client, Node, get_logs, Trace, Outcome, done, pure, bind_done, ◌>>=◌,
}
use chain_ops.Txn.{has_address}
use chain_ops.Usdc.{
  Usdc, topic, Receipts, receipt_at, collect_usdc_log_events, prefetch, all_log_events,
  transfer_query, query_logs, collect_usdc_events,
}
use chain_ops.Usdc.Direction.{involved, expected_event, log_events_lem}
use chain_ops.Usdc.Receipts.{HasTopics, asked, Holds, prefetch_lem, Distinct, IsSent, SentBy}

-- An address topic, where there is one.
abbrev pub topic_or_zero : Eth → Log → ℕ → Address
topic_or_zero eth vlog i = elim (topic eth vlog i) [ none ↦ 0 | some a ↦ a ]

topic_or_zero-some :
    (eth : Eth) (vlog : Log) (i : ℕ) {a : Address}
    → topic eth vlog i ≡ some a
    → topic_or_zero eth vlog i ≡ a
topic_or_zero-some eth vlog i found = rw (found, topic_or_zero)

module _ (eth : Eth) (usdc : Usdc) (addresses : List Address) where
  abbrev pub expect_log : Log → Option Receipt → List ActivityEvent
  expect_log vlog receipt =
      let from = topic_or_zero eth vlog 1 in
      let to = topic_or_zero eth vlog 2 in
      map (expected_event eth usdc vlog from to receipt) (involved from to addresses)

  -- The events of a list of logs, by the receipts in the map.
  abbrev pub expect_logs : Receipts → List Log → List ActivityEvent
  expect_logs m [] = []
  expect_logs m (vlog ∷ logs) = expect_log vlog (receipt_at m vlog.tx_hash) ++ expect_logs m logs

  collect_usdc_log_events_lem :
      (vlog : Log) (receipt : Option Receipt) (t : Trace)
      → HasTopics eth vlog
      → collect_usdc_log_events eth usdc vlog addresses receipt t
        ≡ (done (expect_log vlog receipt), t)
  unfolding collect_usdc_log_events
  collect_usdc_log_events_lem vlog receipt t ((from, is_from), (to, is_to)) =
      (rw (is_from, is_to, log_events_lem eth usdc vlog from to receipt addresses))
      ∙ ap₂
          (λ f g.
            (done (map (expected_event eth usdc vlog f g receipt) (involved f g addresses)), t))
          (sym (topic_or_zero-some eth vlog 1 is_from)) (sym (topic_or_zero-some eth vlog 2 is_to))

  all_log_events_lem :
      (n : Node) (client : Client) (m : Receipts) (logs : List Log) (t : Trace)
      → All (HasTopics eth) logs
      → all_log_events eth usdc n client addresses m logs t ≡ (done (expect_logs m logs), t)
  unfolding all_log_events
  all_log_events_lem n client m [] t topics = refl
  all_log_events_lem n client m (vlog ∷ logs) t (first, others) =
      let r = receipt_at m vlog.tx_hash in
      bind_done (collect_usdc_log_events eth usdc vlog addresses r)
        (λ es. all_log_events eth usdc n client addresses m logs >>= λ more. pure (es ++ more)) t
        (collect_usdc_log_events_lem vlog r t first)
      ∙ bind_done (all_log_events eth usdc n client addresses m logs)
          (λ more. pure (expect_log vlog r ++ more)) t (all_log_events_lem n client m logs t others)

module _ (eth : Eth) (usdc : Usdc) (n : Node) (client : Client) (block : Block)
    (addresses : List Address) (t : Trace) where
  -- Without a USDC asset, and without a monitored address, the collector returns no events and
  -- calls no one.
  pub collect_usdc_events_disabled :
      (usdc.asset ≡ none) ⊎ (addresses ≡ [])
      → collect_usdc_events eth usdc n client block addresses t ≡ (done [], t)
  unfolding collect_usdc_events
  collect_usdc_events_disabled (inr empty) = rw empty
  collect_usdc_events_disabled (inl off) = go addresses
    where
      go : (l : List Address) → collect_usdc_events eth usdc n client block l t ≡ (done [], t)
      go [] = refl
      go (a ∷ l) = rw off

  pub collect_usdc_events_enabled :
      usdc.asset ≢ none
      → addresses ≢ []
      → collect_usdc_events eth usdc n client block addresses t
        ≡ query_logs eth usdc n client block addresses t
  unfolding collect_usdc_events
  collect_usdc_events_enabled on some_address = go addresses some_address
    where
      go :
          (l : List Address)
          → l ≢ []
          → collect_usdc_events eth usdc n client block l t ≡ query_logs eth usdc n client block l t
      go [] ne = absurd (ne refl)
      go (a ∷ l) ne = elim (Option-cases usdc.asset) [
        | inl off ↦ absurd (on off)
        | inr (asset, set) ↦ rw set
      ]

  -- How the collector answers one query: nothing where the node failed, and otherwise the events of
  -- the logs, by receipts that were each asked for once.
  abbrev pub Answers : Result (List Log) → Outcome (List ActivityEvent) × Trace → Type 0
  Answers (err _) run = run ≡ (done [], get_logs client (transfer_query eth usdc block) ∷ t)
  Answers (ok logs) run =
      All (HasTopics eth) logs
      → (hs : List Hash) × (m : Receipts) × (run ≡ (
        done (expect_logs eth usdc addresses m logs),
        asked client hs (get_logs client (transfer_query eth usdc block) ∷ t),
      ))
        × Distinct hs
        × All (IsSent eth addresses logs) hs
        × All (λ vlog. SentBy eth addresses vlog → has_address hs vlog.tx_hash ≡ true) logs
        × Holds eth usdc n client addresses m hs
            (get_logs client (transfer_query eth usdc block) ∷ t)
        × ((h : Hash) → has_address hs h ≡ false → receipt_at m h ≡ none)

  query_logs_lem :
      (answer : Result (List Log))
      → n.filter_logs t client (transfer_query eth usdc block) ≡ answer
      → Answers answer (query_logs eth usdc n client block addresses t)
  unfolding query_logs
  query_logs_lem (err e) failed = rw (failed, query_logs)
  query_logs_lem (ok logs) answered = λ topics.
      let t' = get_logs client (transfer_query eth usdc block) ∷ t in
      let (hs, m, run, distinct, sent, covered, holds, rest) =
        prefetch_lem eth usdc n client addresses logs t' topics in
      (
        hs,
        m,
        rw (answered, query_logs)
            (bind_done (prefetch eth usdc n client addresses [] logs)
                (λ m. all_log_events eth usdc n client addresses m logs) t' run
              ∙ all_log_events_lem eth usdc addresses n client m logs (asked client hs t') topics),
        distinct,
        sent,
        covered,
        holds,
        rest,
      )

  -- With a USDC asset and a monitored address, the collector makes one query, for the Transfer logs
  -- of this block by the USDC contract. It returns no events if that fails. If all logs have
  -- their topics it returns their events, log by log, with the receipts that it asked for: those of
  -- the transactions with a log that a monitored wallet sent, each once, and no other.
  pub collect_usdc_events_lem :
      usdc.asset ≢ none
      → addresses ≢ []
      → Answers
          (n.filter_logs t client (transfer_query eth usdc block))
          (collect_usdc_events eth usdc n client block addresses t)
  collect_usdc_events_lem on some_address =
      rw (collect_usdc_events_enabled on some_address) (query_logs_lem _ refl)
