-- ===== src/Usdc/Frame.antt =====
-- The collector of USDC transfers makes no statement.
use chain_ops.Common.{
  refl, ◌∙◌, inl, inr, List, [], ◌∷◌, ◌++◌, Option, Bool-cases, Option-cases, if◌then◌else◌,
}
use chain_ops.Schema.{ActivityEvent}
use chain_ops.Chain.{Address, Hash, Receipt, Log, Block, Eth}
use chain_ops.World.{
  Result-cases, Client, Node, get_receipt, get_logs, Trace, M, pure, or_crash, ◌>>=◌,
}
use chain_ops.World.Frame.{SeesSql, Keeps, Keeps-bind, Keeps-or_crash, then-Keeps}
use chain_ops.Txn.{has_address}
use chain_ops.Usdc.{
  Usdc, Receipts, topic, already_fetched, receipt_at, log_events, collect_usdc_log_events,
  fetch_receipt, prefetch_one, prefetch, all_log_events, transfer_query, query_logs,
  collect_usdc_events,
}

module _ {ℓ} {S : Type ℓ} (view : Trace → S) (sees : SeesSql view) where
  module _ (eth : Eth) (usdc : Usdc) (n : Node) (client : Client) (addresses : List Address) where
    fetch_receipt-Keeps :
        (m : Receipts) (h : Hash) → Keeps view (fetch_receipt eth usdc n client m h)
    unfolding fetch_receipt
    fetch_receipt-Keeps m h t = elim (Result-cases (n.transaction_receipt t client h)) [
      | inl (r, got) ↦ rw (got, fetch_receipt) (sees (get_receipt client h) t refl)
      | inr (e, failed) ↦ rw (failed, fetch_receipt) (sees (get_receipt client h) t refl)
    ]

    prefetch_one-Keeps :
        (m : Receipts) (vlog : Log) → Keeps view (prefetch_one eth usdc n client addresses m vlog)
    unfolding prefetch_one
    prefetch_one-Keeps m vlog t =
        let fetch : Address → M Receipts = λ from.
          if has_address addresses from
          then fetch_receipt eth usdc n client m vlog.tx_hash
          else pure m in
        elim (Bool-cases (already_fetched m vlog.tx_hash)) [
          | inl known ↦ rw known refl
          | inr new ↦ rw new (
              Keeps-bind view (or_crash (topic eth vlog 1)) fetch
                (Keeps-or_crash view (topic eth vlog 1))
                (λ from t. elim (Bool-cases (has_address addresses from)) [
                  | inl ours ↦ rw ours (fetch_receipt-Keeps m vlog.tx_hash t)
                  | inr other ↦ rw other refl
                ])
                t)
        ]

    prefetch-Keeps :
        (m : Receipts) (logs : List Log) → Keeps view (prefetch eth usdc n client addresses m logs)
    unfolding prefetch
    prefetch-Keeps m [] = λ t. refl
    prefetch-Keeps m (vlog ∷ rest) =
        Keeps-bind view (prefetch_one eth usdc n client addresses m vlog)
          (λ m'. prefetch eth usdc n client addresses m' rest) (prefetch_one-Keeps m vlog)
          (λ m'. prefetch-Keeps m' rest)

    log_events-Keeps :
        (vlog : Log) (r : Option Receipt)
        → Keeps view (collect_usdc_log_events eth usdc vlog addresses r)
    unfolding collect_usdc_log_events
    log_events-Keeps vlog r =
        let events : Address → Address → M (List ActivityEvent) =
          λ from to. pure (log_events eth usdc vlog from to r addresses) in
        Keeps-bind view (or_crash (topic eth vlog 1))
          (λ from. or_crash (topic eth vlog 2) >>= events from)
          (Keeps-or_crash view (topic eth vlog 1))
          (λ from.
            Keeps-bind view (or_crash (topic eth vlog 2)) (events from)
              (Keeps-or_crash view (topic eth vlog 2)) (λ to t. refl))

    all_log_events-Keeps :
        (m : Receipts) (logs : List Log)
        → Keeps view (all_log_events eth usdc n client addresses m logs)
    unfolding all_log_events
    all_log_events-Keeps m [] = λ t. refl
    all_log_events-Keeps m (vlog ∷ rest) =
        then-Keeps view
          (collect_usdc_log_events eth usdc vlog addresses (receipt_at m vlog.tx_hash))
          (all_log_events eth usdc n client addresses m rest) ◌++◌
          (log_events-Keeps vlog (receipt_at m vlog.tx_hash)) (all_log_events-Keeps m rest)

    query_logs-Keeps : (block : Block) → Keeps view (query_logs eth usdc n client block addresses)
    unfolding query_logs
    query_logs-Keeps block t =
        let query = transfer_query eth usdc block in
        let asked = sees (get_logs client query) t refl in
        elim (Result-cases (n.filter_logs t client query)) [
          | inr (e, failed) ↦ rw (failed, query_logs) asked
          | inl (logs, got) ↦
              rw (got, query_logs)
                (Keeps-bind view (prefetch eth usdc n client addresses [] logs)
                    (λ m. all_log_events eth usdc n client addresses m logs)
                    (prefetch-Keeps [] logs) (λ m. all_log_events-Keeps m logs)
                    (get_logs client query ∷ t)
                  ∙ asked)
        ]

    pub collect_usdc_events-Keeps :
        (block : Block) → Keeps view (collect_usdc_events eth usdc n client block addresses)
    unfolding collect_usdc_events
    collect_usdc_events-Keeps block = by_list addresses (query_logs-Keeps block)
      where
        by_list :
            (l : List Address)
            → Keeps view (query_logs eth usdc n client block l)
            → Keeps view (collect_usdc_events eth usdc n client block l)
        by_list [] _ t = refl
        by_list (a ∷ l) queried t = elim (Option-cases usdc.asset) [
          | inl off ↦ rw (off, collect_usdc_events) refl
          | inr (asset, on) ↦ rw (on, collect_usdc_events) (queried t)
        ]
