-- ===== src/Usdc/Panics.antt =====
-- The panic of the USDC collector: a log without its two indexed topics.
use chain_ops.Common.{◌≡◌, ◌∙◌, ap, ◌⊎◌, inl, inr, List, [], ◌∷◌, ◌++◌, Option, none, some}
use chain_ops.Schema.{Asset, ActivityEvent}
use chain_ops.Chain.{Address, Log, Block, Eth, Receipt}
use chain_ops.World.{
  ok, Client, Node, get_logs, Trace, panic, M, pure, or_crash, bind_panic, bind_panic_after, ◌>>=◌,
}
use chain_ops.Usdc.{
  Usdc, Receipts, topic, receipt_at, log_events, collect_usdc_log_events, prefetch, all_log_events,
  transfer_query, query_logs, collect_usdc_events,
}
use chain_ops.Usdc.Events.{collect_usdc_events_enabled}

-- The log has no sender or no receiver.
abbrev pub Lacks : Eth → Log → Type 0
Lacks eth vlog = (topic eth vlog 1 ≡ none) ⊎ (topic eth vlog 2 ≡ none)

crashed : {A : Type 0} (o : Option A) (t : Trace) → o ≡ none → (or_crash o t).0 ≡ panic
crashed o t h = ap (λ x. (or_crash x t).0) h

module _ (eth : Eth) (usdc : Usdc) (n : Node) (client : Client) (vlog : Log)
    (lacks : Lacks eth vlog) (addresses : List Address) where
  log-panic :
      (r : Option Receipt) (t : Trace)
      → (collect_usdc_log_events eth usdc vlog addresses r t).0 ≡ panic
  unfolding collect_usdc_log_events
  log-panic r t =
      let last : Address → Address → M (List ActivityEvent) =
        λ from to. pure (log_events eth usdc vlog from to r addresses) in
      let rest : Address → M (List ActivityEvent) =
        λ from. or_crash (topic eth vlog 2) >>= last from in
      elim lacks [
        | inl no_sender ↦
            bind_panic (or_crash (topic eth vlog 1)) rest t (crashed (topic eth vlog 1) t no_sender)
        | inr no_receiver ↦ bind_panic_after (or_crash (topic eth vlog 1)) rest t (λ from t'.
            bind_panic (or_crash (topic eth vlog 2)) (last from) t'
              (crashed (topic eth vlog 2) t' no_receiver))
      ]

  logs-panic :
      (m : Receipts) (earlier later : List Log) (t : Trace)
      → (all_log_events eth usdc n client addresses m (earlier ++ vlog ∷ later) t).0 ≡ panic
  unfolding all_log_events
  logs-panic m [] later t =
      bind_panic (collect_usdc_log_events eth usdc vlog addresses (receipt_at m vlog.tx_hash))
        (λ es. all_log_events eth usdc n client addresses m later >>= λ more. pure (es ++ more)) t
        (log-panic (receipt_at m vlog.tx_hash) t)
  logs-panic m (x ∷ earlier) later t =
      let rest = earlier ++ vlog ∷ later in
      bind_panic_after (collect_usdc_log_events eth usdc x addresses (receipt_at m x.tx_hash))
        (λ es. all_log_events eth usdc n client addresses m rest >>= λ more. pure (es ++ more)) t
        (λ es t'.
          bind_panic (all_log_events eth usdc n client addresses m rest) (λ more. pure (es ++ more))
            t' (logs-panic m earlier later t'))

-- With a USDC asset and a monitored address, an answer of the node in which one log has no sender
-- or no receiver topic panics the collector, whatever the other logs are, and whatever receipts the
-- node gives.
pub collect_usdc_events_lacking :
    (eth : Eth) (usdc : Usdc) (n : Node) (client : Client) (block : Block) (a : Address)
    (addresses : List Address) (earlier later : List Log) (vlog : Log) (asset : Asset) (t : Trace)
    → usdc.asset ≡ some asset
    → Lacks eth vlog
    → n.filter_logs t client (transfer_query eth usdc block) ≡ ok (earlier ++ vlog ∷ later)
    → (collect_usdc_events eth usdc n client block (a ∷ addresses) t).0 ≡ panic
unfolding query_logs
collect_usdc_events_lacking eth usdc n client block a addresses earlier later vlog asset t on lacks
      got =
    let logs = earlier ++ vlog ∷ later in
    enabled
    ∙ answered (
        bind_panic_after (prefetch eth usdc n client (a ∷ addresses) [] logs)
          (λ m. all_log_events eth usdc n client (a ∷ addresses) m logs)
          (get_logs client (transfer_query eth usdc block) ∷ t)
          (λ m t'. logs-panic eth usdc n client vlog lacks (a ∷ addresses) m earlier later t'))
  where
    enabled :
        (collect_usdc_events eth usdc n client block (a ∷ addresses) t).0
        ≡ (query_logs eth usdc n client block (a ∷ addresses) t).0
    enabled =
        ap (λ r. r.0)
          (collect_usdc_events_enabled eth usdc n client block (a ∷ addresses) t (λ unset. cc)
            (λ empty. cc))

    answered :
        ((prefetch eth usdc n client (a ∷ addresses) [] (earlier ++ vlog ∷ later) >>= λ m.
        all_log_events eth usdc n client (a ∷ addresses) m (earlier ++ vlog ∷ later))
            (get_logs client (transfer_query eth usdc block) ∷ t)).0
          ≡ panic
        → (query_logs eth usdc n client block (a ∷ addresses) t).0 ≡ panic
    answered h = rw got h
