-- ===== src/Tests/Transferring.antt =====
-- Three Transfer logs: a mint, a transfer between monitored wallets, and one of strangers.
use chain_ops.Common.{◌≡◌, refl, inl, List, [], ◌∷◌, none, some, true, false, All, map}
use chain_ops.Common.Text.{codes}
use chain_ops.Schema.{Asset}
use chain_ops.Chain.{Address, Hash, Log, Block}
use chain_ops.World.{ok, Node, done, panic}
use chain_ops.Txn.{has_address}
use chain_ops.Usdc.{Usdc, Receipts, topic, receipt_at, log_events, prefetch, collect_usdc_events}
use chain_ops.Usdc.Direction.{involved, expected_event, log_events_lem}
use chain_ops.Usdc.Receipts.{HasTopics, SentBy, IsSent, Distinct, Holds, asked, prefetch_lem}
use chain_ops.Usdc.Events.{Answers, collect_usdc_events_lem}
use chain_ops.Usdc.Panics.{collect_usdc_events_lacking}
use chain_ops.Tests.Collecting.{eth, node as quiet_node, block_of, receipt, wallets}

abbrev asset : Asset
asset = record { asset_type = codes "ERC20"; symbol = codes "USDC"; contract_address = codes "0x4" }

abbrev usdc : Usdc
usdc = record { address = 4; asset = some asset }

abbrev log : Hash → Address → Address → Log
log h from to = record {
  tx_hash = h;
  topics = 9 ∷ from ∷ to ∷ [];
  payload = 1 ∷ 0 ∷ [];
  index = 0;
  tx_index = 0;
}

abbrev logs : List Log
logs = log 5 0 1 ∷ log 6 1 2 ∷ log 6 1 1 ∷ log 7 8 9 ∷ []

abbrev node : Node
node = record quiet_node { filter_logs = λ _ _ _. ok logs }

abbrev block : Block
block = block_of []

logs-HasTopics : All (HasTopics eth) logs
unfolding topic
logs-HasTopics = (
  ((0, refl), (1, refl)),
  (((1, refl), (2, refl)), (((1, refl), (1, refl)), (((8, refl), (9, refl)), tt))),
)

log_events_lem_example :
    log_events eth usdc (log 6 1 2) 1 2 (some receipt) wallets
    ≡ map (expected_event eth usdc (log 6 1 2) 1 2 (some receipt)) (involved 1 2 wallets)
log_events_lem_example = log_events_lem eth usdc (log 6 1 2) 1 2 (some receipt) wallets

prefetch_lem_example :
    (hs : List Hash) × (m : Receipts) × (prefetch eth usdc node 0 wallets [] logs []
      ≡ (done m, asked 0 hs []))
    × Distinct hs
    × All (IsSent eth wallets logs) hs
    × All (λ vlog. SentBy eth wallets vlog → has_address hs vlog.tx_hash ≡ true) logs
    × Holds eth usdc node 0 wallets m hs []
    × ((h : Hash) → has_address hs h ≡ false → receipt_at m h ≡ none)
prefetch_lem_example = prefetch_lem eth usdc node 0 wallets logs [] logs-HasTopics

collect_usdc_events_lem_example :
    Answers eth usdc node 0 block wallets []
      (ok logs)
      (collect_usdc_events eth usdc node 0 block wallets [])
collect_usdc_events_lem_example = collect_usdc_events_lem eth usdc node 0 block wallets [] (cc) (cc)

-- A log with its signature topic only.
abbrev bare_log : Log
bare_log = record (log 5 0 1) { topics = 9 ∷ [] }

collect_usdc_events_lacking_example :
    (collect_usdc_events eth usdc
      (record node { filter_logs = λ _ _ _. ok (log 5 0 1 ∷ bare_log ∷ []) })
      0
      block
      wallets
      []).0
    ≡ panic
unfolding topic
collect_usdc_events_lacking_example =
    collect_usdc_events_lacking eth usdc
      (record node { filter_logs = λ _ _ _. ok (log 5 0 1 ∷ bare_log ∷ []) }) 0 block 1 (2 ∷ [])
      (log 5 0 1 ∷ []) [] bare_log asset [] refl (inl refl) refl
