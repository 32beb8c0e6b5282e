-- ===== src/Tests/Listening.antt =====
-- A listener with one wallet and one provider, on a node whose blocks hold one transfer.
use chain_ops.Common.{
  inl, ℕ, ◌*◌, ◌≤◌, ◌≡◌, refl, subst, inr, List, [], ◌∷◌, ◌++◌, none, some, All, true, arith,
  length,
}
use chain_ops.Common.Int.{pos, ◌+ℤ◌, ◌-ℤ◌}
use chain_ops.Common.Text.{codes, text_eq}
use chain_ops.Chain.{Block, Log}
use chain_ops.World.{Result, ok, Node, Broker, Trace, sql, close_session, done}
use chain_ops.Providers.{healthy, EvmProvider, get_healthy_client}
use chain_ops.Txn.Expected.{HasSelector}
use chain_ops.Usdc.Receipts.{HasTopics}
use chain_ops.Db.{IndexedAddress, Database, to_block, scan_rows, get_indexed_address_to_monitor}
use chain_ops.Listener.{EvmListener, RunState, Env, rounds, scan_blocks, tick, ticks, run}
use chain_ops.Listener.Quiet.{fetched, IsOrderly}
use chain_ops.Listener.Scan.{countdown, last_of, scanned, Stops, scan_blocks_lem}
use chain_ops.Listener.Advance.{Resumes, Advances}
use chain_ops.Listener.Range.{range_size, HasLimit}
use chain_ops.Listener.Ticks.{HasWallets, Moves, tick-Moves, ticks-Advances}
use chain_ops.Listener.Health.{Holds, Sane, ticks-Sane}
use chain_ops.Listener.Progress.{tick_scans}
use chain_ops.Listener.Session.{first_block, run_covers}
use chain_ops.Tests.Collecting.{eth, asset, node as quiet_node, block_of, transfer}

abbrev pub node : Node
node = record quiet_node { block_by_number = λ _ _ _. ok (block_of (transfer ∷ [])) }

abbrev broker : Broker
broker = record { publish = λ _ _. none; time_text = λ _. ok (codes "t"); print = λ _. codes "{}" }

abbrev pub wallet : IndexedAddress
wallet = record {
  wallet_address = codes "1";
  network_id = codes "net";
  active_subscriber_count = pos 1;
}

abbrev pub db : Database
db = record {
  exec = λ _ _. none;
  scan_text = λ _ _. ok (codes "id");
  scan_int64 = λ _ _. ok (pos 0);
  query_wallets = λ _ _. ok (record { items = ok wallet ∷ []; rows_err = none });
}

abbrev pub env : Env
env = record { eth = eth; node = node; broker = broker; db = db; now = length }

abbrev pub listener : EvmListener
listener = record {
  eth_asset = asset;
  usdc = record { address = 4; asset = none };
  safe_block_buffer = pos 12;
  max_blocks_per_tick = pos 5;
  usdc_listen = true;
  network_id = codes "net";
  known_contracts = [];
  publisher = some (record { subject = codes "s" });
}

abbrev pub provider : EvmProvider
provider = record {
  url = codes "u";
  client = 0;
  failure_count = pos 0;
  chain_id = 1;
  status = healthy;
}

abbrev pub state : RunState
state = record {
  providers = provider ∷ [];
  next_provider_retry = 100;
  last_block = some (pos 79);
  from_block = some (pos 80);
  session_id = codes "id";
}

state-Resumes : Resumes state (pos 80)
unfolding ◌+ℤ◌
state-Resumes = (refl, inr (pos 79, refl, refl))

pub env-IsOrderly : (el : EvmListener) → IsOrderly env el
env-IsOrderly el = (
  λ client t h r answered. ground arith,
  λ t client b block got.
      subst (λ (b : Block). All HasSelector b.transactions) (same block got) (omega arith),
  λ t client q logs got. subst (All (HasTopics eth)) (no_log logs got) tt,
)
  where
    same :
        (block : Block)
        → node.block_by_number [] 0 (pos 0) ≡ ok block
        → block_of (transfer ∷ []) ≡ block
    same block got = cc

    no_log : (logs : List Log) → ◌≡◌ {A = Result (List Log)} (ok []) (ok logs) → [] ≡ logs
    no_log logs got = cc

pub listener-HasLimit : HasLimit env listener
listener-HasLimit = (omega arith, omega arith)

pub env-HasWallets : (el : EvmListener) → HasWallets env el
unfolding get_indexed_address_to_monitor scan_rows
env-HasWallets el t empty = cc

scan_blocks_lem_example :
    (k : ℕ) × (ps : List EvmProvider) × (t' : Trace) × (scan_blocks env listener 5 0 0
        (1 ∷ [])
        (pos 80)
        (pos 84)
        state
        []
      ≡ (done (scanned state (pos 80) k ps), t'))
    × (fetched node t' ≡ countdown (pos 80) k ++ [])
    × Stops node 0 0 (pos 80) k (rounds (pos 80) (pos 84)) (provider ∷ []) ps
unfolding ◌-ℤ◌ ◌+ℤ◌
scan_blocks_lem_example =
    scan_blocks_lem env listener (env-IsOrderly listener) 0 0 1 [] (pos 84) 5 (pos 80) state []
      (omega arith)

tick-Moves_example : Moves env listener (pos 80) state [] (tick env listener state)
tick-Moves_example =
    tick-Moves env listener (env-IsOrderly listener) listener-HasLimit (env-HasWallets listener)
      (pos 80) state [] state-Resumes

ticks-Advances_example :
    (k : ℕ) × (s' : RunState) × (t' : Trace) × (ticks env listener 3 state [] ≡ (done s', t'))
    × Advances node (pos 80) k state [] s' t'
    × (k ≤ 3 * 5)
ticks-Advances_example =
    ticks-Advances env listener (env-IsOrderly listener) listener-HasLimit (env-HasWallets listener)
      3 (pos 80) state [] state-Resumes

run_covers_example :
    (k : ℕ) × (t' : Trace) × (run env listener 3 (provider ∷ []) [] ≡ (
      done tt,
      sql (close_session (codes "id") (to_block db (last_of (first_block env listener 100) k none)))
          ∷ t',
    ))
    × (fetched node t' ≡ countdown (first_block env listener 100) k ++ [])
    × (k ≤ 3 * 5)
unfolding get_healthy_client text_eq
run_covers_example =
    run_covers env listener provider [] 0 0 100 (codes "id") [] refl refl refl
      (env-IsOrderly listener) listener-HasLimit (env-HasWallets listener) refl 3

tick_scans_example :
    (s' : RunState) × (t' : Trace) × (tick env listener state [] ≡ (done s', t'))
    × Advances node (pos 80) (range_size env listener (pos 80) (pos 100 -ℤ pos 12)) state [] s' t'
unfolding get_healthy_client get_indexed_address_to_monitor scan_rows
tick_scans_example =
    tick_scans env listener 0 0 100 state [] refl refl refl (env-IsOrderly listener)
      listener-HasLimit wallet [] refl (λ t b. (block_of (transfer ∷ []), refl)) (pos 80)
      state-Resumes

abbrev lonely : Env
lonely = record env {
  db = record db { query_wallets = λ _ _. ok (record { items = []; rows_err = none }) };
}

ticks-Sane_example : Holds Sane (ticks env listener 3 state []).0
ticks-Sane_example = ticks-Sane env listener 3 state [] (inl (refl, refl), tt)
