-- ===== src/Tests/Starting.antt =====
-- A process with a configuration file, and one whose database does not answer.
use chain_ops.Common.{
  map, leb, ◌&&◌, ◌+◌, if◌then◌else◌, ℕ, ◌*◌, ◌≤◌, ◌≡◌, refl, [], ◌∷◌, ◌++◌, none, some, true,
  arith,
}
use chain_ops.Common.Int.{pos, pos_part}
use chain_ops.Common.Text.{codes, text_eq}
use chain_ops.World.{ok, Trace, dial, get_chain_id, sql, close_session, done}
use chain_ops.Config.{ListenerConfig, decode, load}
use chain_ops.Publisher.Connect.{new_publisher}
use chain_ops.Providers.{connect_evm, connect_from}
use chain_ops.Db.{to_block, get_network_id_by_key}
use chain_ops.Db.Pool.{connect}
use chain_ops.Listener.{new_evm_listener}
use chain_ops.Listener.Quiet.{fetched}
use chain_ops.Listener.Scan.{countdown, last_of}
use chain_ops.Listener.Session.{first_block}
use chain_ops.Main.{
  Process, Started, finished, Setup, set_up, open_publisher, find_network, connect_database, start,
  listener_of, main,
}
use chain_ops.Main.Sequence.{start-Starts}
use chain_ops.Main.Ways.{Starts, in_context}
use chain_ops.Main.Whole.{drained, main_covers}
use chain_ops.Tests.Collecting.{no_answer}
use chain_ops.Tests.Listening.{env, provider, env-IsOrderly, env-HasWallets}

abbrev config : ListenerConfig
config = record {
  network = codes "sepolia";
  rpc_urls = codes "u" ∷ [];
  native_asset = codes "ETH";
  safe_block_buffer = pos 12;
  max_blocks_per_tick = pos 5;
  evm_block_listen = true;
  usdc_listen = true;
  known_token_contracts = [];
  publisher = record { nats_url = codes "n"; subject = codes "s" };
  database = record {
    host = codes "h";
    port = pos 5432;
    user = codes "u";
    password = codes "p";
    db_name = codes "d";
    ssl_mode = codes "m";
    timezone = codes "UTC";
  };
}

abbrev process : Process
process = record {
  files = record {
    read = λ _ path. ok path;
    unmarshal = λ _. ok (record config { network = codes "Sepolia" });
    to_lower = map (λ (b : ℕ). if leb 65 b && leb b 90 then b + 32 else b);
  };
  pool = record { create = λ _ _. none; ping = λ _. none };
  nats = record { connect = λ _ _. none; jetstream = λ _. none; drain = λ _. none };
  env = env;
}

abbrev silent : Process
silent = record process { pool = record { create = λ _ _. none; ping = λ _. some no_answer } }

abbrev setup : Setup
setup = record {
  config = config;
  network_id = codes "id";
  publisher = some (record { subject = codes "s" });
}

abbrev ready : Trace
ready = in_context process (codes "a.yml") [] config

started : start process (codes "a.yml") [] ≡ (done (set_up setup), ready)
unfolding start load decode connect_database connect find_network get_network_id_by_key
    open_publisher new_publisher text_eq
started = refl

start-Starts_example :
    (r : Started) × (t2 : Trace) × (start silent (codes "a.yml") [] ≡ (done r, t2))
    × Starts silent (codes "a.yml") [] r t2
start-Starts_example = start-Starts silent (codes "a.yml") []

main_covers_example :
    let el = listener_of process setup in
    let f = first_block env el 100 in
    (k : ℕ) × (t3 : Trace) × (main process 3 (codes "a.yml") [] ≡ (
      done finished,
      drained setup.publisher
          (sql (close_session (codes "id") (to_block env.db (last_of f k none))) ∷ t3),
    ))
    × (fetched env.node t3 ≡ countdown f k ++ [])
    × (k ≤ 3 * pos_part el.max_blocks_per_tick)
unfolding connect_evm connect_from text_eq new_evm_listener
main_covers_example =
    main_covers process (codes "a.yml") [] setup ready started refl (codes "u") [] refl
      (provider ∷ []) (get_chain_id 0 ∷ dial (codes "u") ∷ ready) refl 100 (codes "id") (λ _. refl)
      (λ _. refl) refl (env-IsOrderly (listener_of process setup)) (omega arith, omega arith)
      (env-HasWallets (listener_of process setup)) 3
