-- ===== src/Main/Ways.antt =====
-- The ways of main's start sequence, as a big-step relation: which exit has which cause, and what
-- was called before it.
use chain_ops.Common.{◌≡◌, ◌≢◌, [], ◌∷◌, none, some}
use chain_ops.Common.Text.{Text}
use chain_ops.World.{
  Error, ok, err, read_file, new_pool, ping_pool, connect_nats, open_jetstream, close_nats, sql,
  select_network, Trace,
}
use chain_ops.Config.{ListenerConfig}
use chain_ops.Publisher.Connect.{connect_failed, context_failed}
use chain_ops.Db.Pool.{pool_failed, unreachable, dsn}
use chain_ops.Main.{
  Process, config_failed, database_failed, network_failed, publisher_failed, Started, stopped,
  set_up,
}

module _ (proc : Process) (path : Text) (t : Trace) where
  -- The file decodes to this configuration, with the network in lower case.
  abbrev pub Loads : ListenerConfig → Type 0
  Loads cfg =
      (bytes : Text) × (raw : ListenerConfig) × (proc.files.read t path ≡ ok bytes)
      × (proc.files.unmarshal bytes ≡ ok raw)
      × (cfg ≡ record raw { network = proc.files.to_lower raw.network })

  abbrev pub loaded : Trace
  loaded = read_file path ∷ t

  abbrev pub pooled : ListenerConfig → Trace
  pooled cfg = new_pool (dsn cfg.database) ∷ loaded

  abbrev pub pinged : ListenerConfig → Trace
  pinged cfg = ping_pool ∷ pooled cfg

  abbrev pub looked_up : ListenerConfig → Trace
  looked_up cfg = sql (select_network cfg.network) ∷ pinged cfg

  abbrev pub connected : ListenerConfig → Trace
  connected cfg = connect_nats cfg.publisher.nats_url ∷ looked_up cfg

  abbrev pub in_context : ListenerConfig → Trace
  in_context cfg = open_jetstream ∷ connected cfg

  -- The database is connected.
  abbrev pub Reached : ListenerConfig → Type 0
  Reached cfg =
      Loads cfg
      × (proc.pool.create loaded (dsn cfg.database) ≡ none)
      × (proc.pool.ping (pooled cfg) ≡ none)

  -- The network has this ID.
  abbrev pub Found : ListenerConfig → Text → Type 0
  Found cfg id =
      Reached cfg × (proc.env.db.scan_text (pinged cfg) (select_network cfg.network) ≡ ok id)

  -- The ways of the start sequence: each failure of a step, and the two ways to its end.
  pub data Starts : Started → Trace → Type 0 where
    unread :
        (e : Error) → proc.files.read t path ≡ err e → Starts (stopped (config_failed e)) loaded
    undecoded :
        (bytes : Text) (e : Error)
        → proc.files.read t path ≡ ok bytes
        → proc.files.unmarshal bytes ≡ err e
        → Starts (stopped (config_failed e)) loaded
    no_pool :
        (cfg : ListenerConfig) (e : Error)
        → Loads cfg
        → proc.pool.create loaded (dsn cfg.database) ≡ some e
        → Starts (stopped (database_failed (pool_failed e))) (pooled cfg)
    no_ping :
        (cfg : ListenerConfig) (e : Error)
        → Loads cfg
        → proc.pool.create loaded (dsn cfg.database) ≡ none
        → proc.pool.ping (pooled cfg) ≡ some e
        → Starts (stopped (database_failed (unreachable e))) (pinged cfg)
    no_network :
        (cfg : ListenerConfig) (e : Error)
        → Reached cfg
        → proc.env.db.scan_text (pinged cfg) (select_network cfg.network) ≡ err e
        → Starts (stopped (network_failed e)) (looked_up cfg)
    no_connection :
        (cfg : ListenerConfig) (id : Text) (e : Error)
        → Found cfg id
        → cfg.publisher.nats_url ≢ []
        → proc.nats.connect (looked_up cfg) cfg.publisher.nats_url ≡ some e
        → Starts
            (stopped (publisher_failed (connect_failed cfg.publisher.nats_url e)))
            (connected cfg)
    no_context :
        (cfg : ListenerConfig) (id : Text) (e : Error)
        → Found cfg id
        → cfg.publisher.nats_url ≢ []
        → proc.nats.connect (looked_up cfg) cfg.publisher.nats_url ≡ none
        → proc.nats.jetstream (connected cfg) ≡ some e
        → Starts (stopped (publisher_failed (context_failed e))) (close_nats ∷ in_context cfg)
    without_publisher :
        (cfg : ListenerConfig) (id : Text)
        → Found cfg id
        → cfg.publisher.nats_url ≡ []
        → Starts
            (set_up (record { config = cfg; network_id = id; publisher = none }))
            (looked_up cfg)
    with_publisher :
        (cfg : ListenerConfig) (id : Text)
        → Found cfg id
        → cfg.publisher.nats_url ≢ []
        → proc.nats.connect (looked_up cfg) cfg.publisher.nats_url ≡ none
        → proc.nats.jetstream (connected cfg) ≡ none
        → Starts
            (set_up (record {
              config = cfg;
              network_id = id;
              publisher = some (record { subject = cfg.publisher.subject });
            }))
            (in_context cfg)
