-- ===== src/Main/Sequence.antt =====
-- The start sequence of main ends in one of its ways.
use chain_ops.Common.{
  ◌≡◌, ◌≢◌, refl, ◌∙◌, inl, inr, [], ◌∷◌, Option, none, some, false, arith, Bool-cases,
  Option-cases,
}
use chain_ops.Common.Text.{Text, text_eq, text_eq_iff}
use chain_ops.World.{
  Result, ok, err, Result-cases, close_nats, select_network, Trace, done, bind_done, pure, M,
}
use chain_ops.Config.{ListenerConfig, decode, load}
use chain_ops.Publisher.Connect.{
  New, created, failed, connect_failed, context_failed, new_publisher,
}
use chain_ops.Db.{get_network_id_by_key}
use chain_ops.Db.Pool.{PoolError, pool_failed, unreachable, dsn, connect}
use chain_ops.Main.{
  Process, config_failed, database_failed, network_failed, publisher_failed, Started, stopped,
  set_up, open_publisher, find_network, connect_database, start,
}
use chain_ops.Main.Ways.{
  Loads, loaded, pooled, pinged, looked_up, connected, in_context, Reached, Found, Starts, unread,
  undecoded, no_pool, no_ping, no_network, no_connection, no_context, without_publisher,
  with_publisher,
}

module _ (proc : Process) (path : Text) (t : Trace) where
  -- The step ends as the relation says.
  abbrev Ends : M Started → Trace → Type 0
  Ends m t' = (r : Started) × (t2 : Trace) × (m t' ≡ (done r, t2)) × Starts proc path t r t2

  open_publisher-Starts :
      (cfg : ListenerConfig) (id : Text)
      → Found proc path t cfg id
      → Ends (open_publisher proc cfg id) (looked_up proc path t cfg)
  unfolding open_publisher new_publisher
  open_publisher-Starts cfg id found = elim (Bool-cases (text_eq url [])) [
    | inl empty ↦ (
      set_up (record { config = cfg; network_id = id; publisher = none }),
      looked_up proc path t cfg,
      rw (empty, open_publisher) refl,
      without_publisher cfg id found ((text_eq_iff url []).0 empty),
    )
    | inr full ↦ elim (Option-cases (proc.nats.connect (looked_up proc path t cfg) url)) [
      | inr (e, refused) ↦ (
        stopped (publisher_failed (connect_failed url e)),
        connected proc path t cfg,
        via (failed (connect_failed url e)) (connected proc path t cfg) full
            (ground (arith, refused)),
        no_connection cfg id e found (named full) refused,
      )
      | inl answered ↦ elim (Option-cases (proc.nats.jetstream (connected proc path t cfg))) [
        | inr (e, refused) ↦ (
          stopped (publisher_failed (context_failed e)),
          close_nats ∷ in_context proc path t cfg,
          via (failed (context_failed e)) (close_nats ∷ in_context proc path t cfg) full
              (ground (arith, answered, refused)),
          no_context cfg id e found (named full) answered refused,
        )
        | inl opened ↦ (
          set_up (record {
            config = cfg;
            network_id = id;
            publisher = some (record { subject = cfg.publisher.subject });
          }),
          in_context proc path t cfg,
          via (created (record { subject = cfg.publisher.subject })) (in_context proc path t cfg)
              full (ground (arith, answered, opened)),
          with_publisher cfg id found (named full) answered opened,
        )
      ]
    ]
  ]
    where
      url : Text
      url = cfg.publisher.nats_url

      via :
          (r : New) (t2 : Trace)
          → text_eq url [] ≡ false
          → new_publisher proc.nats url cfg.publisher.subject (looked_up proc path t cfg)
            ≡ (done r, t2)
          → open_publisher proc cfg id (looked_up proc path t cfg)
            ≡ elim r as (λ _. M Started) [
              | failed e ↦ pure (stopped (publisher_failed e))
              | created p ↦
                  pure (set_up (record { config = cfg; network_id = id; publisher = some p }))
            ]
                t2
      via r t2 full run =
          rw (full, open_publisher)
            (bind_done (new_publisher proc.nats url cfg.publisher.subject)
              (λ r. elim r as (λ _. M Started) [
                | failed e ↦ pure (stopped (publisher_failed e))
                | created p ↦
                    pure (set_up (record { config = cfg; network_id = id; publisher = some p }))
              ])
              (looked_up proc path t cfg) run)

      named : text_eq url [] ≡ false → url ≢ []
      named full empty = cc ((text_eq_iff url []).1 empty, full)

  find_network-Starts :
      (cfg : ListenerConfig)
      → Reached proc path t cfg
      → Ends (find_network proc cfg) (pinged proc path t cfg)
  unfolding find_network get_network_id_by_key
  find_network-Starts cfg reached =
      elim (Result-cases
        (proc.env.db.scan_text (pinged proc path t cfg) (select_network cfg.network))) [
          | inr (e, missing) ↦ (
            stopped (network_failed e),
            looked_up proc path t cfg,
            rw (missing, find_network) refl,
            no_network cfg e reached missing,
          )
          | inl (id, found) ↦
              let (r, t2, run, starts) = open_publisher-Starts cfg id (reached, found) in
              (r, t2, rw (found, find_network) run, starts)
        ]

  connect_database-Starts :
      (cfg : ListenerConfig)
      → Loads proc path t cfg
      → Ends (connect_database proc cfg) (loaded proc path t)
  unfolding connect_database connect
  connect_database-Starts cfg loads =
      elim (Option-cases (proc.pool.create (loaded proc path t) (dsn cfg.database))) [
        | inr (e, refused) ↦ (
          stopped (database_failed (pool_failed e)),
          pooled proc path t cfg,
          via (some (pool_failed e)) (pooled proc path t cfg) (ground (arith, refused)),
          no_pool cfg e loads refused,
        )
        | inl pool ↦ elim (Option-cases (proc.pool.ping (pooled proc path t cfg))) [
          | inr (e, silent) ↦ (
            stopped (database_failed (unreachable e)),
            pinged proc path t cfg,
            via (some (unreachable e)) (pinged proc path t cfg) (ground (arith, pool, silent)),
            no_ping cfg e loads pool silent,
          )
          | inl answered ↦
              let (r, t2, run, starts) = find_network-Starts cfg (loads, pool, answered) in
              (
                r,
                t2,
                via none (pinged proc path t cfg) (ground (arith, pool, answered)) ∙ run,
                starts,
              )
        ]
      ]
    where
      via :
          (r : Option PoolError) (t2 : Trace)
          → connect proc.pool cfg.database (loaded proc path t) ≡ (done r, t2)
          → connect_database proc cfg (loaded proc path t)
            ≡ elim r as (λ _. M Started) [
              | some e ↦ pure (stopped (database_failed e))
              | none ↦ find_network proc cfg
            ]
                t2
      via r t2 =
          bind_done (connect proc.pool cfg.database)
            (λ r. elim r as (λ _. M Started) [
              | some e ↦ pure (stopped (database_failed e))
              | none ↦ find_network proc cfg
            ])
            (loaded proc path t)

  -- The start sequence returns on every path, in one of the ways of the relation: an exit names the
  -- first step that failed, and nothing behind that step was called; otherwise every step has
  -- succeeded, and there is a publisher exactly when the configuration has a NATS URL.
  pub start-Starts : Ends (start proc path) t
  unfolding start load decode
  start-Starts = elim (Result-cases (proc.files.read t path)) [
    | inr (e, missing) ↦ (
      stopped (config_failed e),
      (loaded proc path t),
      via (err e) (ground (arith, missing)),
      unread e missing,
    )
    | inl (bytes, got) ↦ elim (Result-cases (proc.files.unmarshal bytes)) [
      | inr (e, bad) ↦ (
        stopped (config_failed e),
        (loaded proc path t),
        via (err e) (ground (arith, got, bad)),
        undecoded bytes e got bad,
      )
      | inl (raw, good) ↦
          let cfg = record raw { network = proc.files.to_lower raw.network } in
          let (r, t2, run, starts) = connect_database-Starts cfg (bytes, raw, got, good, refl) in
          (r, t2, via (ok cfg) (ground (arith, got, good)) ∙ run, starts)
    ]
  ]
    where
      via :
          (r : Result ListenerConfig)
          → load proc.files path t ≡ (done r, (loaded proc path t))
          → start proc path t
            ≡ elim r as (λ _. M Started) [
              | err e ↦ pure (stopped (config_failed e))
              | ok cfg ↦ connect_database proc cfg
            ]
                (loaded proc path t)
      via r =
          bind_done (load proc.files path)
            (λ r. elim r as (λ _. M Started) [
              | err e ↦ pure (stopped (config_failed e))
              | ok cfg ↦ connect_database proc cfg
            ])
            t
