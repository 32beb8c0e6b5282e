-- ===== src/Main.antt =====
-- services/listener/main.go: the start sequence, its exits, and the shutdown. The listener's
-- goroutine is the only other thread, and main waits for it, so the two run in sequence here. The
-- environment answers the shutdown signal by the number of ticks before it.
pub mod Ways
pub mod Sequence
pub mod Whole
use chain_ops.Common.{ℕ, List, [], ◌∷◌, Option, none, some, true, false, if◌then◌else◌}
use chain_ops.Common.Text.{Text, text_eq}
use chain_ops.World.{Error, ok, err, Trace, M, pure, ◌>>=◌}
use chain_ops.Config.{ListenerConfig, PublisherConfig, Files, load}
use chain_ops.Publisher.{Publisher}
use chain_ops.Publisher.Connect.{Nats, NewError, created, failed, new_publisher, close}
use chain_ops.Providers.{EvmProvider, ConnectError, connected, refused, connect_evm}
use chain_ops.Usdc.{Usdc, init_token_contracts}
use chain_ops.Db.{get_network_id_by_key}
use chain_ops.Db.Pool.{Pool, PoolError, connect}
use chain_ops.Listener.{EvmListener, Env, new_evm_listener, run}

-- Everything that the process starts with.
pub record Process : Type 0 where
  pub files : Files
  pub pool : Pool
  pub nats : Nats
  pub env : Env

-- Where main ends. All but the last are os.Exit(1), which skips the deferred calls.
pub data Exit : Type 0 where
  config_failed : Error → Exit
  database_failed : PoolError → Exit
  network_failed : Error → Exit
  publisher_failed : NewError → Exit
  no_rpc_urls : Exit
  providers_failed : ConnectError → Exit
  finished : Exit

abbrev pub exit_code : Exit → ℕ
exit_code finished = 0
exit_code _ = 1

-- The variables of main behind its checks.
pub record Setup : Type 0 where
  pub config : ListenerConfig
  pub network_id : Text
  pub publisher : Option Publisher

pub data Started : Type 0 where
  stopped : Exit → Started
  set_up : Setup → Started

-- The package variables of usdc_event.go before `InitTokenContracts`.
abbrev pub no_usdc : Usdc
no_usdc = record { address = 0; asset = none }

module _ (proc : Process) where
  -- The publisher is optional: there is none without a URL.
  unfoldable pub open_publisher : ListenerConfig → Text → M Started
  open_publisher cfg id =
      if text_eq cfg.publisher.nats_url []
      then pure (set_up (record { config = cfg; network_id = id; publisher = none }))
      else do
        answer ← new_publisher proc.nats cfg.publisher.nats_url cfg.publisher.subject
        elim answer [
          | failed e ↦ pure (stopped (publisher_failed e))
          | created p ↦ pure (set_up (record { config = cfg; network_id = id; publisher = some p }))
        ]

  -- The lookup of the network, behind the connection to the database.
  unfoldable pub find_network : ListenerConfig → M Started
  find_network cfg = do
    found ← get_network_id_by_key proc.env.db cfg.network
    elim found [ err e ↦ pure (stopped (network_failed e)) | ok id ↦ open_publisher cfg id ]

  unfoldable pub connect_database : ListenerConfig → M Started
  connect_database cfg = do
    answer ← connect proc.pool cfg.database
    elim answer [ some e ↦ pure (stopped (database_failed e)) | none ↦ find_network cfg ]

  -- main down to the check of `cfg.EvmBlockListen`.
  unfoldable pub start : Text → M Started
  start path = do
    loaded ← load proc.files path
    elim loaded [ err e ↦ pure (stopped (config_failed e)) | ok cfg ↦ connect_database cfg ]

  -- The listener that main makes.
  abbrev pub listener_of : Setup → EvmListener
  listener_of s =
      let cfg = s.config in
      let usdc = init_token_contracts proc.env.eth cfg.known_token_contracts no_usdc in
      new_evm_listener proc.env.eth usdc cfg.safe_block_buffer cfg.max_blocks_per_tick
        cfg.usdc_listen s.network_id cfg.native_asset cfg.known_token_contracts s.publisher

  -- The listener for k ticks, from the providers of `ConnectEVM`.
  unfoldable pub listen_to : ℕ → Setup → List Text → M Exit
  listen_to k s [] = pure no_rpc_urls
  listen_to k s (url ∷ urls) = do
    answer ← connect_evm proc.env.node (url ∷ urls)
    elim answer [
      | refused e ↦ pure (providers_failed e)
      | connected list ↦ do ran ← run proc.env (listener_of s) k list; pure finished
    ]

  unfoldable pub listen : ℕ → Setup → M Exit
  listen k s = if s.config.evm_block_listen then listen_to k s s.config.rpc_urls else pure finished

  -- The deferred `pub.Close()`, on the way out of main.
  unfoldable pub leave : Setup → Exit → M Exit
  leave s finished = elim s.publisher [
    | none ↦ pure finished
    | some p ↦ do closed ← close proc.nats; pure finished
  ]
  leave s e = pure e

  -- `main`, where k ticks pass before the shutdown signal.
  unfoldable pub main : ℕ → Text → M Exit
  main k path = do
    started ← start path
    elim started [ stopped e ↦ pure e | set_up s ↦ do e ← listen k s; leave s e ]
