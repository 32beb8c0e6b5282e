-- ===== src/Config.antt =====
-- services/listener/config/listener_config.go. The YAML decoder, a function of the
-- file's bytes, and strings.ToLower are parameters.
use chain_ops.Common.{List, Bool}
use chain_ops.Common.Int.{ℤ}
use chain_ops.Common.Text.{Text}
use chain_ops.World.{Result, ok, err, read_file, Trace, M, pure, call, ◌>>=◌}

pub record DatabaseConfig : Type 0 where
  pub host : Text
  pub port : ℤ
  pub user : Text
  pub password : Text
  pub db_name : Text
  pub ssl_mode : Text
  pub timezone : Text

pub record PublisherConfig : Type 0 where
  pub nats_url : Text
  pub subject : Text

pub record ListenerConfig : Type 0 where
  pub network : Text
  pub rpc_urls : List Text
  pub native_asset : Text
  pub safe_block_buffer : ℤ  -- int64
  pub max_blocks_per_tick : ℤ  -- int64
  pub evm_block_listen : Bool
  pub usdc_listen : Bool
  pub known_token_contracts : List (Text × Text)
  pub publisher : PublisherConfig
  pub database : DatabaseConfig

-- The file system, yaml.Unmarshal into the struct, and strings.ToLower.
pub record Files : Type 0 where
  pub read : Trace → Text → Result Text
  pub unmarshal : Text → Result ListenerConfig
  pub to_lower : Text → Text

module _ (files : Files) where
  -- `Load` behind the read.
  unfoldable pub decode : Text → Result ListenerConfig
  decode bytes = elim (files.unmarshal bytes) [
    | err e ↦ err e
    | ok cfg ↦ ok (record cfg { network = files.to_lower cfg.network })
  ]

  unfoldable pub load : Text → M (Result ListenerConfig)
  load path = do
    answer ← call (read_file path) (λ t. files.read t path)
    elim answer [ err e ↦ pure (err e) | ok bytes ↦ pure (decode bytes) ]
