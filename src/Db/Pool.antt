-- ===== src/Db/Pool.antt =====
-- services/listener/db/db_connect.go: the data source name, and `Connect`.
use chain_ops.Common.{◌++◌, Option, none, some}
use chain_ops.Common.Text.{Text, codes, decimal_ℤ}
use chain_ops.World.{Error, new_pool, ping_pool, Trace, M, pure, call, ◌>>=◌}
use chain_ops.Config.{DatabaseConfig}

-- The connection pool of pgx; `none` is a nil error.
pub record Pool : Type 0 where
  pub create : Trace → Text → Option Error
  pub ping : Trace → Option Error

-- The errors that `Connect` wraps, by the text that it puts in front.
pub data PoolError : Type 0 where
  pool_failed : Error → PoolError
  unreachable : Error → PoolError

unfoldable pub dsn : DatabaseConfig → Text
dsn cfg =
    codes "host="
    ++ (cfg.host
        ++ (codes " port="
            ++ (decimal_ℤ cfg.port
                ++ (codes " user="
                    ++ (cfg.user
                        ++ (codes " password="
                            ++ (cfg.password
                                ++ (codes " dbname="
                                    ++ (cfg.db_name
                                        ++ (codes " sslmode="
                                            ++ (cfg.ssl_mode
                                                ++ (codes " TimeZone=" ++ cfg.timezone))))))))))))

unfoldable pub connect : Pool → DatabaseConfig → M (Option PoolError)
connect pool cfg = do
  let name = dsn cfg
  created ← call (new_pool name) (λ t. pool.create t name)
  elim created [
    | some e ↦ pure (some (pool_failed e))
    | none ↦ do
      pinged ← call ping_pool pool.ping
      elim pinged [ some e ↦ pure (some (unreachable e)) | none ↦ pure none ]
  ]
