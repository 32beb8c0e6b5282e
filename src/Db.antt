-- ===== src/Db.antt =====
-- services/listener/db: one function for each statement. The database is the environment's: it
-- answers a statement by any function of the trace. The connection pool and the log lines are left
-- out.
pub mod Wallets
pub mod Pool
pub mod Tables
use chain_ops.Common.{List, [], ◌∷◌, ◌++◌, Option, none, some}
use chain_ops.Common.Int.{ℤ}
use chain_ops.Common.Text.{Text}
use chain_ops.Chain.{int64}
use chain_ops.World.{
  Error, Result, ok, err, Statement, select_network, select_last_scanned, update_last_scanned,
  insert_session, close_session, select_wallets, sql, Trace, M, pure, call, ◌>>=◌,
}

-- A row of indexed_wallets, without its two time stamps.
pub record IndexedAddress : Type 0 where
  pub wallet_address : Text
  pub network_id : Text
  pub active_subscriber_count : ℤ

-- The rows of a query: each may fail to scan, and the iteration may end in an error.
pub record Rows : Type 0 where
  pub items : List (Result IndexedAddress)
  pub rows_err : Option Error

pub record Database : Type 0 where
  pub exec : Trace → Statement → Option Error
  pub scan_text : Trace → Statement → Result Text  -- QueryRow(...).Scan(&id)
  pub scan_int64 : Trace → Statement → Result ℤ
  pub query_wallets : Trace → Statement → Result Rows

module _ (db : Database) where
  unfoldable pub get_network_id_by_key : Text → M (Result Text)
  get_network_id_by_key network_key =
      let q = select_network network_key in call (sql q) (λ t. db.scan_text t q)

  unfoldable pub get_last_scanned_block : Text → M (Result ℤ)
  get_last_scanned_block network_id =
      let q = select_last_scanned network_id in call (sql q) (λ t. db.scan_int64 t q)

  unfoldable pub update_last_scanned_block : Text → ℤ → M (Option Error)
  update_last_scanned_block network_id block =
      let q = update_last_scanned network_id (int64 block) in call (sql q) (λ t. db.exec t q)

  unfoldable pub create_listener_session : Text → ℤ → M (Result Text)
  create_listener_session network_id from_block =
      let q = insert_session network_id from_block in call (sql q) (λ t. db.scan_text t q)

  abbrev pub to_block : Option ℤ → Option ℤ
  to_block none = none
  to_block (some last) = some (int64 last)

  unfoldable pub close_listener_session : Text → Option ℤ → M (Option Error)
  close_listener_session session_id last_block =
      let q = close_session session_id (to_block last_block) in call (sql q) (λ t. db.exec t q)

  -- The loop over the rows.
  unfoldable pub scan_rows :
      List IndexedAddress
      → List (Result IndexedAddress)
      → Option Error
      → Result (List IndexedAddress)
  scan_rows addresses [] none = ok addresses
  scan_rows addresses [] (some e) = err e
  scan_rows addresses (err e ∷ rows) ended = err e
  scan_rows addresses (ok ia ∷ rows) ended = scan_rows (addresses ++ ia ∷ []) rows ended

  unfoldable pub get_indexed_address_to_monitor : Text → M (Result (List IndexedAddress))
  get_indexed_address_to_monitor network_id = do
    let q = select_wallets network_id
    answer ← call (sql q) (λ t. db.query_wallets t q)
    elim answer [ err e ↦ pure (err e) | ok rows ↦ pure (scan_rows [] rows.items rows.rows_err) ]
