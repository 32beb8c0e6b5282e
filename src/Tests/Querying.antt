-- ===== src/Tests/Querying.antt =====
-- A query whose second row does not scan.
use chain_ops.Common.{◌≡◌, List, [], ◌∷◌, none, false}
use chain_ops.Common.Text.{codes}
use chain_ops.World.{Error, Result, ok, err, sql, select_wallets, done}
use chain_ops.Db.{IndexedAddress, Rows, Database, get_indexed_address_to_monitor}
use chain_ops.Db.Wallets.{Answers, get_indexed_address_to_monitor_lem}
use chain_ops.Tests.Listening.{db as all_well, wallet}

abbrev bad_row : Error
bad_row = record { deadline_exceeded = false; net_error = false; message = codes "NULL" }

abbrev rows : Rows
rows = record { items = ok wallet ∷ err bad_row ∷ ok wallet ∷ []; rows_err = none }

abbrev db : Database
db = record all_well { query_wallets = λ _ _. ok rows }

get_indexed_address_to_monitor_lem_example :
    (r : Result (List IndexedAddress)) × (get_indexed_address_to_monitor db (codes "net") []
      ≡ (done r, sql (select_wallets (codes "net")) ∷ []))
    × Answers (ok rows) r
get_indexed_address_to_monitor_lem_example = get_indexed_address_to_monitor_lem db (codes "net") []
