-- ===== src/Db/Tables.antt =====
-- The rows that the statements of the package change, by the SQL texts of networks.go and
-- network_listener_sessions.go: the tables behind a trace, if a statement that reports an error has
-- changed nothing.
use chain_ops.Common.{
  arith, ap, true, false, All, ◌≡◌, refl, List, [], ◌∷◌, ◌++◌, map, Option, none, some,
  if◌then◌else◌,
}
use chain_ops.Common.Int.{ℤ}
use chain_ops.Common.Text.{Text, text_eq}
use chain_ops.World.{
  Error, Result, ok, err, Statement, select_network, select_last_scanned, update_last_scanned,
  insert_session, close_session, select_wallets, sql, Trace,
}
use chain_ops.World.Frame.{SeesSql}
use chain_ops.Db.{Database}

-- networks
pub record NetworkRow : Type 0 where
  pub id : Text
  pub last_scanned_block : ℤ

pub data Status : Type 0 where
  active closed : Status

-- network_listener_sessions, without its time stamps
pub record SessionRow : Type 0 where
  pub id : Text
  pub network_id : Text
  pub from_block : ℤ
  pub to_block : Option ℤ
  pub status : Status

pub record Tables : Type 0 where
  pub networks : List NetworkRow
  pub sessions : List SessionRow

-- UPDATE networks SET last_scanned_block = $2 WHERE id = $1
abbrev pub set_pointer : Text → ℤ → NetworkRow → NetworkRow
set_pointer id block row =
    if text_eq row.id id then record row { last_scanned_block = block } else row

-- The row of INSERT INTO network_listener_sessions (network_id, from_block), with the defaults.
abbrev pub new_session : Text → ℤ → Text → SessionRow
new_session network_id from_block id = record {
  id = id;
  network_id = network_id;
  from_block = from_block;
  to_block = none;
  status = active;
}

-- SET status = 'CLOSED', to_block = $2 WHERE id = $1
abbrev pub close_row : Text → Option ℤ → SessionRow → SessionRow
close_row id to_block row =
    if text_eq row.id id then record row { to_block = to_block; status = closed } else row

-- A statement that changes rows, by the error of `Exec`, and the one that returns an id.
abbrev pub changed : Option Error → Tables → Tables → Tables
changed none after before = after
changed (some _) after before = before

abbrev pub inserted : Result Text → Text → ℤ → Tables → Tables
inserted (ok id) network_id from_block before = record before {
  sessions = before.sessions ++ new_session network_id from_block id ∷ [];
}
inserted (err _) network_id from_block before = before

module _ (db : Database) where
  abbrev pub apply : Trace → Statement → Tables → Tables
  apply t (update_last_scanned id block) before =
      changed (db.exec t (update_last_scanned id block))
        (record before { networks = map (set_pointer id block) before.networks }) before
  apply t (insert_session network_id from_block) before =
      inserted (db.scan_text t (insert_session network_id from_block)) network_id from_block before
  apply t (close_session id to_block) before =
      changed (db.exec t (close_session id to_block))
        (record before { sessions = map (close_row id to_block) before.sessions }) before
  apply t (select_network _) before = before
  apply t (select_last_scanned _) before = before
  apply t (select_wallets _) before = before

  -- The tables behind a trace, from those at its start.
  unfoldable pub tables : Tables → Trace → Tables
  tables start [] = start
  tables start (a ∷ t) = elim a [ sql q ↦ apply t q (tables start t) | _ ↦ tables start t ]

  pub tables-SeesSql : (start : Tables) → SeesSql (tables start)
  unfolding tables
  tables-SeesSql start a t other = ground (arith, other)

  module _ (start : Tables) (t : Trace) where
    -- The statements that succeed.
    pub tables-update :
        (id : Text) (b : ℤ)
        → db.exec t (update_last_scanned id b) ≡ none
        → tables start (sql (update_last_scanned id b) ∷ t)
          ≡ record (tables start t) { networks = map (set_pointer id b) (tables start t).networks }
    unfolding tables
    tables-update id b accepted =
        let before = tables start t in
        ap
          (λ o.
            changed o (record before { networks = map (set_pointer id b) before.networks }) before)
          accepted

    -- The other statements leave the sessions as they were, whether they succeed or not.
    pub sessions-update :
        (id : Text) (b : ℤ)
        → (tables start (sql (update_last_scanned id b) ∷ t)).sessions ≡ (tables start t).sessions
    unfolding tables
    sessions-update id b = go (db.exec t (update_last_scanned id b))
      where
        go :
            (o : Option Error)
            → (changed o
                (record (tables start t) {
                  networks = map (set_pointer id b) (tables start t).networks;
                })
                (tables start t)).sessions
              ≡ (tables start t).sessions
        go none = refl
        go (some e) = refl

    pub tables-insert :
        (network_id id : Text) (b : ℤ)
        → db.scan_text t (insert_session network_id b) ≡ ok id
        → tables start (sql (insert_session network_id b) ∷ t) ≡ record (tables start t) {
          sessions = (tables start t).sessions ++ new_session network_id b id ∷ [];
        }
    unfolding tables
    tables-insert network_id id b created =
        ap (λ r. inserted r network_id b (tables start t)) created

    pub tables-insert_failed :
        (network_id : Text) (b : ℤ) (e : Error)
        → db.scan_text t (insert_session network_id b) ≡ err e
        → tables start (sql (insert_session network_id b) ∷ t) ≡ tables start t
    unfolding tables
    tables-insert_failed network_id b e failed =
        ap (λ r. inserted r network_id b (tables start t)) failed

    pub tables-select :
        (network_id : Text) → tables start (sql (select_wallets network_id) ∷ t) ≡ tables start t
    unfolding tables
    tables-select network_id = refl

    pub tables-close :
        (id : Text) (last : Option ℤ)
        → db.exec t (close_session id last) ≡ none
        → tables start (sql (close_session id last) ∷ t)
          ≡ record (tables start t) { sessions = map (close_row id last) (tables start t).sessions }
    unfolding tables
    tables-close id last accepted =
        let before = tables start t in
        ap
          (λ o.
            changed o (record before { sessions = map (close_row id last) before.sessions }) before)
          accepted

-- A row that is closed by its id, behind rows with other ids.
pub close_row-append :
    (id : Text) (last : Option ℤ) (rows : List SessionRow) (row : SessionRow)
    → All (λ r. text_eq r.id id ≡ false) rows
    → text_eq row.id id ≡ true
    → map (close_row id last) (rows ++ row ∷ [])
      ≡ rows ++ record row { to_block = last; status = closed } ∷ []
close_row-append id last [] row others same = rw same refl
close_row-append id last (r ∷ rows) row (other, others) same =
    rw other (ap (λ l. r ∷ l) (close_row-append id last rows row others same))
