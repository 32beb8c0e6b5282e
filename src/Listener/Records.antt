-- ===== src/Listener/Records.antt =====
-- What a run leaves in the tables: the pointer of its network, and the row of its session.
pub mod Start
pub mod Pointers
pub mod Gets
pub mod Run
use mathlib.Core.Option.{none-ne-some}
use chain_ops.Common.{
  ℕ, zero, suc, ◌≡◌, ◌≢◌, refl, sym, ap, subst, ◌∙◌, ◌⊎◌, inl, inr, List, [], ◌∷◌, ◌++◌, map,
  Option, none, some, Bool, true, false, All, arith, ltb, Bool-cases, Option-cases,
}
use chain_ops.Common.Int.{ℤ, pos, ◌+ℤ◌, ◌-ℤ◌, ltb_ℤ}
use chain_ops.Common.Text.{Text, text_eq, text_eq_iff}
use chain_ops.Chain.{Address, int64}
use chain_ops.World.{
  Error, Result, ok, err, Result-cases, Client, get_header, get_block_number, read_clock, sql,
  select_wallets, update_last_scanned, insert_session, close_session, Statement, Trace, done, M,
  pure, bind_done, ◌>>=◌,
}
use chain_ops.World.Frame.{Keeps, Keeps-bind, SeesSql}
use chain_ops.Providers.{
  EvmProvider, is_healthy, recover, recover_unhealthy_providers, get_healthy_client,
  handle_provider_failure,
}
use chain_ops.Providers.Recovery.{probes, recover_unhealthy_providers_lem}
use chain_ops.Db.{
  IndexedAddress, Database, to_block, get_indexed_address_to_monitor, update_last_scanned_block,
  create_listener_session, close_listener_session,
}
use chain_ops.Db.Tables.{
  NetworkRow, SessionRow, Tables, set_pointer, new_session, close_row, closed, tables,
  tables-SeesSql, tables-update, tables-insert, tables-insert_failed, tables-close, tables-select,
  close_row-append,
}
use chain_ops.Listener.{
  EvmListener, RunState, Env, require_retry, scan_blocks, from_or, capped, rounds, persist_progress,
  scan_range, skip_to, handle_wallets, tick_with, tick_providers, tick, ticks,
}
use chain_ops.Listener.Quiet.{IsOrderly}
use chain_ops.Listener.Scan.{last_of, scanned, scan_blocks_lem}
use chain_ops.Listener.Ready.{
  require_retry_soon, require_retry_due, wallets_lem, tick_providers_lem,
}
use chain_ops.Listener.Frame.{scan_blocks-Keeps, tick_providers-Keeps}

-- The rows of networks with the pointer of one set to a last block, if there is one.
abbrev pub pointed : Text → Option ℤ → List NetworkRow → List NetworkRow
pointed id none rows = rows
pointed id (some b) rows = map (set_pointer id (int64 b)) rows

set_pointer-set_pointer :
    (id : Text) (a b : ℤ) (rows : List NetworkRow)
    → map (set_pointer id b) (map (set_pointer id a) rows) ≡ map (set_pointer id b) rows
set_pointer-set_pointer id a b [] = refl
set_pointer-set_pointer id a b (row ∷ rows) = elim (Bool-cases (text_eq row.id id)) [
  | inl same ↦ rw same (
      rw same
        (ap (λ l. record row { last_scanned_block = b } ∷ l) (set_pointer-set_pointer id a b rows)))
  | inr other ↦ rw other (rw other (ap (λ l. row ∷ l) (set_pointer-set_pointer id a b rows)))
]

module _ (env : Env) (el : EvmListener) (start : Tables) where
  abbrev pub view : Trace → Tables
  view = tables env.db start

  module _ (accepts : (t : Trace) (q : Statement) → env.db.exec t q ≡ none) (rows : List NetworkRow)
      (opened : List SessionRow) where
    -- The tables where the last block is this one: its pointer is stored.
    abbrev pub Stored : Option ℤ → Trace → Type 0
    Stored last t =
        ((view t).networks ≡ pointed el.network_id last rows) × ((view t).sessions ≡ opened)

    -- A step that returns, and leaves its last block stored.
    abbrev pub Stores : RunState → Trace → M RunState → Type 0
    Stores s t m =
        (s' : RunState) × (t' : Trace) × (m t ≡ (done s', t'))
        × Stored s'.last_block t'
        × (s'.session_id ≡ s.session_id)

    Stored-same :
        (last : Option ℤ) (t t' : Trace) → view t' ≡ view t → Stored last t → Stored last t'
    Stored-same last t t' same (pointers, sessions) =
        (ap (λ x. x.networks) same ∙ pointers, ap (λ x. x.sessions) same ∙ sessions)

    pointed-pointed :
        (last : Option ℤ) (b : ℤ)
        → map (set_pointer el.network_id (int64 b)) (pointed el.network_id last rows)
          ≡ pointed el.network_id (some b) rows
    pointed-pointed none b = refl
    pointed-pointed (some a) b = set_pointer-set_pointer el.network_id (int64 a) (int64 b) rows

    update-Stored :
        (last : Option ℤ) (t : Trace) (b : ℤ)
        → Stored last t
        → Stored (some b) (sql (update_last_scanned el.network_id (int64 b)) ∷ t)
    update-Stored last t b (pointers, sessions) =
        let same =
          tables-update env.db start t el.network_id (int64 b)
            (accepts t (update_last_scanned el.network_id (int64 b))) in
        (
          ap (λ x. x.networks) same
              ∙ ap (map (set_pointer el.network_id (int64 b))) pointers
              ∙ pointed-pointed last b,
          ap (λ x. x.sessions) same ∙ sessions,
        )

    persist_progress-Stores :
        (s : RunState) (last : Option ℤ) (t : Trace)
        → Stored last t
        → (s.last_block ≡ none → last ≡ none)
        → Stores s t (persist_progress env el s)
    unfolding persist_progress update_last_scanned_block
    persist_progress-Stores s last t stored no_block = elim (Option-cases s.last_block) [
      | inl no_last ↦ (
        s,
        t,
        simp (no_last, persist_progress),
        subst (λ l. Stored l t) (no_block no_last ∙ sym no_last) stored,
        refl,
      )
      | inr (b, at) ↦ (
        record s { from_block = some (b +ℤ pos 1) },
        sql (update_last_scanned el.network_id (int64 b)) ∷ t,
        simp (at, persist_progress),
        subst (λ l. Stored l (sql (update_last_scanned el.network_id (int64 b)) ∷ t)) (sym at)
            (update-Stored last t b stored),
        refl,
      )
    ]

    -- A step that is quiet, and one behind it.
    quiet-Stores :
        (s s1 : RunState) (t t1 : Trace) (m : M RunState) (f : RunState → M RunState)
        → m t ≡ (done s1, t1)
        → s1.session_id ≡ s.session_id
        → Stores s1 t1 (f s1)
        → Stores s t (m >>= f)
    quiet-Stores s s1 t t1 m f first same (s', t', run, stored, ids) =
        (s', t', bind_done m f t first ∙ run, stored, ids ∙ same)

    last_of-none : (f : ℤ) (k : ℕ) (last : Option ℤ) → last_of f k last ≡ none → last ≡ none
    last_of-none f zero last h = h
    last_of-none f (suc k) last h = absurd (none-ne-some _ (sym h))

    module _ (orderly : IsOrderly env el) where
      scan_range-Stores :
          (client : Client) (i : ℕ) (a : Address) (rest : List Address) (safe_block : ℤ)
          (s : RunState) (t : Trace)
          → Stored s.last_block t
          → Stores s t (scan_range env el client i (a ∷ rest) safe_block s)
      unfolding scan_range
      scan_range-Stores client i a rest safe_block s t stored =
          let from = from_or env el s.from_block safe_block in
          let to = capped env el from safe_block in
          let scan = scan_blocks env el (rounds from to) client i (a ∷ rest) from to s in
          elim (Bool-cases (ltb_ℤ safe_block from)) [
            | inl behind ↦ (s, t, rw (behind, scan_range) refl, stored, refl)
            | inr inside ↦
                let (k, ps, t1, run, _, _) =
                  scan_blocks_lem env el orderly client i a rest to (rounds from to) from s t
                    (omega arith) in
                let quiet : view t1 ≡ view t =
                  sym (ap (λ r. view r.1) run)
                  ∙ scan_blocks-Keeps view (tables-SeesSql env.db start) env el client (a ∷ rest)
                      (rounds from to) i from to s t in
                rw (inside, scan_range)
                  (quiet-Stores s (scanned s from k ps) t t1 scan (persist_progress env el) run refl
                    (persist_progress-Stores (scanned s from k ps) s.last_block t1
                      (Stored-same s.last_block t t1 quiet stored)
                      (last_of-none from k s.last_block)))
          ]

      handle_wallets-Stores :
          (client : Client) (i : ℕ) (safe_block : ℤ) (s : RunState) (t : Trace)
          (r : Result (List IndexedAddress))
          → Stored s.last_block t
          → Stores s t (handle_wallets env el client i safe_block s r)
      unfolding handle_wallets skip_to update_last_scanned_block
      handle_wallets-Stores client i safe_block s t (err e) stored = (s, t, refl, stored, refl)
      handle_wallets-Stores client i safe_block s t (ok []) stored = (
        record s { last_block = some safe_block; from_block = some (safe_block +ℤ pos 1) },
        sql (update_last_scanned el.network_id (int64 safe_block)) ∷ t,
        refl,
        update-Stored s.last_block t safe_block stored,
        refl,
      )
      handle_wallets-Stores client i safe_block s t (ok (w ∷ ws)) stored =
          scan_range-Stores client i _ _ safe_block s t stored

      tick_with-Stores :
          (client : Client) (i : ℕ) (s : RunState) (t : Trace)
          → Stored s.last_block t
          → Stores s t (tick_with env el client i s)
      unfolding tick_with
      tick_with-Stores client i s t stored =
          let asked = get_header client ∷ t in
          let quiet = tables-SeesSql env.db start (get_header client) t refl in
          let still = Stored-same s.last_block t asked quiet stored in
          elim (Result-cases (env.node.header_by_number t client)) [
            | inr (e, failed) ↦ (
              record s { providers = handle_provider_failure s.providers i e },
              asked,
              simp (failed, tick_with),
              still,
              refl,
            )
            | inl (number, header) ↦
                let (r, answered) = wallets_lem env el asked in
                let (s', t', run, now_stored, same) =
                  handle_wallets-Stores client i (pos number -ℤ el.safe_block_buffer) s
                    (sql (select_wallets el.network_id) ∷ asked) r
                    (Stored-same s.last_block asked (sql (select_wallets el.network_id) ∷ asked)
                      (tables-select env.db start asked el.network_id) still) in
                (
                  s',
                  t',
                  rw (header, tick_with)
                      (bind_done (get_indexed_address_to_monitor env.db el.network_id)
                          (handle_wallets env el client i (pos number -ℤ el.safe_block_buffer) s)
                          asked answered
                        ∙ run),
                  now_stored,
                  same,
                )
          ]

      tick-Stores : (s : RunState) (t : Trace) → Stored s.last_block t → Stores s t (tick env el s)
      unfolding tick
      tick-Stores s t stored =
          let (s1, t1, ready, (_, last, same, _)) = tick_providers_lem env el s t in
          let go_on : RunState → M RunState = λ s'. elim (get_healthy_client s'.providers) [
            | none ↦ pure s'
            | some (client, i) ↦ tick_with env el client i s'
          ] in
          let quiet : view t1 ≡ view t =
            sym (ap (λ r. view r.1) ready)
            ∙ tick_providers-Keeps view (tables-SeesSql env.db start) env el s t in
          let stored1 : Stored s1.last_block t1 =
            subst (λ l. Stored l t1) (sym last) (Stored-same s.last_block t t1 quiet stored) in
          quiet-Stores s s1 t t1 (tick_providers env el s) go_on ready same
            (elim (Option-cases (get_healthy_client s1.providers)) [
              | inl down ↦ (s1, t1, rw down refl, stored1, refl)
              | inr (choice, up) ↦ rw up (tick_with-Stores choice.0 choice.1 s1 t1 stored1)
            ])

      -- The data that the collectors see is orderly, and the database accepts every update. In a
      -- state whose last block, if there is one, is stored as the pointer of the network, any
      -- number of ticks return, whatever else the environment answers. The last block of the new
      -- state is then stored, and no row of another network, no session and no session id has
      -- changed.
      pub ticks-Stores :
          (j : ℕ) (s : RunState) (t : Trace) → Stored s.last_block t → Stores s t (ticks env el j s)
      unfolding ticks
      ticks-Stores zero s t stored = (s, t, refl, stored, refl)
      ticks-Stores (suc j) s t stored =
          let (s1, t1, run, stored1, same) = tick-Stores s t stored in
          quiet-Stores s s1 t t1 (tick env el s) (ticks env el j) run same
            (ticks-Stores j s1 t1 stored1)
