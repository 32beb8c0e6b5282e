-- ===== src/Listener/Crash/Run.antt =====
-- A run that panics leaves its session open.
use mathlib.Core.Bool.{true≢false}
use chain_ops.Common.{
  ℕ, ◌≡◌, ◌≢◌, refl, sym, ap, ◌∙◌, ◌⊎◌, inl, inr, List, [], ◌∷◌, ◌++◌, some, Bool-cases,
}
use chain_ops.Common.Text.{Text, text_eq}
use chain_ops.Chain.{int64}
use chain_ops.World.{
  ok, read_clock, sql, insert_session, close_session, update_last_scanned, Client, Trace, Outcome,
  done, panic, bind_done, ◌>>=◌,
}
use chain_ops.Providers.{EvmProvider, get_healthy_client}
use chain_ops.Db.{Database, close_listener_session}
use chain_ops.Db.Tables.{SessionRow, Tables, new_session, tables, sessions-update}
use chain_ops.Listener.{EvmListener, RunState, Env, startup, ticks, shutdown, run}
use chain_ops.Listener.Session.{first_block}
use chain_ops.Listener.Crash.{SeesSessions, ticks-Keeps}
use chain_ops.Listener.Records.Start.{NoSession, GivesId, startup-Begun}

-- The table of sessions behind a trace.
abbrev pub sessions_of : Database → Tables → Trace → List SessionRow
sessions_of db start t = (tables db start t).sessions

sessions_of-SeesSessions : (db : Database) (start : Tables) → SeesSessions (sessions_of db start)
unfolding tables
sessions_of-SeesSessions db start (sql (update_last_scanned id b)) t other =
    sessions-update db start t id b
sessions_of-SeesSessions db start (sql (insert_session _ _)) t other = absurd (true≢false other)
sessions_of-SeesSessions db start (sql (close_session _ _)) t other = absurd (true≢false other)
sessions_of-SeesSessions db start a t other = refl

done_ne_panic : ◌≢◌ {A = Outcome (Unit {0})} (done tt) panic
done_ne_panic h = cc

module _ (env : Env) (el : EvmListener) (start : Tables) where
  shutdown_returns : (s : RunState) (t : Trace) → (shutdown env el s t).0 ≡ done tt
  unfolding shutdown close_listener_session
  shutdown_returns s t = elim (Bool-cases (text_eq s.session_id [])) [
    | inl unnamed ↦ rw (unnamed, shutdown) refl
    | inr named ↦ rw (named, shutdown) refl
  ]

  -- A run that has started and panics does so in a tick, and the sessions are those of its start.
  started-panic :
      (j : ℕ) (ps : List EvmProvider) (s : RunState) (t t1 : Trace)
      → startup env el ps t ≡ (done s, t1)
      → (run env el j ps t).0 ≡ panic
      → sessions_of env.db start (run env el j ps t).1 ≡ sessions_of env.db start t1
  unfolding run
  started-panic j ps s t t1 started fails =
      let whole =
        bind_done (startup env el ps) (λ s. ticks env el j s >>= shutdown env el) t started in
      ap (λ r. sessions_of env.db start r.1) whole
      ∙ go (ticks env el j s t1)
          (ticks-Keeps (sessions_of env.db start) (sessions_of-SeesSessions env.db start) env el j s
            t1)
          (sym (ap (λ r. r.0) whole) ∙ fails)
    where
      go :
          (r : Outcome RunState × Trace)
          → sessions_of env.db start r.1 ≡ sessions_of env.db start t1
          → (elim r.0 as (λ _. Outcome (Unit {0}) × Trace) [
            | done a ↦ shutdown env el a r.1
            | panic ↦ (panic, r.1)
          ]).0
            ≡ panic
          → sessions_of env.db start
              (elim r.0 as (λ _. Outcome (Unit {0}) × Trace) [
                | done a ↦ shutdown env el a r.1
                | panic ↦ (panic, r.1)
              ]).1
            ≡ sessions_of env.db start t1
      go (panic, t2) same _ = same
      go (done s2, t2) same impossible =
          absurd (done_ne_panic (sym (shutdown_returns s2 t2) ∙ impossible))

  -- The id that the database gives to the session is not empty and not taken. Whatever else the
  -- environment answers, a run with at least one provider that panics leaves the sessions as they
  -- were, if no provider was healthy at the start, a header was missing or the row was refused, and
  -- otherwise with one more, from the safe block of the first header on, which stays active and
  -- without a last block.
  pub run_panics :
      (j : ℕ) (p : EvmProvider) (ps : List EvmProvider) (t : Trace)
      → GivesId env el start t
      → (run env el j (p ∷ ps) t).0 ≡ panic
      → let after = sessions_of env.db start (run env el j (p ∷ ps) t).1 in
        let before = sessions_of env.db start t in
        ((after ≡ before) × NoSession env el (p ∷ ps))
        ⊎ ((client : Client) × (i : ℕ) × (number : ℕ) × (id : Text) × (get_healthy_client (p ∷ ps)
              ≡ some (client, i))
            × (env.node.header_by_number (read_clock ∷ t) client ≡ ok number)
            × (after
                ≡ before ++ new_session el.network_id (int64 (first_block env el number)) id ∷ []))
  run_panics j p ps t gives fails =
      let (s, t1, started, _, _, _, begun) = startup-Begun env el start p ps t gives in
      let same = started-panic j (p ∷ ps) s t t1 started fails in
      elim begun [
        | inl (_, none_new, why) ↦ inl (same ∙ none_new, why)
        | inr (client, i, number, up, header, _, _, _, new) ↦
            inr (client, i, number, s.session_id, up, header, same ∙ new)
      ]
