-- ===== src/Listener/Records/Run.antt =====
-- A run from its start to its shutdown, as the tables record it.
use chain_ops.Common.{
  none, ℕ, ◌≡◌, refl, sym, ap, subst, ◌∙◌, ◌⊎◌, inl, inr, List, [], ◌∷◌, ◌++◌, map, Option, some,
  false, All,
}
use chain_ops.Common.Int.{ℤ}
use chain_ops.Common.Text.{Text, text_eq, text_eq_iff}
use chain_ops.Chain.{int64}
use chain_ops.World.{ok, Client, read_clock, sql, close_session, Trace, done, bind_done, ◌>>=◌}
use chain_ops.Providers.{EvmProvider, get_healthy_client}
use chain_ops.Db.{to_block, close_listener_session}
use chain_ops.Db.Tables.{
  SessionRow, Tables, new_session, close_row, closed, tables, tables-close, close_row-append,
}
use chain_ops.Listener.{EvmListener, RunState, Env, startup, ticks, shutdown, run}
use chain_ops.Listener.Quiet.{IsOrderly, fetched}
use chain_ops.Listener.Session.{first_block}
use chain_ops.Listener.Records.Start.{NoSession, Accepts, GivesId, Begun, startup-Begun}
use chain_ops.Listener.Records.{pointed, ticks-Stores}
use chain_ops.Listener.Records.Pointers.{Points, pointed-Points}
use chain_ops.Listener.Records.Gets.{ticks-Gets}
use chain_ops.Listener.Range.{HasLimit}
use chain_ops.Listener.Ticks.{HasWallets}
use chain_ops.Listener.Scan.{countdown, last_of}
use mathlib.Core.Option.{some-injective, none-ne-some}

-- The row of a session that has ended.
abbrev pub closed_session : Text → ℤ → Text → Option ℤ → SessionRow
closed_session network_id from_block id to_block = record (new_session network_id from_block id) {
  to_block = to_block;
  status = closed;
}

starts_at :
    (from : Option ℤ) (f first : ℤ)
    → from ≡ some first
    → (from ≡ none) ⊎ (from ≡ some f)
    → f ≡ first
starts_at from f first is (inl unset) = absurd (none-ne-some _ (sym unset ∙ is))
starts_at from f first is (inr begins) = some-injective _ _ (sym begins ∙ is)

module _ (env : Env) (el : EvmListener) (start : Tables) where
  -- How the shutdown leaves the tables.
  shutdown_open :
      (s : RunState) (t : Trace)
      → text_eq s.session_id [] ≡ false
      → shutdown env el s t
        ≡ (done tt, sql (close_session s.session_id (to_block env.db s.last_block)) ∷ t)
  unfolding shutdown close_listener_session
  shutdown_open s t named = simp (named, shutdown)

  shutdown_none :
      (s : RunState) (t : Trace) → s.session_id ≡ [] → shutdown env el s t ≡ (done tt, t)
  unfolding shutdown text_eq
  shutdown_none s t unnamed = simp (unnamed, shutdown, text_eq)

  -- How the tables stand behind a run that has got the k blocks from f on: its last block is stored
  -- as the pointer, and the session, if there is one, is closed with the same block.
  abbrev pub Recorded : List EvmProvider → Trace → Trace → Option ℤ → ℤ → Type 0
  Recorded ps t t' last f =
      Points el.network_id last (tables env.db start t).networks (tables env.db start t').networks
      × ((((tables env.db start t').sessions ≡ (tables env.db start t).sessions)
            × NoSession env el ps)
          ⊎ ((client : Client) × (i : ℕ) × (number : ℕ) × (id : Text) × (get_healthy_client ps
                ≡ some (client, i))
              × (env.node.header_by_number (read_clock ∷ t) client ≡ ok number)
              × (f ≡ first_block env el number)
              × ((tables env.db start t').sessions
                  ≡ (tables env.db start t).sessions
                    ++ closed_session el.network_id (int64 f) id (to_block env.db last) ∷ [])))

  shutdown-Recorded :
      Accepts env el start
      → (ps : List EvmProvider) (t t1 t2 : Trace) (s1 s : RunState) (f : ℤ)
      → Begun env el start ps t s1 t1
      → (s1.from_block ≡ none) ⊎ (s1.from_block ≡ some f)
      → s.session_id ≡ s1.session_id
      → (tables env.db start t2).networks
        ≡ pointed el.network_id s.last_block (tables env.db start t).networks
      → (tables env.db start t2).sessions ≡ (tables env.db start t1).sessions
      → (t' : Trace) × (shutdown env el s t2 ≡ (done tt, t'))
        × (fetched env.node t' ≡ fetched env.node t2)
        × Recorded ps t t' s.last_block f
  shutdown-Recorded accepts ps t t1 t2 s1 s f (inl (unnamed, none_new, why)) _ same pointers
        sessions =
      (
        t2,
        shutdown_none s t2 (same ∙ unnamed),
        refl,
        (pointed-Points el.network_id s.last_block _ _ pointers, inl (sessions ∙ none_new, why)),
      )
  shutdown-Recorded accepts ps t t1 t2 s1 s f
        (inr (client, i, number, up, header, from, named, others, new)) begins same pointers
        sessions =
      let last = to_block env.db s.last_block in
      let id = s.session_id in
      let first = first_block env el number in
      let row = λ (x : Text). new_session el.network_id (int64 first) x in
      let at : f ≡ first = starts_at s1.from_block f first from begins in
      let closed_tables =
        tables-close env.db start t2 id last (accepts t2 (close_session id last)) in
      (
        sql (close_session id last) ∷ t2,
        shutdown_open s t2 (ap (λ x. text_eq x []) same ∙ named),
        refl,
        (
          pointed-Points el.network_id s.last_block _ _
              (ap (λ x. x.networks) closed_tables ∙ pointers),
          inr (
            client,
            i,
            number,
            id,
            up,
            header,
            at,
            ap (λ x. x.sessions) closed_tables
                ∙ ap (map (close_row id last)) (sessions ∙ new)
                ∙ ap (λ x. map (close_row id last) ((tables env.db start t).sessions ++ row x ∷ []))
                    (sym same)
                ∙ close_row-append id last (tables env.db start t).sessions (row id)
                    (subst
                      (λ x.
                        All (λ (r : SessionRow). text_eq r.id x ≡ false)
                          (tables env.db start t).sessions)
                      (sym same) others)
                    ((text_eq_iff id id).1 refl)
                ∙ ap
                    (λ x.
                      (tables env.db start t).sessions
                      ++ closed_session el.network_id (int64 x) id last ∷ [])
                    (sym at),
          ),
        ),
      )

  -- The data that the collectors see is orderly, `max_blocks_per_tick` is not the least int64, the
  -- list of wallets is never empty, the database accepts every update, and the id that it gives to
  -- the session is not empty and not taken. Then a run with at least one provider returns, however
  -- many ticks pass, and whatever else the environment answers. It has got k blocks, f and those
  -- that follow it, in order, each once. The last of them, if there is one, is then the pointer of
  -- its network, and no other pointer has changed. Either one session was added, from f on, which
  -- is then the safe block of the first header, and is closed with this same last block; or none
  -- was, since no provider was healthy at the start, a header was missing, or the row was refused.
  pub run_records :
      IsOrderly env el
      → HasLimit env el
      → HasWallets env el
      → Accepts env el start
      → (j : ℕ) (p : EvmProvider) (ps : List EvmProvider) (t : Trace) → GivesId env el start t
      → (t' : Trace) × (f : ℤ) × (k : ℕ) × (run env el j (p ∷ ps) t ≡ (done tt, t'))
        × (fetched env.node t' ≡ countdown f k ++ fetched env.node t)
        × Recorded (p ∷ ps) t t' (last_of f k none) f
  unfolding run
  run_records orderly limit wallets accepts j p ps t ids =
      let (s1, t1, started, no_last, quiet, pointers, begun) =
        startup-Begun env el start p ps t ids in
      let rows = (tables env.db start t).networks in
      let opened = (tables env.db start t1).sessions in
      let (s2, t2, ran, stored, same) =
        ticks-Stores env el start accepts rows opened orderly j s1 t1
          (pointers ∙ ap (λ l. pointed el.network_id l rows) (sym no_last), refl) in
      let (f, k, at, all, last) =
        ticks-Gets env el orderly limit wallets j s1 t1 s2 t2 no_last ran in
      let (t', ended, rest, recorded) =
        shutdown-Recorded accepts (p ∷ ps) t t1 t2 s1 s2 f begun at same stored.0 stored.1 in
      (
        t',
        f,
        k,
        bind_done (startup env el (p ∷ ps)) (λ s. ticks env el j s >>= shutdown env el) t started
            ∙ bind_done (ticks env el j s1) (shutdown env el) t1 ran
            ∙ ended,
        rest ∙ all ∙ ap (λ l. countdown f k ++ l) quiet,
        subst (λ l. Recorded (p ∷ ps) t t' l f) last recorded,
      )
