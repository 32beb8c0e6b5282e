-- ===== src/Listener/Records/Start.antt =====
-- The start of a run, as the tables record it.
use chain_ops.Common.{
  ℕ, ◌+◌, ◌≡◌, refl, ap, ◌∙◌, ◌⊎◌, inl, inr, List, [], ◌∷◌, ◌++◌, none, some, false, All,
  Option-cases,
}
use chain_ops.Common.Int.{ℤ}
use chain_ops.Common.Text.{Text, text_eq}
use chain_ops.Chain.{int64}
use chain_ops.World.{
  Error, ok, err, Result-cases, Client, get_header, read_clock, sql, insert_session, Statement,
  Trace, done,
}
use chain_ops.Providers.{EvmProvider, get_healthy_client}
use chain_ops.Db.{create_listener_session}
use chain_ops.Db.Tables.{
  SessionRow, Tables, new_session, tables, tables-SeesSql, tables-insert, tables-insert_failed,
}
use chain_ops.Listener.{EvmListener, RunState, Env, five_minutes, open_session, startup}
use chain_ops.Listener.Session.{first_block}
use chain_ops.Listener.Quiet.{fetched}
use chain_ops.Listener.Records.{view}

-- Why a run has no session: no provider is healthy at the start, the node gives no header, or the
-- database refuses the row.
pub data NoSession (env : Env) (el : EvmListener) (ps : List EvmProvider) : Type 0 where
  no_provider : get_healthy_client ps ≡ none → NoSession env el ps
  no_header :
      (client : Client) (i : ℕ) (t : Trace) (e : Error)
      → get_healthy_client ps ≡ some (client, i)
      → env.node.header_by_number t client ≡ err e
      → NoSession env el ps
  not_created :
      (from : ℤ) (t : Trace) (e : Error)
      → env.db.scan_text t (insert_session el.network_id from) ≡ err e
      → NoSession env el ps

module _ (env : Env) (el : EvmListener) (start : Tables) where
  -- The database accepts every update.
  abbrev pub Accepts : Type 0
  Accepts = (t : Trace) (q : Statement) → env.db.exec t q ≡ none

  -- The id that it gives to a session which is inserted behind the first header is not empty and
  -- not taken.
  abbrev pub GivesId : Trace → Type 0
  GivesId t =
      (client : Client) (from : ℤ) (id : Text)
      → env.db.scan_text (get_header client ∷ read_clock ∷ t) (insert_session el.network_id from)
        ≡ ok id
      → (text_eq id [] ≡ false)
        × All (λ (row : SessionRow). text_eq row.id id ≡ false) (tables env.db start t).sessions

  -- How the sessions stand behind the start: as before, or with a new one.
  abbrev pub Begun : List EvmProvider → Trace → RunState → Trace → Type 0
  Begun ps t s t' =
      (((s.session_id ≡ [])
          × ((view env el start t').sessions ≡ (view env el start t).sessions)
          × NoSession env el ps)
        ⊎ ((client : Client) × (i : ℕ) × (number : ℕ) × (get_healthy_client ps ≡ some (client, i))
            × (env.node.header_by_number (read_clock ∷ t) client ≡ ok number)
            × (s.from_block ≡ some (first_block env el number))
            × (text_eq s.session_id [] ≡ false)
            × All (λ (row : SessionRow). text_eq row.id s.session_id ≡ false)
                (view env el start t).sessions
            × ((view env el start t').sessions
                ≡ (view env el start t).sessions
                  ++ new_session el.network_id (int64 (first_block env el number)) s.session_id
                    ∷ [])))

  unopened : List EvmProvider → ℕ → RunState
  unopened ps now = record {
    providers = ps;
    next_provider_retry = now + five_minutes;
    last_block = none;
    from_block = none;
    session_id = [];
  }

  pub startup-Begun :
      (p : EvmProvider) (ps : List EvmProvider) (t : Trace)
      → GivesId t
      → (s : RunState) × (t' : Trace) × (startup env el (p ∷ ps) t ≡ (done s, t'))
        × (s.last_block ≡ none)
        × (fetched env.node t' ≡ fetched env.node t)
        × ((view env el start t').networks ≡ (view env el start t).networks)
        × Begun (p ∷ ps) t s t'
  unfolding startup open_session create_listener_session unopened
  startup-Begun p ps t ids =
      let seen = tables-SeesSql env.db start in
      let s0 = unopened (p ∷ ps) (env.now t) in
      let t0 = read_clock ∷ t in
      let ready = seen read_clock t refl in
      elim (Option-cases (get_healthy_client (p ∷ ps))) [
        | inl down ↦ (
          s0,
          t0,
          rw (down, startup) refl,
          refl,
          refl,
          ap (λ x. x.networks) ready,
          inl (refl, ap (λ x. x.sessions) ready, no_provider down),
        )
        | inr ((client, i), up) ↦
            let t1 = get_header client ∷ t0 in
            let asked = seen (get_header client) t0 refl ∙ ready in
            elim (Result-cases (env.node.header_by_number t0 client)) [
              | inr (e, failed) ↦ (
                s0,
                t1,
                rw (up, startup, failed) refl,
                refl,
                refl,
                ap (λ x. x.networks) asked,
                inl (refl, ap (λ x. x.sessions) asked, no_header client i t0 e up failed),
              )
              | inl (number, header) ↦
                  let from = first_block env el number in
                  let q = insert_session el.network_id (int64 from) in
                  elim (Result-cases (env.db.scan_text t1 q)) [
                    | inr (e, refused) ↦
                        let same =
                          tables-insert_failed env.db start t1 el.network_id (int64 from) e refused
                          ∙ asked in
                        (
                          record s0 { from_block = some from },
                          sql q ∷ t1,
                          rw (up, startup, header, refused) refl,
                          refl,
                          refl,
                          ap (λ x. x.networks) same,
                          inl (
                            refl,
                            ap (λ x. x.sessions) same,
                            not_created (int64 from) t1 e refused,
                          ),
                        )
                    | inl (id, created) ↦
                        let same =
                          tables-insert env.db start t1 el.network_id id (int64 from) created in
                        (
                          record s0 { from_block = some from; session_id = id },
                          sql q ∷ t1,
                          rw (up, startup, header, created) refl,
                          refl,
                          refl,
                          ap (λ x. x.networks) same ∙ ap (λ x. x.networks) asked,
                          inr (
                            client,
                            i,
                            number,
                            up,
                            header,
                            refl,
                            (ids client (int64 from) id created).0,
                            (ids client (int64 from) id created).1,
                            ap (λ x. x.sessions) same
                                ∙ ap
                                    (λ x.
                                      x.sessions ++ new_session el.network_id (int64 from) id ∷ [])
                                    asked,
                          ),
                        )
                  ]
            ]
      ]
