-- ===== src/Listener/Ready.antt =====
-- The first part of a tick: the recovery of providers, and the query for wallets.
use chain_ops.Common.{
  ℕ, ◌+◌, ◌≡◌, refl, ◌∙◌, inl, inr, List, [], ◌∷◌, Bool, true, false, arith, Bool-cases, ltb,
}
use chain_ops.World.{
  Result, err, Result-cases, read_clock, sql, select_wallets, Trace, done, M, pure, bind_done,
  ◌>>=◌,
}
use chain_ops.Providers.{recover_unhealthy_providers}
use chain_ops.Providers.Recovery.{probes, recover_unhealthy_providers_lem}
use chain_ops.Db.{IndexedAddress, get_indexed_address_to_monitor, scan_rows}
use chain_ops.Listener.{EvmListener, RunState, Env, require_retry, tick_providers, five_minutes}
use chain_ops.Listener.Advance.{Stays, fetched-probes}

module _ (env : Env) (el : EvmListener) where
  -- The query returns, and gets no block.
  pub wallets_lem :
      (t : Trace)
      → (r : Result (List IndexedAddress)) × (get_indexed_address_to_monitor env.db el.network_id t
          ≡ (done r, sql (select_wallets el.network_id) ∷ t))
  unfolding get_indexed_address_to_monitor
  wallets_lem t = elim (Result-cases (env.db.query_wallets t (select_wallets el.network_id))) [
    | inl (rows, got) ↦
        (scan_rows env.db [] rows.items rows.rows_err, simp (got, get_indexed_address_to_monitor))
    | inr (e, failed) ↦ (err e, simp (failed, get_indexed_address_to_monitor))
  ]

  pub require_retry_soon :
      (next : ℕ) (t : Trace)
      → ltb (env.now t) next ≡ true
      → require_retry env next t ≡ (done (false, next), read_clock ∷ t)
  unfolding require_retry
  require_retry_soon next t soon = ground arith

  pub tick_providers_soon :
      (s : RunState) (t : Trace)
      → ltb (env.now t) s.next_provider_retry ≡ true
      → tick_providers env el s t ≡ (done s, read_clock ∷ t)
  unfolding tick_providers
  tick_providers_soon s t soon =
      bind_done (require_retry env s.next_provider_retry)
        (λ retry. elim retry.0 as (λ _. M RunState) [
          | true ↦ recover_unhealthy_providers env.node s.providers >>= λ providers.
              pure (record s { next_provider_retry = retry.1; providers = providers })
          | false ↦ pure (record s { next_provider_retry = retry.1 })
        ])
        t (require_retry_soon s.next_provider_retry t soon)

  pub require_retry_due :
      (next : ℕ) (t : Trace)
      → ltb (env.now t) next ≡ false
      → require_retry env next t
        ≡ (done (true, env.now (read_clock ∷ t) + five_minutes), read_clock ∷ read_clock ∷ t)
  unfolding require_retry
  require_retry_due next t due = ground arith

  pub tick_providers_lem :
      (s : RunState) (t : Trace)
      → (s' : RunState) × (t' : Trace) × (tick_providers env el s t ≡ (done s', t'))
        × Stays env.node s t s' t'
  unfolding tick_providers
  tick_providers_lem s t =
      let recovered = λ (retry : Bool × ℕ). elim retry.0 as (λ _. M RunState) [
        | true ↦ recover_unhealthy_providers env.node s.providers >>= λ providers.
            pure (record s { next_provider_retry = retry.1; providers = providers })
        | false ↦ pure (record s { next_provider_retry = retry.1 })
      ] in
      elim (Bool-cases (ltb (env.now t) s.next_provider_retry)) [
        | inl soon ↦ (s, read_clock ∷ t, tick_providers_soon s t soon, (refl, refl, refl, refl))
        | inr due ↦
            let t1 = read_clock ∷ read_clock ∷ t in
            let later = env.now (read_clock ∷ t) + five_minutes in
            let (ps, run, _) = recover_unhealthy_providers_lem env.node s.providers t1 in
            (
              record s { next_provider_retry = later; providers = ps },
              probes s.providers t1,
              bind_done (require_retry env s.next_provider_retry) recovered t
                    (require_retry_due s.next_provider_retry t due)
                  ∙ bind_done (recover_unhealthy_providers env.node s.providers)
                      (λ providers.
                        pure (record s { next_provider_retry = later; providers = providers }))
                      t1 run,
              (refl, refl, refl, fetched-probes env.node s.providers t1),
            )
      ]
