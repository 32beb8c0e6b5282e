-- ===== src/Listener/Health.antt =====
-- The health records of the providers over the ticks, whatever the environment answers.
use chain_ops.Common.{
  ℕ, zero, suc, ◌≡◌, sym, subst, inl, inr, List, [], ◌∷◌, none, some, Bool, true, false, All,
  Bool-cases, Option-cases,
}
use chain_ops.Common.Int.{ℤ, pos, ◌+ℤ◌, ◌-ℤ◌, leb_ℤ, ltb_ℤ}
use chain_ops.Chain.{Address}
use chain_ops.World.{
  Node, Error, Result-cases, get_block, get_header, Result, ok, err, Client, Trace, Outcome, done,
  panic, M, pure, ◌>>=◌,
}
use chain_ops.Providers.{
  EvmProvider, is_transient_provider_error, handle_provider_failure, get_healthy_client,
  recover_unhealthy_providers,
}
use chain_ops.Providers.Health.{IsValid, failover}
use chain_ops.Providers.Recovery.{AllRecover, Recovers-IsValid, recover_unhealthy_providers_lem}
use chain_ops.Db.{IndexedAddress, get_indexed_address_to_monitor, update_last_scanned_block}
use chain_ops.Listener.{
  EvmListener, RunState, Env, require_retry, process_block, scan_blocks, from_or, capped, rounds,
  persist_progress, scan_range, skip_to, handle_wallets, tick_with, tick_providers, tick, ticks,
}

-- What holds of a result, unless the step panics.
abbrev pub Holds : {A : Type 0} → (A → Type 0) → Outcome A → Type 0
Holds P (done a) = P a
Holds P panic = Unit

bind-Holds :
    {A B : Type 0} (P : A → Type 0) (Q : B → Type 0) (m : M A) (f : A → M B) (t : Trace)
    → Holds P (m t).0
    → ((a : A) (t' : Trace) → P a → Holds Q (f a t').0)
    → Holds Q ((m >>= f) t).0
bind-Holds {A} {B} P Q m f t first rest = go (m t) first
  where
    go :
        (r : Outcome A × Trace)
        → Holds P r.0
        → Holds Q
            (elim r.0 as (λ _. Outcome B × Trace) [ done a ↦ f a r.1 | panic ↦ (panic, r.1) ]).0
    go (done a, t') p = rest a t' p
    go (panic, t') p = tt

Holds-any : {A : Type 0} (r : Outcome A) → Holds (λ _. Unit {0}) r
Holds-any (done a) = tt
Holds-any panic = tt

AllRecover-IsValid :
    (n : Node) (t : Trace) (ps ps' : List EvmProvider)
    → AllRecover n t ps ps'
    → All IsValid ps
    → All IsValid ps'
AllRecover-IsValid n t [] [] _ _ = tt
AllRecover-IsValid n t [] (_ ∷ _) impossible _ = elim impossible [ ]
AllRecover-IsValid n t (_ ∷ _) [] impossible _ = elim impossible [ ]
AllRecover-IsValid n t (p ∷ ps) (p' ∷ ps') (first, rest) (valid, others) =
    (Recovers-IsValid n t p p' first valid, AllRecover-IsValid n _ ps ps' rest others)

-- A failure of the selected provider keeps all valid, whether it counts or not.
handle_provider_failure-IsValid :
    (ps : List EvmProvider) (e : Error) (client : Client) (i : ℕ)
    → All IsValid ps
    → get_healthy_client ps ≡ some (client, i)
    → All IsValid (handle_provider_failure ps i e)
handle_provider_failure-IsValid ps e client i valid selected =
    let (ignored, counted) = failover ps e valid selected in
    elim (Bool-cases (is_transient_provider_error e)) [
      | inl counts ↦ (counted counts).2
      | inr other ↦ subst (All IsValid) (sym (ignored other)) valid
    ]

abbrev pub Sane : RunState → Type 0
Sane s = All IsValid s.providers

module _ (env : Env) (el : EvmListener) where
  scan_blocks-Sane :
      (fuel : ℕ) (client : Client) (i : ℕ) (addresses : List Address) (b safe_block : ℤ)
      (s : RunState) (t : Trace)
      → Sane s
      → get_healthy_client s.providers ≡ some (client, i)
      → Holds Sane (scan_blocks env el fuel client i addresses b safe_block s t).0
  unfolding scan_blocks
  scan_blocks-Sane zero client i addresses b safe_block s t sane up = sane
  scan_blocks-Sane (suc fuel) client i addresses b safe_block s t sane up =
      elim (Bool-cases (leb_ℤ b safe_block)) [
        | inr behind ↦ rw (behind, scan_blocks) sane
        | inl inside ↦ elim (Result-cases (env.node.block_by_number t client b)) [
          | inr (e, failed) ↦
              rw (inside, failed, scan_blocks)
                (handle_provider_failure-IsValid s.providers e client i sane up)
          | inl (block, got) ↦
              rw (inside, got, scan_blocks)
                (bind-Holds (λ _. Unit {0}) Sane (process_block env el client addresses block)
                  (λ _.
                    scan_blocks env el fuel client i addresses (b +ℤ pos 1) safe_block
                      (record s { last_block = some b }))
                  (get_block client b ∷ t) (Holds-any _)
                  (λ _ t' _.
                    scan_blocks-Sane fuel client i addresses (b +ℤ pos 1) safe_block
                      (record s { last_block = some b }) t' sane up))
        ]
      ]

  persist_progress-Sane :
      (s : RunState) (t : Trace) → Sane s → Holds Sane (persist_progress env el s t).0
  unfolding persist_progress update_last_scanned_block
  persist_progress-Sane s t sane = elim (Option-cases s.last_block) [
    | inl no_last ↦ simp (no_last, persist_progress) sane
    | inr (b, at) ↦ simp (at, persist_progress) sane
  ]

  scan_range-Sane :
      (client : Client) (i : ℕ) (addresses : List Address) (safe_block : ℤ) (s : RunState)
      (t : Trace)
      → Sane s
      → get_healthy_client s.providers ≡ some (client, i)
      → Holds Sane (scan_range env el client i addresses safe_block s t).0
  unfolding scan_range
  scan_range-Sane client i addresses safe_block s t sane up =
      let from = from_or env el s.from_block safe_block in
      let to = capped env el from safe_block in
      elim (Bool-cases (ltb_ℤ safe_block from)) [
        | inl behind ↦ rw (behind, scan_range) sane
        | inr inside ↦
            rw (inside, scan_range)
              (bind-Holds Sane Sane
                (scan_blocks env el (rounds from to) client i addresses from to s)
                (persist_progress env el) t
                (scan_blocks-Sane (rounds from to) client i addresses from to s t sane up)
                (λ s' t' sane'. persist_progress-Sane s' t' sane'))
      ]

  handle_wallets-Sane :
      (client : Client) (i : ℕ) (safe_block : ℤ) (s : RunState) (r : Result (List IndexedAddress))
      (t : Trace)
      → Sane s
      → get_healthy_client s.providers ≡ some (client, i)
      → Holds Sane (handle_wallets env el client i safe_block s r t).0
  unfolding handle_wallets skip_to update_last_scanned_block
  handle_wallets-Sane client i safe_block s (err e) t sane up = sane
  handle_wallets-Sane client i safe_block s (ok []) t sane up = sane
  handle_wallets-Sane client i safe_block s (ok (w ∷ ws)) t sane up =
      scan_range-Sane client i _ safe_block s t sane up

  tick_with-Sane :
      (client : Client) (i : ℕ) (s : RunState) (t : Trace)
      → Sane s
      → get_healthy_client s.providers ≡ some (client, i)
      → Holds Sane (tick_with env el client i s t).0
  unfolding tick_with
  tick_with-Sane client i s t sane up = elim (Result-cases (env.node.header_by_number t client)) [
    | inr (e, failed) ↦
        rw (failed, tick_with) (handle_provider_failure-IsValid s.providers e client i sane up)
    | inl (number, header) ↦
        rw (header, tick_with)
          (bind-Holds (λ _. Unit {0}) Sane (get_indexed_address_to_monitor env.db el.network_id)
            (handle_wallets env el client i (pos number -ℤ el.safe_block_buffer) s)
            (get_header client ∷ t) (Holds-any _)
            (λ r t' _.
              handle_wallets-Sane client i (pos number -ℤ el.safe_block_buffer) s r t' sane up))
  ]

  recover-Sane :
      (s : RunState) (later : ℕ) (t : Trace)
      → Sane s
      → Holds Sane
          ((recover_unhealthy_providers env.node s.providers >>= λ ps.
              pure (record s { next_provider_retry = later; providers = ps }))
            t).0
  recover-Sane s later t sane =
      let (ps, run, recovers) = recover_unhealthy_providers_lem env.node s.providers t in
      bind-Holds (All IsValid) Sane (recover_unhealthy_providers env.node s.providers)
        (λ ps. pure (record s { next_provider_retry = later; providers = ps })) t
        (subst (λ r. Holds (All IsValid) r.0) (sym run)
          (AllRecover-IsValid env.node t s.providers ps recovers sane))
        (λ ps t' valid. valid)

  tick_providers-Sane :
      (s : RunState) (t : Trace) → Sane s → Holds Sane (tick_providers env el s t).0
  unfolding tick_providers
  tick_providers-Sane s t sane =
      bind-Holds (λ _. Unit {0}) Sane (require_retry env s.next_provider_retry)
        (λ retry. elim retry.0 as (λ _. M RunState) [
          | true ↦ recover_unhealthy_providers env.node s.providers >>= λ ps.
              pure (record s { next_provider_retry = retry.1; providers = ps })
          | false ↦ pure (record s { next_provider_retry = retry.1 })
        ])
        t (Holds-any _) (λ retry t' _. choose retry t')
    where
      choose :
          (retry : Bool × ℕ) (t' : Trace)
          → Holds Sane
              ((elim retry.0 as (λ _. M RunState) [
                | true ↦ recover_unhealthy_providers env.node s.providers >>= λ ps.
                    pure (record s { next_provider_retry = retry.1; providers = ps })
                | false ↦ pure (record s { next_provider_retry = retry.1 })
              ])
                t').0
      choose (true, later) t' = recover-Sane s later t' sane
      choose (false, later) t' = sane

  -- Whatever the environment answers, a tick keeps the health records valid, unless it panics: a
  -- provider is healthy with no failure counted, or unhealthy with one.
  tick-Sane : (s : RunState) (t : Trace) → Sane s → Holds Sane (tick env el s t).0
  unfolding tick
  tick-Sane s t sane =
      bind-Holds Sane Sane (tick_providers env el s)
        (λ s'. elim (get_healthy_client s'.providers) as (λ _. M RunState) [
          | none ↦ pure s'
          | some (client, i) ↦ tick_with env el client i s'
        ])
        t (tick_providers-Sane s t sane)
        (λ s' t' sane'. elim (Option-cases (get_healthy_client s'.providers)) [
          | inl down ↦ rw down sane'
          | inr (choice, up) ↦ rw up (tick_with-Sane choice.0 choice.1 s' t' sane' up)
        ])

  -- Whatever the environment answers, any number of ticks keep all providers valid, unless the
  -- process panics: a provider is healthy with no failure counted, or unhealthy with one.
  pub ticks-Sane : (j : ℕ) (s : RunState) (t : Trace) → Sane s → Holds Sane (ticks env el j s t).0
  unfolding ticks
  ticks-Sane zero s t sane = sane
  ticks-Sane (suc j) s t sane =
      bind-Holds Sane Sane (tick env el s) (ticks env el j) t (tick-Sane s t sane)
        (λ s' t' sane'. ticks-Sane j s' t' sane')
