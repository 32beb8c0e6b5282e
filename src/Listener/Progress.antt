-- ===== src/Listener/Progress.antt =====
-- What a tick does when nothing fails and there are wallets to monitor.
use chain_ops.Common.{
  ℕ, ◌≡◌, refl, sym, ap, subst, ◌∙◌, inl, inr, List, ◌∷◌, none, some, true, ltb, map,
}
use chain_ops.Common.Int.{ℤ, pos, ◌+ℤ◌, ◌-ℤ◌}
use chain_ops.Chain.{Block}
use chain_ops.World.{
  Error, ok, err, Client, get_header, read_clock, sql, select_wallets, Trace, done, M, pure,
  bind_done,
}
use chain_ops.Providers.{get_healthy_client}
use chain_ops.Db.{IndexedAddress, get_indexed_address_to_monitor}
use chain_ops.Listener.{EvmListener, RunState, Env, handle_wallets, tick_with, tick_providers, tick}
use chain_ops.Listener.Quiet.{IsOrderly}
use chain_ops.Listener.Advance.{Resumes, Advances}
use chain_ops.Listener.Range.{HasLimit, range_size, rounds-capped_lem, scan_range_lem}
use chain_ops.Listener.Ready.{wallets_lem, tick_providers_soon}

-- The trace behind the header and the query for wallets.
abbrev pub asked_wallets : EvmListener → Client → Trace → Trace
asked_wallets el client t = sql (select_wallets el.network_id) ∷ get_header client ∷ read_clock ∷ t

-- The safe block of a header.
abbrev pub safe_of : EvmListener → ℕ → ℤ
safe_of el number = pos number -ℤ el.safe_block_buffer

module _ (env : Env) (el : EvmListener) (client : Client) (i number : ℕ) (s : RunState) (t : Trace)
    (soon : ltb (env.now t) s.next_provider_retry ≡ true)
    (up : get_healthy_client s.providers ≡ some (client, i))
    (header : env.node.header_by_number (read_clock ∷ t) client ≡ ok number) where
  selected : tick env el s t ≡ tick_with env el client i s (read_clock ∷ t)
  unfolding tick
  selected =
      bind_done (tick_providers env el s)
        (λ (s' : RunState). elim (get_healthy_client s'.providers) as (λ _. M RunState) [
          | none ↦ pure s'
          | some (client, i) ↦ tick_with env el client i s'
        ])
        t (tick_providers_soon env el s t soon)
      ∙ rw up refl

  behind_header :
      (ws : List IndexedAddress)
      → (get_indexed_address_to_monitor env.db el.network_id (get_header client ∷ read_clock ∷ t)).0
        ≡ done (ok ws)
      → tick env el s t
        ≡ handle_wallets env el client i (safe_of el number) s (ok ws) (asked_wallets el client t)
  unfolding tick_with
  behind_header ws monitored =
      let (r, run) = wallets_lem env el (get_header client ∷ read_clock ∷ t) in
      let all_asked =
        run ∙ ap (λ o. (o, (asked_wallets el client t))) (sym (ap (λ x. x.0) run) ∙ monitored) in
      selected
      ∙ rw (header, tick_with)
          (bind_done (get_indexed_address_to_monitor env.db el.network_id)
            (handle_wallets env el client i (safe_of el number) s)
            (get_header client ∷ read_clock ∷ t) all_asked)

  -- In a tick with a healthy provider, a header and a list of wallets that is not empty, of a node
  -- that gives every block, the listener gets all blocks of its range: those from f up to the safe
  -- block, or the first `max_blocks_per_tick` of them.
  pub tick_scans :
      IsOrderly env el
      → HasLimit env el
      → (w : IndexedAddress) (ws : List IndexedAddress)
      → (get_indexed_address_to_monitor env.db el.network_id (get_header client ∷ read_clock ∷ t)).0
        ≡ done (ok (w ∷ ws))
      → ((t : Trace) (b : ℤ) → (block : Block) × (env.node.block_by_number t client b ≡ ok block))
      → (f : ℤ) → Resumes s f
      → (s' : RunState) × (t' : Trace) × (tick env el s t ≡ (done s', t'))
        × Advances env.node f (range_size env el f (safe_of el number)) s t s' t'
  unfolding handle_wallets
  tick_scans orderly limit w ws monitored given f resumes =
      let (k, s', t', run, advances, _, _, why) =
        scan_range_lem env el orderly limit client i (env.eth.hex_to_address w.wallet_address)
          (map (λ (w : IndexedAddress). env.eth.hex_to_address w.wallet_address) ws)
          (safe_of el number) f s (asked_wallets el client t) resumes in
      (
        s',
        t',
        behind_header (w ∷ ws) monitored ∙ run,
        elim why [
          | inl all ↦
              subst (λ k. Advances env.node f k s t s' t')
                (all ∙ rounds-capped_lem env el limit f (safe_of el number)) advances
          | inr (e, t0, failed) ↦ absurd (never t0 (f +ℤ pos k) e failed)
        ],
      )
    where
      never : (t0 : Trace) (b : ℤ) (e : Error) → env.node.block_by_number t0 client b ≡ err e → ⊥
      never t0 b e failed = let (block, got) = given t0 b in cc
