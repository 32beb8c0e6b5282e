-- ===== src/Listener/Ticks.antt =====
-- A tick as a whole, and any number of them.
use native.Mathlib.Nat.{suc-mul}
use chain_ops.Common.{
  ℕ, zero, suc, ◌+◌, ◌*◌, ◌≤◌, ◌≡◌, ◌≢◌, refl, ap, ◌∙◌, ◌⊎◌, inl, inr, List, [], ◌∷◌, none, some,
  arith, Option-cases, map,
}
use chain_ops.Common.Int.{ℤ, pos, ◌+ℤ◌, ◌-ℤ◌, pos_part}
use chain_ops.World.{
  Result, ok, err, Result-cases, Client, get_header, sql, select_wallets, Trace, done, M, pure,
  bind_done,
}
use chain_ops.Providers.{handle_provider_failure, get_healthy_client}
use chain_ops.Db.{IndexedAddress, get_indexed_address_to_monitor}
use chain_ops.Listener.{
  EvmListener, RunState, Env, rounds, handle_wallets, tick_with, tick_providers, tick, ticks,
}
use chain_ops.Listener.Quiet.{IsOrderly}
use chain_ops.Listener.Advance.{
  Resumes, Resumes-last, Advances, Advances-trans, Stays-Advances, Stays-then-Advances,
}
use chain_ops.Listener.Range.{HasLimit, scan_range_lem}
use chain_ops.Listener.Ready.{wallets_lem, tick_providers_lem}

pub most_sum : (j k1 k2 m : ℕ) → k1 ≤ m → k2 ≤ j * m → k2 + k1 ≤ suc j * m
most_sum j k1 k2 m h1 h2 = omega (arith, suc-mul j m)

module _ (env : Env) (el : EvmListener) where
  -- The query for wallets never returns an empty list.
  abbrev pub HasWallets : Type 0
  HasWallets =
      (t : Trace) → (get_indexed_address_to_monitor env.db el.network_id t).0 ≢ done (ok [])

  -- The k blocks of a tick are at most `max_blocks_per_tick`, and if there are any they end at most
  -- at the safe block of a header that the node has reported.
  abbrev pub Bounded : ℤ → ℕ → Type 0
  Bounded f k =
      (k ≤ pos_part el.max_blocks_per_tick)
      × ((k ≡ 0)
          ⊎ ((t : Trace) × (client : Client) × (number : ℕ) × (env.node.header_by_number t client
                ≡ ok number)
              × (k ≤ rounds f (pos number -ℤ el.safe_block_buffer))))

  -- A step that takes the listener on from f.
  abbrev pub Moves : ℤ → RunState → Trace → M RunState → Type 0
  Moves f s t m =
      (k : ℕ) × (s' : RunState) × (t' : Trace) × (m t ≡ (done s', t'))
      × Advances env.node f k s t s' t'
      × Bounded f k

  module _ (orderly : IsOrderly env el) (limit : HasLimit env el) (wallets : HasWallets) where
    handle_wallets_lem :
        (client : Client) (i : ℕ) (number : ℕ) (f : ℤ) (s : RunState) (t t0 : Trace)
        (r : Result (List IndexedAddress))
        → Resumes s f
        → r ≢ ok []
        → env.node.header_by_number t0 client ≡ ok number
        → Moves f s t (handle_wallets env el client i (pos number -ℤ el.safe_block_buffer) s r)
    unfolding handle_wallets
    handle_wallets_lem client i number f s t t0 (err e) resumes some_wallet header = (
      0,
      s,
      t,
      refl,
      Stays-Advances env.node s s t t f (refl, refl, refl, refl) resumes,
      (omega arith, inl refl),
    )
    handle_wallets_lem client i number f s t t0 (ok []) resumes some_wallet header =
        absurd (some_wallet refl)
    handle_wallets_lem client i number f s t t0 (ok (w ∷ ws)) resumes some_wallet header =
        let (k, s', t', run, advances, most, safe, _) =
          scan_range_lem env el orderly limit client i (env.eth.hex_to_address w.wallet_address)
            (map (λ (w : IndexedAddress). env.eth.hex_to_address w.wallet_address) ws)
            (pos number -ℤ el.safe_block_buffer) f s t resumes in
        (k, s', t', run, advances, (most, inr (t0, client, number, header, safe)))

    tick_with_lem :
        (client : Client) (i : ℕ) (f : ℤ) (s : RunState) (t : Trace)
        → Resumes s f
        → Moves f s t (tick_with env el client i s)
    unfolding tick_with
    tick_with_lem client i f s t resumes =
        elim (Result-cases (env.node.header_by_number t client)) [
          | inr (e, failed) ↦
              let s' = record s { providers = handle_provider_failure s.providers i e } in
              (
                0,
                s',
                get_header client ∷ t,
                simp (failed, tick_with),
                Stays-Advances env.node s s' t (get_header client ∷ t) f (refl, refl, refl, refl)
                    resumes,
                (omega arith, inl refl),
              )
          | inl (number, header) ↦
              let (r, asked) = wallets_lem env el (get_header client ∷ t) in
              let (k, s', t', run, advances, bounded) =
                handle_wallets_lem client i number f s
                  (sql (select_wallets el.network_id) ∷ get_header client ∷ t) t r resumes
                  (λ empty. wallets (get_header client ∷ t) (ap (λ x. x.0) asked ∙ ap done empty))
                  header in
              (
                k,
                s',
                t',
                rw (header, tick_with)
                    (bind_done (get_indexed_address_to_monitor env.db el.network_id)
                        (handle_wallets env el client i (pos number -ℤ el.safe_block_buffer) s)
                        (get_header client ∷ t) asked
                      ∙ run),
                advances,
                bounded,
              )
        ]

    -- The data that the collectors see is orderly, `max_blocks_per_tick` is not the least int64,
    -- and the list of wallets is never empty. From a state that resumes at f, a tick returns; it
    -- has got the next k blocks from f on, in order and each once, and resumes behind them. They
    -- are at most `max_blocks_per_tick`, and none of them lies beyond the safe block of a header
    -- that the node has reported.
    pub tick-Moves : (f : ℤ) (s : RunState) (t : Trace) → Resumes s f → Moves f s t (tick env el s)
    unfolding tick
    tick-Moves f s t resumes =
        let (s1, t1, ready, stays) = tick_providers_lem env el s t in
        let go_on = λ (s' : RunState). elim (get_healthy_client s'.providers) as (λ _. M RunState) [
          | none ↦ pure s'
          | some (client, i) ↦ tick_with env el client i s'
        ] in
        let resumes1 : Resumes s1 f = Resumes-last env.node s s1 f stays.0 stays.1 resumes in
        elim (Option-cases (get_healthy_client s1.providers)) [
          | inl down ↦ (
            0,
            s1,
            t1,
            bind_done (tick_providers env el s) go_on t ready ∙ rw down refl,
            Stays-Advances env.node s s1 t t1 f stays resumes,
            (omega arith, inl refl),
          )
          | inr (choice, up) ↦
              let (k, s', t', run, advances, bounded) =
                tick_with_lem choice.0 choice.1 f s1 t1 resumes1 in
              (
                k,
                s',
                t',
                bind_done (tick_providers env el s) go_on t ready ∙ rw up run,
                Stays-then-Advances env.node s s1 s' t t1 t' f k stays advances,
                bounded,
              )
        ]

    -- The data that the collectors see is orderly, `max_blocks_per_tick` is not the least int64,
    -- and the list of wallets is never empty. From a state that resumes at f, any number of ticks
    -- return. They have got the next blocks from f on, in order, each once and without a gap; the
    -- last of them is the last block of the state, and the next range starts behind it. A tick gets
    -- at most `max_blocks_per_tick`.
    pub ticks-Advances :
        (j : ℕ) (f : ℤ) (s : RunState) (t : Trace)
        → Resumes s f
        → (k : ℕ) × (s' : RunState) × (t' : Trace) × (ticks env el j s t ≡ (done s', t'))
          × Advances env.node f k s t s' t'
          × (k ≤ j * pos_part el.max_blocks_per_tick)
    unfolding ticks
    ticks-Advances zero f s t resumes = (
      0,
      s,
      t,
      refl,
      Stays-Advances env.node s s t t f (refl, refl, refl, refl) resumes,
      omega arith,
    )
    ticks-Advances (suc j) f s t resumes =
        let (k1, s1, t1, run1, first, (most1, _)) = tick-Moves f s t resumes in
        let (k2, s2, t2, run2, others, most2) = ticks-Advances j (f +ℤ pos k1) s1 t1 first.1 in
        (
          k2 + k1,
          s2,
          t2,
          bind_done (tick env el s) (ticks env el j) t run1 ∙ run2,
          Advances-trans env.node f k1 k2 s s1 s2 t t1 t2 first others,
          most_sum j k1 k2 (pos_part el.max_blocks_per_tick) most1 most2,
        )
