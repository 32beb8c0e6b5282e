-- ===== src/Listener/Session.antt =====
-- A run from its start to its shutdown, and the session row that it leaves.
use mathlib.Core.Path.{ap₂}
use chain_ops.Common.{
  ℕ, ◌+◌, ◌*◌, ◌≤◌, ◌≡◌, refl, ap, ◌∙◌, List, [], ◌∷◌, ◌++◌, none, some, false, inl,
}
use chain_ops.Common.Int.{ℤ, pos, ◌-ℤ◌, pos_part}
use chain_ops.Common.Text.{Text, text_eq}
use chain_ops.Chain.{int64}
use chain_ops.World.{
  ok, Client, get_header, read_clock, sql, insert_session, close_session, Trace, done, bind_done,
  ◌>>=◌,
}
use chain_ops.Providers.{EvmProvider, get_healthy_client}
use chain_ops.Db.{to_block, create_listener_session, close_listener_session}
use chain_ops.Listener.{
  EvmListener, RunState, Env, ticks, open_session, startup, shutdown, run, five_minutes,
}
use chain_ops.Listener.Quiet.{fetched, IsOrderly}
use chain_ops.Listener.Range.{HasLimit}
use chain_ops.Listener.Scan.{countdown, last_of}
use chain_ops.Listener.Ticks.{HasWallets, ticks-Advances}

module _ (env : Env) (el : EvmListener) where
  -- The first block of a run whose first header has this number.
  abbrev pub first_block : ℕ → ℤ
  first_block number = pos number -ℤ el.safe_block_buffer

  -- The state of a run that opened a session at a block.
  abbrev opened : List EvmProvider → ℕ → ℤ → Text → RunState
  opened ps now f id = record {
    providers = ps;
    next_provider_retry = now + five_minutes;
    last_block = none;
    from_block = some f;
    session_id = id;
  }

  shutdown_lem :
      (s : RunState) (t : Trace)
      → text_eq s.session_id [] ≡ false
      → shutdown env el s t
        ≡ (done tt, sql (close_session s.session_id (to_block env.db s.last_block)) ∷ t)
  unfolding shutdown close_listener_session
  shutdown_lem s t named = simp (named, shutdown)

  module _ (p : EvmProvider) (ps : List EvmProvider) (client : Client) (i number : ℕ) (id : Text)
      (t : Trace) (up : get_healthy_client (p ∷ ps) ≡ some (client, i))
      (header : env.node.header_by_number (read_clock ∷ t) client ≡ ok number)
      (created : env.db.scan_text
          (get_header client ∷ read_clock ∷ t)
          (insert_session el.network_id (int64 (first_block number)))
        ≡ ok id) where
    abbrev opening : Trace
    opening =
        sql (insert_session el.network_id (int64 (first_block number)))
        ∷ get_header client
        ∷ read_clock
        ∷ t

    startup_lem :
        startup env el (p ∷ ps) t
        ≡ (done (opened (p ∷ ps) (env.now t) (first_block number) id), opening)
    unfolding startup open_session create_listener_session
    startup_lem = rw (up, startup, header, created) refl

    -- The data that the collectors see is orderly, `max_blocks_per_tick` is not the least int64,
    -- and the list of wallets is never empty. A run that finds a provider, a header and a database
    -- that opens its session at the safe block f, and ends after j ticks, has got k blocks: f and
    -- those that follow it, in order, each once. They are at most `max_blocks_per_tick` for each
    -- tick. The shutdown closes this session with the last of them, or without a last block if k is
    -- 0.
    pub run_covers :
        IsOrderly env el
        → HasLimit env el
        → HasWallets env el
        → text_eq id [] ≡ false
        → (j : ℕ)
        → let f = first_block number in
          (k : ℕ) × (t' : Trace) × (run env el j (p ∷ ps) t
            ≡ (done tt, sql (close_session id (to_block env.db (last_of f k none))) ∷ t'))
          × (fetched env.node t' ≡ countdown f k ++ fetched env.node t)
          × (k ≤ j * pos_part el.max_blocks_per_tick)
    unfolding run
    run_covers orderly limit wallets named j =
        let f = first_block number in
        let s = opened (p ∷ ps) (env.now t) f id in
        let (k, s', t', ran, (all, _, last, same), most) =
          ticks-Advances env el orderly limit wallets j f s opening (refl, inl refl) in
        (
          k,
          t',
          bind_done (startup env el (p ∷ ps)) (λ s. ticks env el j s >>= shutdown env el) t
                startup_lem
              ∙ bind_done (ticks env el j s) (shutdown env el) opening ran
              ∙ shutdown_lem s' t' (ap (λ x. text_eq x []) same ∙ named)
              ∙ ap₂ (λ x l. (done tt, sql (close_session x (to_block env.db l)) ∷ t')) same last,
          all,
          most,
        )
