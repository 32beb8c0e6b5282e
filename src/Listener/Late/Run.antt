-- ===== src/Listener/Late/Run.antt =====
-- A run whose start finds no healthy provider, or no header.
use chain_ops.Common.{
  ℕ, ◌+◌, ◌*◌, ◌≤◌, ◌≡◌, refl, ap, ◌∙◌, ◌⊎◌, inl, inr, List, [], ◌∷◌, ◌++◌, none, some,
}
use chain_ops.Common.Int.{ℤ}
use chain_ops.Common.Text.{text_eq}
use chain_ops.World.{Error, err, Client, get_header, read_clock, Trace, done, bind_done, ◌>>=◌}
use chain_ops.Providers.{EvmProvider, get_healthy_client}
use chain_ops.Listener.{EvmListener, RunState, Env, five_minutes, startup, shutdown, run, ticks}
use chain_ops.Listener.Quiet.{fetched, IsOrderly}
use chain_ops.Listener.Scan.{countdown}
use chain_ops.Listener.Range.{HasLimit}
use chain_ops.Listener.Ticks.{HasWallets}
use chain_ops.Listener.Late.{IsSafe, Begins, limit_of, ticks-Begins}

module _ (env : Env) (el : EvmListener) (orderly : IsOrderly env el) (limit : HasLimit env el)
    (wallets : HasWallets env el) where
  -- What the start leaves without a provider or a header.
  abbrev pub unopened : List EvmProvider → ℕ → RunState
  unopened ps now = record {
    providers = ps;
    next_provider_retry = now + five_minutes;
    last_block = none;
    from_block = none;
    session_id = [];
  }

  abbrev pub Unset : List EvmProvider → Trace → Type 0
  Unset ps t =
      (get_healthy_client ps ≡ none)
      ⊎ ((client : Client) × (i : ℕ) × (e : Error) × (get_healthy_client ps ≡ some (client, i))
          × (env.node.header_by_number (read_clock ∷ t) client ≡ err e))

  startup-Unset :
      (p : EvmProvider) (ps : List EvmProvider) (t : Trace)
      → Unset (p ∷ ps) t
      → (t1 : Trace) × (startup env el (p ∷ ps) t ≡ (done (unopened (p ∷ ps) (env.now t)), t1))
        × (fetched env.node t1 ≡ fetched env.node t)
  unfolding startup
  startup-Unset p ps t (inl down) = (read_clock ∷ t, rw (down, startup) refl, refl)
  startup-Unset p ps t (inr (client, i, e, up, failed)) =
      (get_header client ∷ read_clock ∷ t, rw (up, startup, failed) refl, refl)

  shutdown_unnamed :
      (s : RunState) (t : Trace) → s.session_id ≡ [] → shutdown env el s t ≡ (done tt, t)
  unfolding shutdown text_eq
  shutdown_unnamed s t unnamed = simp (unnamed, shutdown, text_eq)

  -- The data that the collectors see is orderly, `max_blocks_per_tick` is not the least int64, and
  -- the list of wallets is never empty. A run whose start finds no healthy provider, or no header,
  -- returns. It has got no block, or those from the safe block f of a header
  -- on that the node reported later, in order, each once and without a gap, at most
  -- `max_blocks_per_tick` for each of its j ticks.
  pub run_begins :
      (j : ℕ) (p : EvmProvider) (ps : List EvmProvider) (t : Trace)
      → Unset (p ∷ ps) t
      → (t' : Trace) × (run env el j (p ∷ ps) t ≡ (done tt, t'))
        × ((fetched env.node t' ≡ fetched env.node t)
            ⊎ ((f : ℤ) × (k : ℕ) × IsSafe env el f
                × (fetched env.node t' ≡ countdown f k ++ fetched env.node t)
                × (k ≤ j * limit_of env el)))
  unfolding run
  run_begins j p ps t unset =
      let s0 = unopened (p ∷ ps) (env.now t) in
      let (t1, started, quiet) = startup-Unset p ps t unset in
      let (s', t', ran, begins) = ticks-Begins env el orderly limit wallets j s0 t1 (refl, refl) in
      (
        t',
        bind_done (startup env el (p ∷ ps)) (λ s. ticks env el j s >>= shutdown env el) t started
            ∙ bind_done (ticks env el j s0) (shutdown env el) t1 ran
            ∙ shutdown_unnamed s' t' (unnamed s' t1 t' begins),
        got t1 s' t' quiet begins,
      )
    where
      unnamed :
          (s' : RunState) (t1 t' : Trace)
          → Begins env el (j * limit_of env el) (unopened (p ∷ ps) (env.now t)) t1 s' t'
          → s'.session_id ≡ []
      unnamed s' t1 t' (inl (_, same, _)) = same
      unnamed s' t1 t' (inr (f, k, safe, (_, _, _, same), _)) = same

      got :
          (t1 : Trace) (s' : RunState) (t' : Trace)
          → fetched env.node t1 ≡ fetched env.node t
          → Begins env el (j * limit_of env el) (unopened (p ∷ ps) (env.now t)) t1 s' t'
          → (fetched env.node t' ≡ fetched env.node t)
            ⊎ ((f : ℤ) × (k : ℕ) × IsSafe env el f
                × (fetched env.node t' ≡ countdown f k ++ fetched env.node t)
                × (k ≤ j * limit_of env el))
      got t1 s' t' quiet (inl (_, _, none_got)) = inl (none_got ∙ quiet)
      got t1 s' t' quiet (inr (f, k, safe, (all, _, _, _), most)) =
          inr (f, k, safe, all ∙ ap (λ l. countdown f k ++ l) quiet, most)
