-- ===== src/Listener/Records/Gets.antt =====
-- The blocks that many ticks get from the start of a run on, whether or not it has a first block.
use chain_ops.Common.{
  ℕ, ◌*◌, ◌≡◌, sym, ap, subst, ◌∙◌, ◌⊎◌, inl, inr, ◌++◌, none, some, Option-cases,
}
use chain_ops.Common.Int.{ℤ, pos}
use chain_ops.World.{Trace, Outcome, done, panic}
use chain_ops.Listener.{EvmListener, RunState, Env, ticks}
use chain_ops.Listener.Quiet.{fetched, IsOrderly}
use chain_ops.Listener.Scan.{countdown, last_of}
use chain_ops.Listener.Range.{HasLimit}
use chain_ops.Listener.Ticks.{HasWallets, ticks-Advances}
use chain_ops.Listener.Late.{Begins, limit_of, ticks-Begins}

done_unique :
    {r : Outcome RunState × Trace} {s s' : RunState} {t t' : Trace}
    → r ≡ (done s, t)
    → r ≡ (done s', t')
    → (s' ≡ s) × (t' ≡ t)
done_unique {s = s} run run' =
    let same = sym run' ∙ run in (ap (λ x. state x.0) same, ap (λ x. x.1) same)
  where
    state : Outcome RunState → RunState
    state (done a) = a
    state panic = s

module _ (env : Env) (el : EvmListener) (orderly : IsOrderly env el) (limit : HasLimit env el)
    (wallets : HasWallets env el) where
  -- The k blocks from f on were got; the last of them is the last block.
  abbrev Got : RunState → Trace → RunState → Trace → Type 0
  Got s t s' t' =
      (f : ℤ) × (k : ℕ) × ((s.from_block ≡ none) ⊎ (s.from_block ≡ some f))
      × (fetched env.node t' ≡ countdown f k ++ fetched env.node t)
      × (s'.last_block ≡ last_of f k none)

  Begins-Got :
      (most : ℕ) (s : RunState) (t : Trace) (s' : RunState) (t' : Trace)
      → s.from_block ≡ none
      → s.last_block ≡ none
      → Begins env el most s t s' t'
      → Got s t s' t'
  Begins-Got most s t s' t' unset no_last (inl ((_, unseen), _, quiet)) =
      (pos 0, 0, inl unset, quiet, unseen)
  Begins-Got most s t s' t' unset no_last (inr (f, k, _, (all, _, last, _), _)) =
      (f, k, inl unset, all, last ∙ ap (last_of f k) no_last)

  ticks-Got :
      (j : ℕ) (s : RunState) (t : Trace)
      → s.last_block ≡ none
      → (s' : RunState) × (t' : Trace) × (ticks env el j s t ≡ (done s', t')) × Got s t s' t'
  ticks-Got j s t no_last = elim (Option-cases s.from_block) [
    | inl unset ↦
        let (s', t', run, begins) =
          ticks-Begins env el orderly limit wallets j s t (unset, no_last) in
        (s', t', run, Begins-Got (j * limit_of env el) s t s' t' unset no_last begins)
    | inr (f, at) ↦
        let (k, s', t', run, (all, _, last, _), _) =
          ticks-Advances env el orderly limit wallets j f s t (at, inl no_last) in
        (s', t', run, (f, k, inr at, all, last ∙ ap (last_of f k) no_last))
  ]

  pub ticks-Gets :
      (j : ℕ) (s : RunState) (t : Trace) (s' : RunState) (t' : Trace)
      → s.last_block ≡ none
      → ticks env el j s t ≡ (done s', t')
      → Got s t s' t'
  ticks-Gets j s t s' t' no_last run =
      let (s2, t2, ran, got) = ticks-Got j s t no_last in
      let (same_s, same_t) = done_unique run ran in
      subst (λ x. Got s t s' x) same_t (subst (λ x. Got s t x t2) same_s got)
