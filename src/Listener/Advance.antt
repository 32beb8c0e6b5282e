-- ===== src/Listener/Advance.antt =====
-- How far steps of the listener bring it: what it is to get the next k blocks from a block on.
use chain_ops.Common.{
  ℕ, ◌+◌, ◌≡◌, refl, ap, ◌∙◌, subst, ◌⊎◌, inl, inr, List, [], ◌∷◌, ◌++◌, none, some, Bool-cases,
  if◌then◌else◌,
}
use chain_ops.Common.Int.{ℤ, pos, ◌+ℤ◌}
use chain_ops.World.{Node, get_block_number, Trace}
use chain_ops.Providers.{EvmProvider, is_healthy}
use chain_ops.Providers.Recovery.{probes}
use chain_ops.Listener.{RunState}
use chain_ops.Listener.Quiet.{fetched}
use chain_ops.Listener.Scan.{
  countdown, last_of, +ℤ_zero, +ℤ_assoc, countdown-countdown, last_of-last_of,
}

-- The listener goes on at f: a last block stands right before it.
abbrev pub Resumes : RunState → ℤ → Type 0
Resumes s f =
    (s.from_block ≡ some f)
    × ((s.last_block ≡ none) ⊎ ((b : ℤ) × (s.last_block ≡ some b) × (f ≡ b +ℤ pos 1)))

module _ (n : Node) where
  -- From f on, the listener got the next k blocks in order, each once, and goes on behind them.
  abbrev pub Advances : ℤ → ℕ → RunState → Trace → RunState → Trace → Type 0
  Advances f k s t s' t' =
      (fetched n t' ≡ countdown f k ++ fetched n t)
      × Resumes s' (f +ℤ pos k)
      × (s'.last_block ≡ last_of f k s.last_block)
      × (s'.session_id ≡ s.session_id)

  -- Nothing that `Advances` speaks of has changed.
  abbrev pub Stays : RunState → Trace → RunState → Trace → Type 0
  Stays s t s' t' =
      (s'.from_block ≡ s.from_block)
      × (s'.last_block ≡ s.last_block)
      × (s'.session_id ≡ s.session_id)
      × (fetched n t' ≡ fetched n t)

  pub Resumes-last :
      (s s' : RunState) (f : ℤ)
      → s'.from_block ≡ s.from_block
      → s'.last_block ≡ s.last_block
      → Resumes s f
      → Resumes s' f
  Resumes-last s s' f from last (at, inl no_last) = (from ∙ at, inl (last ∙ no_last))
  Resumes-last s s' f from last (at, inr (b, is_last, next)) =
      (from ∙ at, inr (b, last ∙ is_last, next))

  pub Stays-Advances :
      (s s' : RunState) (t t' : Trace) (f : ℤ)
      → Stays s t s' t'
      → Resumes s f
      → Advances f 0 s t s' t'
  Stays-Advances s s' t t' f (from, last, session, same) (at, rest) =
      (same, rw (+ℤ_zero f) (Resumes-last s s' f from last (at, rest)), last, session)

  pub Stays-then-Advances :
      (s s1 s' : RunState) (t t1 t' : Trace) (f : ℤ) (k : ℕ)
      → Stays s t s1 t1
      → Advances f k s1 t1 s' t'
      → Advances f k s t s' t'
  Stays-then-Advances s s1 s' t t1 t' f k (from, last, session, same) (all, resumes, at, ids) =
      (all ∙ ap (λ l. countdown f k ++ l) same, resumes, at ∙ ap (last_of f k) last, ids ∙ session)

  -- Two advances, one behind the other.
  pub Advances-trans :
      (f : ℤ) (k1 k2 : ℕ) (s s1 s2 : RunState) (t t1 t2 : Trace)
      → Advances f k1 s t s1 t1
      → Advances (f +ℤ pos k1) k2 s1 t1 s2 t2
      → Advances f (k2 + k1) s t s2 t2
  Advances-trans f k1 k2 s s1 s2 t t1 t2 (all1, _, last1, id1) (all2, resumes, last2, id2) = (
    all2
        ∙ ap (λ l. countdown (f +ℤ pos k1) k2 ++ l) all1
        ∙ countdown-countdown f k1 k2 (fetched n t),
    subst (Resumes s2) (+ℤ_assoc f k1 k2) resumes,
    last2 ∙ ap (last_of (f +ℤ pos k1) k2) last1 ∙ last_of-last_of f k1 k2 s.last_block,
    id2 ∙ id1,
  )

  fetched-probe :
      (p : EvmProvider) (t : Trace)
      → fetched n (if is_healthy p then t else get_block_number p.client ∷ t) ≡ fetched n t
  fetched-probe p t = elim (Bool-cases (is_healthy p)) [
    | inl up ↦ rw up refl
    | inr down ↦ rw down refl
  ]

  pub fetched-probes : (ps : List EvmProvider) (t : Trace) → fetched n (probes ps t) ≡ fetched n t
  fetched-probes [] t = refl
  fetched-probes (p ∷ ps) t = fetched-probes ps _ ∙ fetched-probe p t
