-- ===== src/Providers/Recovery.antt =====
-- `recoverUnhealthyProviders`: who is probed, and what a probe changes.
use chain_ops.Common.{ℕ, ◌≡◌, refl, inl, inr, List, [], ◌∷◌, arith, if◌then◌else◌}
use chain_ops.Common.Int.{pos}
use chain_ops.World.{Error, ok, err, Result-cases, Node, Trace, get_block_number, done}
use chain_ops.Providers.{healthy, EvmProvider, is_healthy, recover, recover_unhealthy_providers}
use chain_ops.Providers.Health.{IsValid, IsUp, IsDown, status_cases}

-- The trace after one probe of each unhealthy provider, in list order.
abbrev pub probes : List EvmProvider → Trace → Trace
probes [] t = t
probes (p ∷ ps) t = probes ps (if is_healthy p then t else get_block_number p.client ∷ t)

abbrev pub revived : EvmProvider → EvmProvider
revived p = record p { failure_count = pos 0; status = healthy }

-- What recovery makes of a provider that it comes to behind the trace t. A probe that the node
-- answers brings the provider back, and one that fails changes nothing.
pub data Recovers (n : Node) (t : Trace) (p : EvmProvider) : EvmProvider → Type 0 where
  still_up : IsUp p → Recovers n t p p
  back : (b : ℕ) → IsDown p → n.block_number t p.client ≡ ok b → Recovers n t p (revived p)
  still_down : (e : Error) → IsDown p → n.block_number t p.client ≡ err e → Recovers n t p p

-- The same at each position of two lists of one length, each behind the probes before it.
abbrev pub AllRecover : Node → Trace → List EvmProvider → List EvmProvider → Type 0
AllRecover n t [] [] = Unit
AllRecover n t [] (_ ∷ _) = ⊥
AllRecover n t (_ ∷ _) [] = ⊥
AllRecover n t (p ∷ ps) (p' ∷ ps') =
    Recovers n t p p'
    × AllRecover n (if is_healthy p then t else get_block_number p.client ∷ t) ps ps'

pub Recovers-IsValid :
    (n : Node) (t : Trace) (p p' : EvmProvider) → Recovers n t p p' → IsValid p → IsValid p'
Recovers-IsValid n t p p' (still_up up) v = v
Recovers-IsValid n t p p' (back b down answered) v = inl (refl, refl)
Recovers-IsValid n t p p' (still_down e down failed) v = v

module _ (n : Node) where
  -- Recovery always returns. It probes each unhealthy provider once, in list order, and no healthy
  -- one. A healthy provider stays as it is. An unhealthy one is healthy again with no failure
  -- counted where the node answers its probe, and stays as it is where the probe fails.
  pub recover_unhealthy_providers_lem :
      (ps : List EvmProvider) (t : Trace)
      → (ps' : List EvmProvider) × (recover_unhealthy_providers n ps t ≡ (done ps', probes ps t))
        × AllRecover n t ps ps'
  unfolding recover_unhealthy_providers recover
  recover_unhealthy_providers_lem [] t = ([], refl, tt)
  recover_unhealthy_providers_lem (p ∷ ps) t = elim (status_cases p) [
    | inl up ↦
        let (ps', run, rest) = recover_unhealthy_providers_lem ps t in
        (p ∷ ps', ground (arith, run), (still_up up, rw up rest))
    | inr down ↦
        let (ps', run, rest) = recover_unhealthy_providers_lem ps (get_block_number p.client ∷ t) in
        elim (Result-cases (n.block_number t p.client)) [
          | inl (b, answered) ↦
              (revived p ∷ ps', ground (arith, run), (back b down answered, rw down rest))
          | inr (e, failed) ↦
              (p ∷ ps', ground (arith, run), (still_down e down failed, rw down rest))
        ]
  ]
