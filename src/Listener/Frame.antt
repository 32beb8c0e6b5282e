-- ===== src/Listener/Frame.antt =====
-- What makes no statement: the work on blocks, the loop over their numbers, and the recovery of
-- providers.
use chain_ops.Common.{
  ℕ, zero, suc, ◌≡◌, refl, ap, ◌∙◌, inl, inr, List, [], ◌∷◌, ◌++◌, some, Bool-cases, Option-cases,
  if◌then◌else◌, take,
}
use chain_ops.Common.Int.{ℤ, pos, ◌+ℤ◌, leb_ℤ}
use chain_ops.Schema.{ActivityEvent, BlockActivityMessage}
use chain_ops.Chain.{Address, Block}
use chain_ops.World.{Result-cases, Client, Broker, NatsMsg, get_block, publish_msg, Trace, M, pure}
use chain_ops.World.Frame.{SeesSql, Keeps, Keeps-bind, then-Keeps}
use chain_ops.Publisher.{Publisher, publish}
use chain_ops.Publisher.Delivery.{push, all_wires, publish_delivers}
use chain_ops.Txn.{collect_txn_events}
use chain_ops.Usdc.{collect_usdc_events}
use chain_ops.Listener.{
  EvmListener, RunState, Env, block_events, block_message, publish_events, process_block,
  scan_blocks,
}
use chain_ops.Txn.Frame.{txs_events-Keeps}
use chain_ops.Usdc.Frame.{collect_usdc_events-Keeps}
use chain_ops.Common.{true, false, ltb}
use chain_ops.World.{◌>>=◌, read_clock, get_block_number, done}
use chain_ops.Providers.{EvmProvider, is_healthy, recover_unhealthy_providers}
use chain_ops.Providers.Recovery.{probes, recover_unhealthy_providers_lem}
use chain_ops.Listener.{require_retry, tick_providers}
use chain_ops.Listener.Ready.{require_retry_soon, require_retry_due}

module _ {ℓ} {S : Type ℓ} (view : Trace → S) (sees : SeesSql view) where
  push-Keeps : (ms : List NatsMsg) (t : Trace) → view (push ms t) ≡ view t
  push-Keeps [] t = refl
  push-Keeps (m ∷ ms) t = push-Keeps ms (publish_msg m ∷ t) ∙ sees (publish_msg m) t refl

  publish-Keeps :
      (b : Broker) (p : Publisher) (msg : BlockActivityMessage) → Keeps view (publish b p msg)
  publish-Keeps b p msg t =
      let (k, r, run, _, _) = publish_delivers b p msg t in
      ap (λ x. view x.1) run ∙ push-Keeps (take k (all_wires b p msg)) t

  module _ (env : Env) (el : EvmListener) (client : Client) (addresses : List Address) where
    block_events-Keeps : (block : Block) → Keeps view (block_events env el client addresses block)
    unfolding block_events collect_txn_events
    block_events-Keeps block =
        let usdc : M (List ActivityEvent) =
          if el.usdc_listen
          then collect_usdc_events env.eth el.usdc env.node client block addresses
          else pure [] in
        then-Keeps view
          (collect_txn_events env.eth el.eth_asset env.node client el.known_contracts block
            addresses)
          usdc ◌++◌
          (txs_events-Keeps view sees env.eth el.eth_asset env.node client el.known_contracts
            addresses block.transactions)
          (λ t. elim (Bool-cases el.usdc_listen) [
            | inl on ↦ rw on (
                collect_usdc_events-Keeps view sees env.eth el.usdc env.node client addresses block
                  t)
            | inr off ↦ rw off refl
          ])

    publish_events-Keeps :
        (block : Block) (es : List ActivityEvent) → Keeps view (publish_events env el block es)
    unfolding publish_events block_message
    publish_events-Keeps block [] t = refl
    publish_events-Keeps block (e ∷ es) t = elim (Option-cases el.publisher) [
      | inl off ↦ rw off refl
      | inr (p, on) ↦ rw on (
          Keeps-bind view (publish env.broker p (block_message env el block (e ∷ es)))
            (λ _. pure tt) (publish-Keeps env.broker p (block_message env el block (e ∷ es)))
            (λ _ t. refl) t)
    ]

    -- A view of the trace that looks at nothing but the statements, such as the tables, is the same
    -- behind the work on a block, whatever the environment answers and also where it panics.
    pub process_block-Keeps :
        (block : Block) → Keeps view (process_block env el client addresses block)
    unfolding process_block
    process_block-Keeps block =
        Keeps-bind view (block_events env el client addresses block) (publish_events env el block)
          (block_events-Keeps block) (publish_events-Keeps block)

    pub scan_blocks-Keeps :
        (fuel : ℕ) (i : ℕ) (b safe_block : ℤ) (s : RunState)
        → Keeps view (scan_blocks env el fuel client i addresses b safe_block s)
    unfolding scan_blocks
    scan_blocks-Keeps zero i b safe_block s t = refl
    scan_blocks-Keeps (suc fuel) i b safe_block s t = elim (Bool-cases (leb_ℤ b safe_block)) [
      | inr behind ↦ rw (behind, scan_blocks) refl
      | inl inside ↦ elim (Result-cases (env.node.block_by_number t client b)) [
        | inr (e, failed) ↦ rw (inside, failed, scan_blocks) (sees (get_block client b) t refl)
        | inl (block, got) ↦
            rw (inside, got, scan_blocks)
              (Keeps-bind view (process_block env el client addresses block)
                  (λ _.
                    scan_blocks env el fuel client i addresses (b +ℤ pos 1) safe_block
                      (record s { last_block = some b }))
                  (process_block-Keeps block)
                  (λ _.
                    scan_blocks-Keeps fuel i (b +ℤ pos 1) safe_block
                      (record s { last_block = some b }))
                  (get_block client b ∷ t)
                ∙ sees (get_block client b) t refl)
      ]
    ]

  -- A call that is no statement, by its run.
  quiet_step :
      {A : Type 0} (m : M A) {a : A} {t t' : Trace}
      → m t ≡ (done a, t')
      → view t' ≡ view t
      → view (m t).1 ≡ view t
  quiet_step m run same = ap (λ r. view r.1) run ∙ same

  module _ (env : Env) (el : EvmListener) where
    require_retry-Keeps : (next : ℕ) → Keeps view (require_retry env next)
    require_retry-Keeps next t = elim (Bool-cases (ltb (env.now t) next)) [
      | inl soon ↦
          quiet_step (require_retry env next) (require_retry_soon env el next t soon)
            (sees read_clock t refl)
      | inr due ↦
          quiet_step (require_retry env next) (require_retry_due env el next t due)
            (sees read_clock (read_clock ∷ t) refl ∙ sees read_clock t refl)
    ]

    view-probes : (ps : List EvmProvider) (t : Trace) → view (probes ps t) ≡ view t
    view-probes [] t = refl
    view-probes (p ∷ ps) t = view-probes ps _ ∙ elim (Bool-cases (is_healthy p)) [
      | inl up ↦ rw up refl
      | inr down ↦ rw down (sees (get_block_number p.client) t refl)
    ]

    pub tick_providers-Keeps : (s : RunState) → Keeps view (tick_providers env el s)
    unfolding tick_providers
    tick_providers-Keeps s =
        let recovered : ℕ → List EvmProvider → M RunState =
          λ next ps. pure (record s { next_provider_retry = next; providers = ps }) in
        Keeps-bind view (require_retry env s.next_provider_retry)
          (λ retry. elim retry.0 as (λ _. M RunState) [
            | true ↦ recover_unhealthy_providers env.node s.providers >>= recovered retry.1
            | false ↦ pure (record s { next_provider_retry = retry.1 })
          ])
          (require_retry-Keeps s.next_provider_retry)
          (λ retry t. elim (Bool-cases retry.0) [
            | inl due ↦ rw due (
                Keeps-bind view (recover_unhealthy_providers env.node s.providers)
                  (recovered retry.1)
                  (λ t.
                    let (ps, run, _) = recover_unhealthy_providers_lem env.node s.providers t in
                    quiet_step (recover_unhealthy_providers env.node s.providers) run
                      (view-probes s.providers t))
                  (λ ps t. refl) t)
            | inr soon ↦ rw soon refl
          ])
