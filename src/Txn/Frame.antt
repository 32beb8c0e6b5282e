-- ===== src/Txn/Frame.antt =====
-- The collector of transactions makes no statement.
use chain_ops.Common.{
  refl, inl, inr, List, [], ◌∷◌, ◌++◌, Option, none, some, Bool-cases, Option-cases, ◌==◌,
}
use chain_ops.Schema.{Asset, GasDetails, ActivityEvent}
use chain_ops.Chain.{Address, Hash, Receipt, Tx, Eth}
use chain_ops.World.{Result-cases, Client, Node, get_receipt, Trace, M, pure, or_crash, ◌>>=◌}
use chain_ops.World.Frame.{SeesSql, Keeps, Keeps-bind, Keeps-or_crash, then-Keeps}
use chain_ops.Txn.{
  incoming_events, is_known_target, outgoing_event, gas_of, get_receipt_transaction, emit_outgoing,
  outgoing_events, tx_events, txs_events,
}

module _ {ℓ} {S : Type ℓ} (view : Trace → S) (sees : SeesSql view) where
  module _ (eth : Eth) (asset : Asset) (n : Node) (client : Client) where
    get_receipt_transaction-Keeps :
        (h : Hash) → Keeps view (get_receipt_transaction eth asset n client h)
    unfolding get_receipt_transaction
    get_receipt_transaction-Keeps h t = elim (Result-cases (n.transaction_receipt t client h)) [
      | inl (r, got) ↦ rw (got, get_receipt_transaction) (sees (get_receipt client h) t refl)
      | inr (e, failed) ↦ rw (failed, get_receipt_transaction) (sees (get_receipt client h) t refl)
    ]

    gas_of-Keeps : (r : Option Receipt) → Keeps view (gas_of eth asset r)
    unfolding gas_of
    gas_of-Keeps none t = refl
    gas_of-Keeps (some r) t = Keeps-or_crash view _ t

    emit_outgoing-Keeps :
        (tx : Tx) (sender addr : Address)
        → Keeps view (emit_outgoing eth asset n client tx sender addr)
    unfolding emit_outgoing
    emit_outgoing-Keeps tx sender addr =
        let event : Option Receipt → GasDetails → M ActivityEvent =
          λ receipt gas. or_crash (outgoing_event eth asset tx sender addr receipt gas) in
        Keeps-bind view (get_receipt_transaction eth asset n client tx.hash)
          (λ receipt. gas_of eth asset receipt >>= event receipt)
          (get_receipt_transaction-Keeps tx.hash)
          (λ receipt.
            Keeps-bind view (gas_of eth asset receipt) (event receipt) (gas_of-Keeps receipt)
              (λ gas. Keeps-or_crash view (outgoing_event eth asset tx sender addr receipt gas)))

    module _ (known : List Address) where
      outgoing_events-Keeps :
          (tx : Tx) (sender : Address) (addresses : List Address)
          → Keeps view (outgoing_events eth asset n client known tx sender addresses)
      unfolding outgoing_events
      outgoing_events-Keeps tx sender [] t = refl
      outgoing_events-Keeps tx sender (addr ∷ rest) t =
          let more = outgoing_events-Keeps tx sender rest in
          elim (Bool-cases (sender == addr)) [
            | inr other ↦ rw other (more t)
            | inl same ↦ elim (Bool-cases (is_known_target known tx.to)) [
              | inl target ↦ rw (same, target) (more t)
              | inr unknown ↦
                  rw (same, unknown)
                    (then-Keeps view (emit_outgoing eth asset n client tx sender addr)
                      (outgoing_events eth asset n client known tx sender rest) ◌∷◌
                      (emit_outgoing-Keeps tx sender addr) more t)
            ]
          ]

      tx_events-Keeps :
          (addresses : List Address) (tx : Tx)
          → Keeps view (tx_events eth asset n client known addresses tx)
      unfolding tx_events
      tx_events-Keeps addresses tx t = elim (Option-cases (eth.sender tx)) [
        | inl unsigned ↦ rw (unsigned, tx_events) refl
        | inr (sender, signed) ↦
            rw (signed, tx_events)
              (Keeps-bind view (outgoing_events eth asset n client known tx sender addresses)
                (λ es. pure (incoming_events eth asset tx addresses ++ es))
                (outgoing_events-Keeps tx sender addresses) (λ es t. refl) t)
      ]

      pub txs_events-Keeps :
          (addresses : List Address) (txs : List Tx)
          → Keeps view (txs_events eth asset n client known addresses txs)
      unfolding txs_events
      txs_events-Keeps addresses [] = λ t. refl
      txs_events-Keeps addresses (tx ∷ txs) =
          then-Keeps view (tx_events eth asset n client known addresses tx)
            (txs_events eth asset n client known addresses txs) ◌++◌ (tx_events-Keeps addresses tx)
            (txs_events-Keeps addresses txs)
