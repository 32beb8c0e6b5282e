-- ===== src/Txn/Panics.antt =====
-- Call data that is shorter than a selector ends the process.
use chain_ops.Common.{
  ◌<◌, ◌≡◌, refl, inl, inr, List, [], ◌∷◌, ◌++◌, Option, none, some, true, false, arith, length,
  Bool-cases, ◌==◌,
}
use chain_ops.Common.Text.{Text}
use chain_ops.Schema.{Asset, GasDetails}
use chain_ops.Chain.{Address, Slice, Tx, Receipt, Block, Eth}
use chain_ops.World.{
  Client, Node, Trace, panic, pure, or_crash, ◌>>=◌, bind_panic, bind_panic_after,
}
use chain_ops.Txn.{
  has_address, incoming_events, first_four, first_four_of, outgoing_event, is_known_target,
  get_receipt_transaction, gas_of, emit_outgoing, outgoing_events, tx_events, txs_events,
  collect_txn_events,
}

-- The transaction calls a contract with one to three bytes of call data, and the array behind the
-- slice ends before a fourth.
pub record IsShortCall (tx : Tx) : Type 0 where
  pub callee : Address
  pub calls : tx.to ≡ some callee
  pub not_empty : 0 < length tx.input.bytes
  pub too_short : length (tx.input.bytes ++ tx.input.spare) < 4

first_four-none : (s : Slice) → length (s.bytes ++ s.spare) < 4 → first_four s ≡ none
unfolding first_four
first_four-none s h = go (s.bytes ++ s.spare) h
  where
    go : (l : Text) → length l < 4 → first_four_of l ≡ none
    go [] h = refl
    go (a ∷ []) h = refl
    go (a ∷ b ∷ []) h = refl
    go (a ∷ b ∷ c ∷ []) h = refl
    go (a ∷ b ∷ c ∷ d ∷ l) h = absurd (omega arith)

module _ (eth : Eth) (eth_asset : Asset) (n : Node) (client : Client) (known : List Address) where
  module _ (tx : Tx) (short : IsShortCall tx) where
    outgoing_event_short :
        (sender addr : Address) (receipt : Option Receipt) (gas : GasDetails)
        → outgoing_event eth eth_asset tx sender addr receipt gas ≡ none
    unfolding outgoing_event
    outgoing_event_short sender addr receipt gas =
        ground (arith, short.calls, short.not_empty, first_four-none tx.input short.too_short)

    emit_outgoing_short :
        (sender addr : Address) (t : Trace)
        → (emit_outgoing eth eth_asset n client tx sender addr t).0 ≡ panic
    unfolding emit_outgoing
    emit_outgoing_short sender addr t =
        bind_panic_after (get_receipt_transaction eth eth_asset n client tx.hash)
          (λ receipt. gas_of eth eth_asset receipt >>= λ gas.
            or_crash (outgoing_event eth eth_asset tx sender addr receipt gas))
          t
          (λ receipt t'.
            bind_panic_after (gas_of eth eth_asset receipt)
              (λ gas. or_crash (outgoing_event eth eth_asset tx sender addr receipt gas)) t'
              (λ gas t''. rw (outgoing_event_short sender addr receipt gas)))

    -- A wallet that sends it to a contract that is not known.
    module _ (sender : Address) (unknown : is_known_target known tx.to ≡ false) where
      outgoing_events_short :
          (addresses : List Address) (t : Trace)
          → has_address addresses sender ≡ true
          → (outgoing_events eth eth_asset n client known tx sender addresses t).0 ≡ panic
      unfolding outgoing_events has_address
      outgoing_events_short [] t h = cc
      outgoing_events_short (a ∷ rest) t h = elim (Bool-cases (sender == a)) [
        | inl same ↦
            rw (same, unknown)
              (bind_panic (emit_outgoing eth eth_asset n client tx sender a)
                (λ e. outgoing_events eth eth_asset n client known tx sender rest >>= λ es.
                  pure (e ∷ es))
                t (emit_outgoing_short sender a t))
        | inr other ↦ rw other (outgoing_events_short rest t (ground arith))
      ]

      tx_events_short :
          (addresses : List Address) (t : Trace)
          → eth.sender tx ≡ some sender
          → has_address addresses sender ≡ true
          → (tx_events eth eth_asset n client known addresses tx t).0 ≡ panic
      unfolding tx_events
      tx_events_short addresses t from monitored =
          rw (from, tx_events)
            (bind_panic (outgoing_events eth eth_asset n client known tx sender addresses)
              (λ es. pure (incoming_events eth eth_asset tx addresses ++ es)) t
              (outgoing_events_short addresses t monitored))

      txs_events_short :
          (addresses : List Address) (earlier later : List Tx) (t : Trace)
          → eth.sender tx ≡ some sender
          → has_address addresses sender ≡ true
          → (txs_events eth eth_asset n client known addresses (earlier ++ tx ∷ later) t).0 ≡ panic
      unfolding txs_events
      txs_events_short addresses [] later t from monitored =
          bind_panic (tx_events eth eth_asset n client known addresses tx)
            (λ es.
              txs_events eth eth_asset n client known addresses later >>= λ rest. pure (es ++ rest))
            t (tx_events_short addresses t from monitored)
      txs_events_short addresses (x ∷ earlier) later t from monitored =
          bind_panic_after (tx_events eth eth_asset n client known addresses x)
            (λ es.
              txs_events eth eth_asset n client known addresses (earlier ++ tx ∷ later) >>= λ rest.
              pure (es ++ rest))
            t
            (λ es t'.
              bind_panic (txs_events eth eth_asset n client known addresses (earlier ++ tx ∷ later))
                (λ rest. pure (es ++ rest)) t'
                (txs_events_short addresses earlier later t' from monitored))

  -- A block in which a monitored wallet calls a contract outside the known ones with one to three
  -- bytes of call data, and no spare capacity behind them, panics the collector, whatever else the
  -- block holds and whatever the node answers.
  pub collect_txn_events_short :
      (block : Block) (addresses : List Address) (earlier later : List Tx) (tx : Tx)
      (sender : Address) (t : Trace)
      → IsShortCall tx
      → block.transactions ≡ earlier ++ tx ∷ later
      → eth.sender tx ≡ some sender
      → has_address addresses sender ≡ true
      → is_known_target known tx.to ≡ false
      → (collect_txn_events eth eth_asset n client known block addresses t).0 ≡ panic
  unfolding collect_txn_events
  collect_txn_events_short block addresses earlier later tx sender t short holds from monitored
        unknown =
      rw holds (txs_events_short tx short sender unknown addresses earlier later t from monitored)
