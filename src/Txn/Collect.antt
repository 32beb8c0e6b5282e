-- ===== src/Txn/Collect.antt =====
-- `collectTxnEvents` as a whole: it returns, what it returns, and which receipts it asks for.
use chain_ops.Common.{
  ◌≡◌, ◌≢◌, refl, sym, ap, ◌∙◌, inl, inr, List, [], ◌∷◌, ◌++◌, append-nil, none, true, false, arith,
  All, map, Bool-cases, Option-cases, if◌then◌else◌, ◌==◌, ==_iff,
}
use chain_ops.Schema.{Asset, ActivityEvent}
use chain_ops.Chain.{Address, Hash, Tx, Receipt, Block, Eth}
use chain_ops.World.{
  ok, Result-cases, bind_done, Client, Node, get_receipt, Trace, Outcome, M, done, pure, or_crash,
  ◌>>=◌,
}
use chain_ops.Txn.{
  incoming_events, get_gas_details, is_known_target, get_receipt_transaction, outgoing_event,
  gas_of, emit_outgoing, outgoing_events, tx_events, txs_events, collect_txn_events, before,
}
use chain_ops.Txn.Expected.{
  equal_to, matching, HasSelector, expect_outgoing, expect_incoming, expect_gas, expect_all,
  expect_tx, expect_txs, senders, fetches, given, outgoing_event_lem, incoming_events_lem,
}

before_lem :
    (one : M ActivityEvent) (rest : M (List ActivityEvent)) (t : Trace) {e : ActivityEvent}
    {es : List ActivityEvent} {t1 t2 : Trace}
    → one t ≡ (done e, t1)
    → rest t1 ≡ (done es, t2)
    → before one rest t ≡ (done (e ∷ es), t2)
before_lem one rest t {e} emitted run =
    bind_done one (λ e. rest >>= λ es. pure (e ∷ es)) t emitted
    ∙ bind_done rest (λ es. pure (e ∷ es)) _ run

module _ (eth : Eth) (eth_asset : Asset) (n : Node) (client : Client) where
  -- Every receipt that the node hands out has a price.
  abbrev pub Priced : Type 0
  Priced =
      (t : Trace) (h : Hash) (r : Receipt)
      → n.transaction_receipt t client h ≡ ok r
      → r.effective_gas_price ≢ none

  gas_of_lem :
      (tx : Tx) (t t' : Trace)
      → Priced
      → let answer = n.transaction_receipt t client tx.hash in
        gas_of eth eth_asset (given answer) t' ≡ (done (expect_gas eth_asset answer), t')
  unfolding gas_of get_gas_details
  gas_of_lem tx t t' priced = elim (Result-cases (n.transaction_receipt t client tx.hash)) [
    | inr (x, missing) ↦ rw missing refl
    | inl (r, found) ↦ elim (Option-cases r.effective_gas_price) [
      | inl unpriced ↦ absurd (priced t tx.hash r found unpriced)
      | inr (price, is_priced) ↦ rw (found, is_priced) refl
    ]
  ]

  get_receipt_transaction_lem :
      (h : Hash) (t : Trace)
      → get_receipt_transaction eth eth_asset n client h t
        ≡ (done (given (n.transaction_receipt t client h)), get_receipt client h ∷ t)
  unfolding get_receipt_transaction
  get_receipt_transaction_lem h t = elim (Result-cases (n.transaction_receipt t client h)) [
    | inr (x, missing) ↦ rw missing refl
    | inl (r, found) ↦ rw found refl
  ]

  -- With priced receipts and a selector in the call data, one outgoing event asks for the receipt
  -- of its transaction once. The event is the expected one for the node's answer: the kind, target
  -- and amount of the transaction, the native asset, the fee of the receipt, or blank details where
  -- the node gave none, and as metadata the new contract's address or the selector of the call,
  -- with the status of the receipt where the node gave one.
  pub emit_outgoing_lem :
      (tx : Tx) (a : Address) (t : Trace)
      → Priced
      → HasSelector tx
      → emit_outgoing eth eth_asset n client tx a a t ≡ (
        done (expect_outgoing eth eth_asset tx a (n.transaction_receipt t client tx.hash)),
        get_receipt client tx.hash ∷ t,
      )
  unfolding emit_outgoing
  emit_outgoing_lem tx a t priced selectable =
      let answer = n.transaction_receipt t client tx.hash in
      let t1 = get_receipt client tx.hash ∷ t in
      bind_done (get_receipt_transaction eth eth_asset n client tx.hash)
        (λ receipt. gas_of eth eth_asset receipt >>= λ gas.
          or_crash (outgoing_event eth eth_asset tx a a receipt gas))
        t (get_receipt_transaction_lem tx.hash t)
      ∙ bind_done (gas_of eth eth_asset (given answer))
          (λ gas. or_crash (outgoing_event eth eth_asset tx a a (given answer) gas)) t1
          (gas_of_lem tx t t1 priced)
      ∙ rw (outgoing_event_lem eth eth_asset tx a answer selectable) refl

  module _ (known : List Address) where
    outgoing_events_known :
        (tx : Tx) (sender : Address) (addresses : List Address) (t : Trace)
        → is_known_target known tx.to ≡ true
        → outgoing_events eth eth_asset n client known tx sender addresses t ≡ (done [], t)
    unfolding outgoing_events
    outgoing_events_known tx sender [] t skip = refl
    outgoing_events_known tx sender (a ∷ rest) t skip =
        ground (arith, outgoing_events_known tx sender rest t skip)

    outgoing_events_unknown :
        (tx : Tx) (sender : Address) (addresses : List Address) (t : Trace)
        → Priced
        → HasSelector tx
        → is_known_target known tx.to ≡ false
        → let wallets = equal_to sender addresses in
          outgoing_events eth eth_asset n client known tx sender addresses t ≡ (
            done (expect_all eth eth_asset n client tx wallets t),
            fetches client tx.hash wallets t,
          )
    unfolding outgoing_events
    outgoing_events_unknown tx sender [] t priced selectable keep = refl
    outgoing_events_unknown tx sender (a ∷ rest) t priced selectable keep =
        elim (Bool-cases (sender == a)) [
          | inl equal ↦
              let is_a : sender ≡ a = (==_iff sender a).0 equal in
              rw (equal, keep)
                (before_lem (emit_outgoing eth eth_asset n client tx sender a)
                  (outgoing_events eth eth_asset n client known tx sender rest) t
                  (rw is_a (emit_outgoing_lem tx a t priced selectable))
                  (outgoing_events_unknown tx sender rest (get_receipt client tx.hash ∷ t) priced
                    selectable keep))
          | inr other ↦ rw other (outgoing_events_unknown tx sender rest t priced selectable keep)
        ]

    outgoing_events_lem :
        (tx : Tx) (sender : Address) (addresses : List Address) (t : Trace)
        → Priced
        → HasSelector tx
        → let wallets = if is_known_target known tx.to then [] else equal_to sender addresses in
          outgoing_events eth eth_asset n client known tx sender addresses t ≡ (
            done (expect_all eth eth_asset n client tx wallets t),
            fetches client tx.hash wallets t,
          )
    outgoing_events_lem tx sender addresses t priced selectable =
        elim (Bool-cases (is_known_target known tx.to)) [
          | inl skip ↦ rw skip (outgoing_events_known tx sender addresses t skip)
          | inr keep ↦
              rw keep (outgoing_events_unknown tx sender addresses t priced selectable keep)
        ]

    senders_unknown :
        (tx : Tx) (addresses : List Address)
        → eth.sender tx ≡ none
        → senders eth known tx addresses ≡ []
    senders_unknown tx addresses unknown = elim (Bool-cases (is_known_target known tx.to)) [
      | inl skip ↦ rw skip
      | inr keep ↦ rw (keep, unknown)
    ]

    tx_events_lem :
        (addresses : List Address) (tx : Tx) (t : Trace)
        → Priced
        → HasSelector tx
        → tx_events eth eth_asset n client known addresses tx t ≡ (
          done (expect_tx eth eth_asset n client known addresses tx t),
          fetches client tx.hash (senders eth known tx addresses) t,
        )
    unfolding tx_events
    tx_events_lem addresses tx t priced selectable =
        let got = incoming_events_lem eth eth_asset tx addresses in
        let both : List Address → List ActivityEvent → Outcome (List ActivityEvent) × Trace =
          λ w es.
            (done (es ++ expect_all eth eth_asset n client tx w t), fetches client tx.hash w t) in
        elim (Option-cases (eth.sender tx)) [
          | inl unknown ↦
              rw (unknown, tx_events) (ap (λ es. (done es, t)) (got ∙ sym (append-nil _)))
              ∙ ap (λ w. both w (map (expect_incoming eth eth_asset tx) (matching tx.to addresses)))
                  (sym (senders_unknown tx addresses unknown))
          | inr (sender, from) ↦
              rw (from, tx_events)
                (bind_done (outgoing_events eth eth_asset n client known tx sender addresses)
                    (λ es. pure (incoming_events eth eth_asset tx addresses ++ es)) t
                    (outgoing_events_lem tx sender addresses t priced selectable)
                  ∙ ap
                      (both (if is_known_target known tx.to then [] else equal_to sender addresses))
                      got)
        ]

    -- The receipt requests for a list of transactions.
    abbrev pub all_fetches : List Address → List Tx → Trace → Trace
    all_fetches addresses [] t = t
    all_fetches addresses (tx ∷ txs) t =
        all_fetches addresses txs (fetches client tx.hash (senders eth known tx addresses) t)

    txs_events_lem :
        (addresses : List Address) (txs : List Tx) (t : Trace)
        → Priced
        → All HasSelector txs
        → txs_events eth eth_asset n client known addresses txs t ≡ (
          done (expect_txs eth eth_asset n client known addresses txs t),
          all_fetches addresses txs t,
        )
    unfolding txs_events
    txs_events_lem addresses [] t priced selectable = refl
    txs_events_lem addresses (tx ∷ txs) t priced (first, others) =
        let t' = fetches client tx.hash (senders eth known tx addresses) t in
        let es = expect_tx eth eth_asset n client known addresses tx t in
        bind_done (tx_events eth eth_asset n client known addresses tx)
          (λ es.
            txs_events eth eth_asset n client known addresses txs >>= λ rest. pure (es ++ rest))
          t (tx_events_lem addresses tx t priced first)
        ∙ bind_done (txs_events eth eth_asset n client known addresses txs)
            (λ rest. pure (es ++ rest)) t' (txs_events_lem addresses txs t' priced others)

    -- With priced receipts, and a selector in all call data that is not empty, the collector
    -- returns. Its events are, transaction by transaction, one incoming transfer for each entry of
    -- the address list that is the target, then one outgoing event for each entry that is the
    -- sender, unless the target is a known token contract. Each event is the expected one with its
    -- asset, gas details and metadata, by the node's answer to the request for the transaction's
    -- receipt, which is made once for each outgoing event, and for no other.
    pub collect_txn_events_lem :
        (block : Block) (addresses : List Address) (t : Trace)
        → Priced
        → All HasSelector block.transactions
        → collect_txn_events eth eth_asset n client known block addresses t ≡ (
          done (expect_txs eth eth_asset n client known addresses block.transactions t),
          all_fetches addresses block.transactions t,
        )
    unfolding collect_txn_events
    collect_txn_events_lem block addresses t = txs_events_lem addresses block.transactions t
