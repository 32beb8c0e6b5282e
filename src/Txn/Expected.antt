-- ===== src/Txn/Expected.antt =====
-- Which events a block's transactions give: an independent description by the matching addresses
-- and the node's answers, and what the pure parts of the collector return by it.
use chain_ops.Common.{
  ◌*◌, ◌≤◌, ◌<◌, ◌≡◌, refl, ap, inl, inr, List, [], ◌∷◌, ◌++◌, Option, none, some, arith, length,
  map, Bool-cases, Option-cases, if◌then◌else◌, ◌==◌, ==_iff, take,
}
use chain_ops.Common.Text.{Text, codes, decimal, hex}
use chain_ops.Schema.{
  EventType, native_transfer, contract_interaction, contract_deployment, incoming, outgoing, Asset,
  GasDetails, ActivityEvent, Metadata, uint, text,
}
use chain_ops.Chain.{Address, Hash, Slice, Tx, Receipt, Eth}
use chain_ops.World.{Result, ok, err, Node, Client, get_receipt, Trace}
use chain_ops.Txn.{
  incoming_to, incoming_events, outgoing_event, base_event, first_four, first_four_of,
  deployment_metadata, call_metadata, is_known_target, no_gas_details,
}

-- The entries of the address list that are this address.
abbrev pub equal_to : Address → List Address → List Address
equal_to a [] = []
equal_to a (b ∷ rest) = if a == b then b ∷ equal_to a rest else equal_to a rest

abbrev pub matching : Option Address → List Address → List Address
matching none addresses = []
matching (some a) addresses = equal_to a addresses

-- Deployment without a target, transfer without call data, a call otherwise.
abbrev pub kind_of : Tx → EventType
kind_of tx = elim tx.to [
  | none ↦ contract_deployment
  | some _ ↦ if length tx.input.bytes == 0 then native_transfer else contract_interaction
]

-- Call data that is not empty has a selector to cut off.
abbrev pub HasSelector : Tx → Type 0
HasSelector tx = 0 < length tx.input.bytes → 4 ≤ length (tx.input.bytes ++ tx.input.spare)

-- The receipt requests for one transaction, one for each of the wallets.
abbrev pub fetches : Client → Hash → List Address → Trace → Trace
fetches client h [] t = t
fetches client h (_ ∷ rest) t = fetches client h rest (get_receipt client h ∷ t)

-- The gas details that belong to an answer of the node: the fee of the receipt, or blank ones.
abbrev pub expect_gas : Asset → Result Receipt → GasDetails
expect_gas eth_asset (err _) = no_gas_details
expect_gas eth_asset (ok r) = elim r.effective_gas_price [
  | none ↦ no_gas_details
  | some price ↦ record {
    fee_paid = decimal (price * r.gas_used);
    fee_asset = eth_asset.symbol;
    gas_used = r.gas_used;
    effective_gas_price = decimal price;
  }
]

-- The entry for the status of a receipt, where the node gave one.
abbrev status_entry : Result Receipt → Metadata
status_entry (err _) = []
status_entry (ok r) = (codes "status", uint r.status) ∷ []

module _ (eth : Eth) where
  abbrev pub target : Tx → Text
  target tx = elim tx.to [ none ↦ [] | some to ↦ eth.address_hex to ]

  abbrev created_entry : Result Receipt → Metadata
  created_entry (err _) = []
  created_entry (ok r) = (codes "contract_address", text (eth.address_hex r.contract_address)) ∷ []

  -- The address of a new contract, or the selector of a call, and the status of the receipt.
  abbrev pub expect_metadata : Tx → Result Receipt → Metadata
  expect_metadata tx answer = elim tx.to [
    | none ↦ created_entry answer ++ status_entry answer
    | some _ ↦
        if length tx.input.bytes == 0
        then []
        else (
          codes "selector",
          text (codes "0x" ++ hex (take 4 (tx.input.bytes ++ tx.input.spare))),
        )
          ∷ status_entry answer
  ]

  -- The wallets that a transaction has an outgoing event for.
  abbrev pub senders : List Address → Tx → List Address → List Address
  senders known tx addresses =
      if is_known_target known tx.to then [] else matching (eth.sender tx) addresses

  module _ (eth_asset : Asset) where
    abbrev pub expect_incoming : Tx → Address → ActivityEvent
    expect_incoming tx a = record {
      wallet_address = eth.address_hex a;
      tx_hash = eth.hash_hex tx.hash;
      event_type = native_transfer;
      activity_type = incoming;
      from_address = [];
      to_address = eth.address_hex a;
      amount = decimal tx.value;
      asset = some eth_asset;
      gas_details = none;
      metadata = [];
    }

    -- The event of a sender, by the node's answer to the request for the receipt.
    abbrev pub expect_outgoing : Tx → Address → Result Receipt → ActivityEvent
    expect_outgoing tx a answer = record {
      wallet_address = eth.address_hex a;
      tx_hash = eth.hash_hex tx.hash;
      event_type = kind_of tx;
      activity_type = outgoing;
      from_address = eth.address_hex a;
      to_address = target tx;
      amount = decimal tx.value;
      asset = some eth_asset;
      gas_details = some (expect_gas eth_asset answer);
      metadata = expect_metadata tx answer;
    }

    module _ (n : Node) (client : Client) where
      -- The outgoing events for these wallets, behind the trace t; each asks for the receipt anew.
      abbrev pub expect_all : Tx → List Address → Trace → List ActivityEvent
      expect_all tx [] t = []
      expect_all tx (a ∷ rest) t =
          expect_outgoing tx a (n.transaction_receipt t client tx.hash)
          ∷ expect_all tx rest (get_receipt client tx.hash ∷ t)

      abbrev pub expect_tx : List Address → List Address → Tx → Trace → List ActivityEvent
      expect_tx known addresses tx t =
          map (expect_incoming tx) (matching tx.to addresses)
          ++ expect_all tx (senders known tx addresses) t

      abbrev pub expect_txs : List Address → List Address → List Tx → Trace → List ActivityEvent
      expect_txs known addresses [] t = []
      expect_txs known addresses (tx ∷ txs) t =
          expect_tx known addresses tx t
          ++ expect_txs known addresses txs (fetches client tx.hash (senders known tx addresses) t)

    incoming_to_lem :
        (tx : Tx) (to : Address) (addresses : List Address)
        → incoming_to eth eth_asset tx to addresses
          ≡ map (expect_incoming tx) (equal_to to addresses)
    unfolding incoming_to
    incoming_to_lem tx to [] = refl
    incoming_to_lem tx to (a ∷ rest) = elim (Bool-cases (to == a)) [
      | inl same ↦
          let e : to ≡ a = (==_iff to a).0 same in
          rw (same, incoming_to_lem tx to rest)
            (ap
              (λ b.
                record (expect_incoming tx a) { to_address = eth.address_hex b }
                ∷ map (expect_incoming tx) (equal_to to rest))
              e)
      | inr other ↦ rw (other, incoming_to_lem tx to rest)
    ]

    pub incoming_events_lem :
        (tx : Tx) (addresses : List Address)
        → incoming_events eth eth_asset tx addresses
          ≡ map (expect_incoming tx) (matching tx.to addresses)
    unfolding incoming_events
    incoming_events_lem tx addresses = elim (Option-cases tx.to) [
      | inl nothing ↦ rw nothing
      | inr (to, target) ↦ rw target (incoming_to_lem tx to addresses)
    ]

first_four_lem :
    (s : Slice)
    → 4 ≤ length (s.bytes ++ s.spare)
    → first_four s ≡ some (take 4 (s.bytes ++ s.spare))
unfolding first_four
first_four_lem s h = go (s.bytes ++ s.spare) h
  where
    go : (l : Text) → 4 ≤ length l → first_four_of l ≡ some (take 4 l)
    go [] h = absurd (omega arith)
    go (a ∷ []) h = absurd (omega arith)
    go (a ∷ b ∷ []) h = absurd (omega arith)
    go (a ∷ b ∷ c ∷ []) h = absurd (omega arith)
    go (a ∷ b ∷ c ∷ d ∷ l) h = refl

abbrev pub given : Result Receipt → Option Receipt
given (err _) = none
given (ok r) = some r

deployment_metadata_lem :
    (eth : Eth) (eth_asset : Asset) (answer : Result Receipt)
    → deployment_metadata eth eth_asset (given answer)
      ≡ created_entry eth answer ++ status_entry answer
deployment_metadata_lem eth eth_asset (err _) = refl
deployment_metadata_lem eth eth_asset (ok _) = refl

call_metadata_lem :
    (eth : Eth) (eth_asset : Asset) (selector : Text) (answer : Result Receipt)
    → call_metadata eth eth_asset selector (given answer)
      ≡ (codes "selector", text (codes "0x" ++ hex selector)) ∷ status_entry answer
call_metadata_lem eth eth_asset selector (err _) = refl
call_metadata_lem eth eth_asset selector (ok _) = refl

-- A transaction with a selector has its expected event.
pub outgoing_event_lem :
    (eth : Eth) (eth_asset : Asset) (tx : Tx) (a : Address) (answer : Result Receipt)
    → HasSelector tx
    → outgoing_event eth eth_asset tx a a (given answer) (expect_gas eth_asset answer)
      ≡ some (expect_outgoing eth eth_asset tx a answer)
unfolding outgoing_event base_event
outgoing_event_lem eth eth_asset tx a answer selectable =
    let event = λ (kind : EventType) (to : Text) (x : Metadata).
      some (base_event eth eth_asset tx a a (expect_gas eth_asset answer) kind to x) in
    elim (Option-cases tx.to) [
      | inl nothing ↦
          rw nothing
            (ap (event contract_deployment []) (deployment_metadata_lem eth eth_asset answer))
      | inr (to, called) ↦ elim (Bool-cases (length tx.input.bytes == 0)) [
        | inl empty ↦ rw (called, empty)
        | inr with_data ↦
            let found = first_four_lem tx.input (selectable (ground arith)) in
            let selector = take 4 (tx.input.bytes ++ tx.input.spare) in
            rw (called, with_data, found)
              (ap (event contract_interaction (eth.address_hex to))
                (call_metadata_lem eth eth_asset selector answer))
      ]
    ]
