-- ===== src/Txn.antt =====
-- `collectTxnEvents` of services/listener/service/evm_listener.go, with `getGasDetails` and
-- `getReceiptTransaction`: the native transfers, contract calls and deployments of a block that
-- touch a monitored wallet. `signer` is part of `Eth.sender`; the known contracts are a list.
pub mod Expected
pub mod Panics
pub mod Frame
pub mod Collect
use chain_ops.Common.{
  ℕ, zero, suc, ◌*◌, List, [], ◌∷◌, ◌++◌, Option, none, some, Bool, true, false, ◌||◌, ◌==◌, length,
  if◌then◌else◌,
}
use chain_ops.Common.Text.{Text, codes, decimal, hex}
use chain_ops.Schema.{
  EventType, native_transfer, contract_interaction, contract_deployment, incoming, outgoing, Asset,
  GasDetails, MetadataValue, uint, text, Metadata, ActivityEvent,
}
use chain_ops.Chain.{Address, Hash, Slice, Tx, Receipt, Block, Eth}
use chain_ops.World.{
  Result, ok, err, Client, Node, get_receipt, M, done, panic, pure, crash, call, or_crash, ◌>>=◌,
}

-- A `map[common.Address]struct{}` read by `_, ok := m[a]`.
unfoldable pub has_address : List Address → Address → Bool
has_address [] a = false
has_address (k ∷ ks) a = k == a || has_address ks a

-- s[:4]: a slice bound is checked against the capacity, and bytes behind the length are shown.
first_four_of : Text → Option Text
first_four_of (a ∷ b ∷ c ∷ d ∷ _) = some (a ∷ b ∷ c ∷ d ∷ [])
first_four_of _ = none

unfoldable pub first_four : Slice → Option Text
unfolding first_four_of
first_four s = first_four_of (s.bytes ++ s.spare)

-- &schema.GasDetails{}
abbrev pub no_gas_details : GasDetails
no_gas_details = record { fee_paid = []; fee_asset = []; gas_used = 0; effective_gas_price = [] }

-- `getGasDetails`; the multiplication dereferences the price.
unfoldable pub get_gas_details : Asset → Receipt → Option GasDetails
get_gas_details eth_asset receipt = elim receipt.effective_gas_price [
  | none ↦ none
  | some price ↦ some (record {
    fee_paid = decimal (price * receipt.gas_used);
    fee_asset = eth_asset.symbol;
    gas_used = receipt.gas_used;
    effective_gas_price = decimal price;
  })
]

-- The transaction targets a known token contract.
abbrev pub is_known_target : List Address → Option Address → Bool
is_known_target known none = false
is_known_target known (some to) = has_address known to

-- One event, and then those of the rest of a loop.
abbrev pub before : M ActivityEvent → M (List ActivityEvent) → M (List ActivityEvent)
before one rest = do e ← one; es ← rest; pure (e ∷ es)

module _ (eth : Eth) (eth_asset : Asset) where
  abbrev pub incoming_event : Tx → Address → Address → ActivityEvent
  incoming_event tx to addr = record {
    wallet_address = eth.address_hex addr;
    tx_hash = eth.hash_hex tx.hash;
    event_type = native_transfer;
    activity_type = incoming;
    from_address = [];
    to_address = eth.address_hex to;
    amount = decimal tx.value;
    asset = some eth_asset;
    gas_details = none;
    metadata = [];
  }

  -- The first loop over the addresses.
  incoming_to : Tx → Address → List Address → List ActivityEvent
  incoming_to tx to [] = []
  incoming_to tx to (addr ∷ rest) =
      let more = incoming_to tx to rest in
      if to == addr then incoming_event tx to addr ∷ more else more

  unfoldable pub incoming_events : Tx → List Address → List ActivityEvent
  unfolding incoming_to
  incoming_events tx addresses = elim tx.to [ none ↦ [] | some to ↦ incoming_to tx to addresses ]

  -- The switch on the kind of an outgoing transaction.
  unfoldable pub base_event :
      Tx → Address → Address → GasDetails → EventType → Text → Metadata → ActivityEvent
  base_event tx sender addr gas kind to metadata = record {
    wallet_address = eth.address_hex addr;
    tx_hash = eth.hash_hex tx.hash;
    event_type = kind;
    activity_type = outgoing;
    from_address = eth.address_hex sender;
    to_address = to;
    amount = decimal tx.value;
    asset = some eth_asset;
    gas_details = some gas;
    metadata = metadata;
  }

  abbrev pub deployment_metadata : Option Receipt → Metadata
  deployment_metadata none = []
  deployment_metadata (some receipt) =
      (codes "contract_address", text (eth.address_hex receipt.contract_address))
      ∷ (codes "status", uint receipt.status)
      ∷ []

  abbrev pub call_metadata : Text → Option Receipt → Metadata
  call_metadata selector none = (codes "selector", text (codes "0x" ++ hex selector)) ∷ []
  call_metadata selector (some receipt) =
      (codes "selector", text (codes "0x" ++ hex selector))
      ∷ (codes "status", uint receipt.status)
      ∷ []

  unfoldable pub outgoing_event :
      Tx → Address → Address → Option Receipt → GasDetails → Option ActivityEvent
  outgoing_event tx sender addr receipt gas = elim tx.to [
    | none ↦
        some (base_event tx sender addr gas contract_deployment [] (deployment_metadata receipt))
    | some to ↦
        if length tx.input.bytes == 0
        then some (base_event tx sender addr gas native_transfer (eth.address_hex to) [])
        else elim (first_four tx.input) [
          | none ↦ none
          | some selector ↦ some (
              base_event tx sender addr gas contract_interaction (eth.address_hex to)
                (call_metadata selector receipt))
        ]
  ]

  unfoldable pub gas_of : Option Receipt → M GasDetails
  gas_of none = pure no_gas_details
  gas_of (some receipt) = or_crash (get_gas_details eth_asset receipt)

  module _ (n : Node) (client : Client) where
    unfoldable pub get_receipt_transaction : Hash → M (Option Receipt)
    get_receipt_transaction h = do
      answer ← call (get_receipt client h) (λ t. n.transaction_receipt t client h)
      elim answer [ err _ ↦ pure none | ok receipt ↦ pure (some receipt) ]

    -- One outgoing event: the body of the second loop behind its two `continue`s.
    unfoldable pub emit_outgoing : Tx → Address → Address → M ActivityEvent
    emit_outgoing tx sender addr = do
      receipt ← get_receipt_transaction tx.hash
      gas ← gas_of receipt
      or_crash (outgoing_event tx sender addr receipt gas)

    module _ (known : List Address) where
      -- The second loop over the addresses.
      unfoldable pub outgoing_events : Tx → Address → List Address → M (List ActivityEvent)
      outgoing_events tx sender [] = pure []
      outgoing_events tx sender (addr ∷ rest) =
          let more = outgoing_events tx sender rest in
          let emitted = before (emit_outgoing tx sender addr) more in
          if sender == addr then (if is_known_target known tx.to then more else emitted) else more

      -- The events that one transaction appends; a sender that cannot be recovered ends the round.
      unfoldable pub tx_events : List Address → Tx → M (List ActivityEvent)
      tx_events addresses tx = elim (eth.sender tx) [
        | none ↦ pure (incoming_events tx addresses)
        | some sender ↦ do
          es ← outgoing_events tx sender addresses
          pure (incoming_events tx addresses ++ es)
      ]

      unfoldable pub txs_events : List Address → List Tx → M (List ActivityEvent)
      txs_events addresses [] = pure []
      txs_events addresses (tx ∷ txs) = do
        es ← tx_events addresses tx
        rest ← txs_events addresses txs
        pure (es ++ rest)

      unfoldable pub collect_txn_events : Block → List Address → M (List ActivityEvent)
      collect_txn_events block addresses = txs_events addresses block.transactions
