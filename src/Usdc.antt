-- ===== src/Usdc.antt =====
-- services/listener/service/usdc_event.go: the USDC Transfer logs of a block that touch a monitored
-- wallet. The package variables `usdcAddress` and `usdcAsset` are a record; maps are association
-- lists, the latest entry first.
pub mod Direction
pub mod Entries
pub mod Receipts
pub mod Events
pub mod Panics
pub mod Frame
use chain_ops.Common.{
  ℕ, zero, suc, ◌*◌, List, [], ◌∷◌, ◌++◌, Option, none, some, Bool, true, false, ◌&&◌, ◌||◌, ◌==◌,
  get_elem?, if◌then◌else◌,
}
use chain_ops.Common.Text.{Text, codes, decimal, text_eq}
use chain_ops.Schema.{
  token_transfer, ActivityType, incoming, outgoing, mint, burn, Asset, GasDetails, MetadataValue,
  uint, Metadata, ActivityEvent,
}
use chain_ops.Chain.{Address, Hash, Receipt, Log, Block, Eth, zero_address, set_bytes}
use chain_ops.World.{
  Result, ok, err, Client, Node, FilterQuery, get_logs, get_receipt, M, done, panic, pure, crash,
  call, or_crash, ◌>>=◌,
}
use chain_ops.Txn.{has_address}

pub record Usdc : Type 0 where
  pub address : Address
  pub asset : Option Asset

-- m[key] on a map[string]string
unfoldable pub lookup_text : Text → List (Text × Text) → Option Text
lookup_text k [] = none
lookup_text k ((j, v) ∷ m) = if text_eq j k then some v else lookup_text k m

-- `InitTokenContracts`, from the variables before it.
unfoldable pub init_token_contracts : Eth → List (Text × Text) → Usdc → Usdc
init_token_contracts eth contracts u = elim (lookup_text (codes "USDC") contracts) [
  | none ↦ u
  | some addr ↦
      let address = eth.hex_to_address addr in
      record {
        address = address;
        asset = some (record {
          asset_type = codes "ERC20";
          symbol = codes "USDC";
          contract_address = eth.address_hex address;
        });
      }
]

abbrev pub price_or_zero : Option ℕ → ℕ
price_or_zero none = 0
price_or_zero (some price) = price

unfoldable pub build_gas_details : Receipt → GasDetails
build_gas_details receipt =
    let price = price_or_zero receipt.effective_gas_price in
    record {
      fee_paid = decimal (price * receipt.gas_used);
      fee_asset = codes "ETH";
      gas_used = receipt.gas_used;
      effective_gas_price = decimal price;
    }

abbrev pub gas_from : Option Receipt → Option GasDetails
gas_from none = none
gas_from (some receipt) = some (build_gas_details receipt)

-- vlog.Topics[i], as an address; an index out of range panics.
unfoldable pub topic : Eth → Log → ℕ → Option Address
topic eth vlog i = elim (get_elem? vlog.topics i) [
  | none ↦ none
  | some h ↦ some (eth.topic_address h)
]

abbrev pub log_metadata : Log → Metadata
log_metadata vlog =
    (codes "log_index", uint vlog.index) ∷ (codes "tx_index", uint vlog.tx_index) ∷ []

-- map[common.Hash]*types.Receipt
abbrev pub Receipts : Type 0
Receipts = List (Hash × Option Receipt)

unfoldable pub already_fetched : Receipts → Hash → Bool
already_fetched [] h = false
already_fetched ((k, _) ∷ m) h = k == h || already_fetched m h

-- receipts[h]: nil for a missing key
unfoldable pub receipt_at : Receipts → Hash → Option Receipt
receipt_at [] h = none
receipt_at ((k, r) ∷ m) h = if k == h then r else receipt_at m h

module _ (eth : Eth) (usdc : Usdc) where
  abbrev pub transfer_event :
      Log → Address → Address → ActivityType → Option GasDetails → Address → ActivityEvent
  transfer_event vlog from to activity gas addr = record {
    wallet_address = eth.address_hex addr;
    tx_hash = eth.hash_hex vlog.tx_hash;
    event_type = token_transfer;
    activity_type = activity;
    from_address = eth.address_hex from;
    to_address = eth.address_hex to;
    amount = decimal (set_bytes vlog.payload);
    asset = usdc.asset;
    gas_details = gas;
    metadata = log_metadata vlog;
  }

  -- The switch of `collectUSDCLogEvents`.
  unfoldable pub log_event :
      Log → Address → Address → Option Receipt → Address → Option ActivityEvent
  log_event vlog from to receipt addr =
      if to == addr && from == zero_address
      then some (transfer_event vlog from to mint none addr)
      else if to == addr
      then some (transfer_event vlog from to incoming none addr)
      else if from == addr && to == zero_address
      then some (transfer_event vlog from to burn (gas_from receipt) addr)
      else if from == addr
      then some (transfer_event vlog from to outgoing (gas_from receipt) addr)
      else none

  -- Its loop over the addresses.
  unfoldable pub log_events :
      Log → Address → Address → Option Receipt → List Address → List ActivityEvent
  log_events vlog from to receipt [] = []
  log_events vlog from to receipt (addr ∷ rest) =
      let more = log_events vlog from to receipt rest in
      elim (log_event vlog from to receipt addr) [ none ↦ more | some e ↦ e ∷ more ]

  unfoldable pub collect_usdc_log_events :
      Log → List Address → Option Receipt → M (List ActivityEvent)
  collect_usdc_log_events vlog addresses receipt = do
    from ← or_crash (topic eth vlog 1)
    to ← or_crash (topic eth vlog 2)
    pure (log_events vlog from to receipt addresses)

  abbrev pub transfer_query : Block → FilterQuery
  transfer_query block = record {
    from_block = block.number;
    to_block = block.number;
    addresses = usdc.address ∷ [];
    topics = eth.transfer_topic ∷ [];
  }

  module _ (n : Node) (client : Client) where
    unfoldable pub fetch_receipt : Receipts → Hash → M Receipts
    fetch_receipt m h = do
      answer ← call (get_receipt client h) (λ t. n.transaction_receipt t client h)
      elim answer [ err _ ↦ pure ((h, none) ∷ m) | ok r ↦ pure ((h, some r) ∷ m) ]

    -- One round of the loop that fetches receipts of transactions that a monitored wallet sent.
    unfoldable pub prefetch_one : List Address → Receipts → Log → M Receipts
    prefetch_one addresses m vlog = if already_fetched m vlog.tx_hash then pure m else do
      from ← or_crash (topic eth vlog 1)
      if has_address addresses from then fetch_receipt m vlog.tx_hash else pure m

    unfoldable pub prefetch : List Address → Receipts → List Log → M Receipts
    prefetch addresses m [] = pure m
    prefetch addresses m (vlog ∷ rest) = do
      m' ← prefetch_one addresses m vlog
      prefetch addresses m' rest

    unfoldable pub all_log_events : List Address → Receipts → List Log → M (List ActivityEvent)
    all_log_events addresses m [] = pure []
    all_log_events addresses m (vlog ∷ rest) = do
      es ← collect_usdc_log_events vlog addresses (receipt_at m vlog.tx_hash)
      more ← all_log_events addresses m rest
      pure (es ++ more)

    unfoldable pub query_logs : Block → List Address → M (List ActivityEvent)
    query_logs block addresses = do
      let query = transfer_query block
      answer ← call (get_logs client query) (λ t. n.filter_logs t client query)
      elim answer [
        | err _ ↦ pure []
        | ok logs ↦ do m ← prefetch addresses [] logs; all_log_events addresses m logs
      ]

    unfoldable pub collect_usdc_events : Block → List Address → M (List ActivityEvent)
    collect_usdc_events block [] = pure []
    collect_usdc_events block (a ∷ addresses) = elim usdc.asset [
      | none ↦ pure []
      | some _ ↦ query_logs block (a ∷ addresses)
    ]
