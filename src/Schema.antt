-- ===== src/Schema.antt =====
-- The wire schema of services/listener/schema/block_activity.go. A pointer field is an `Option`;
-- a `map[string]any` is the list of its entries by increasing key, with no entry for a nil map.
use chain_ops.Common.{ℕ, List, Option}
use chain_ops.Common.Int.{ℤ}
use chain_ops.Common.Text.{Text, codes}

pub data EventType : Type 0 where
  native_transfer token_transfer contract_interaction contract_deployment : EventType
  nft_transfer defi_swap : EventType

abbrev pub event_type_text : EventType → Text
event_type_text native_transfer = codes "NATIVE_TRANSFER"
event_type_text token_transfer = codes "TOKEN_TRANSFER"
event_type_text contract_interaction = codes "CONTRACT_INTERACTION"
event_type_text contract_deployment = codes "CONTRACT_DEPLOYMENT"
event_type_text nft_transfer = codes "NFT_TRANSFER"
event_type_text defi_swap = codes "DEFI_SWAP"

pub data ActivityType : Type 0 where
  incoming outgoing mint burn : ActivityType

abbrev pub activity_type_text : ActivityType → Text
activity_type_text incoming = codes "INCOMING"
activity_type_text outgoing = codes "OUTGOING"
activity_type_text mint = codes "MINT"
activity_type_text burn = codes "BURN"

pub record Asset : Type 0 where
  pub asset_type : Text
  pub symbol : Text
  pub contract_address : Text

pub record GasDetails : Type 0 where
  pub fee_paid : Text
  pub fee_asset : Text
  pub gas_used : ℕ  -- uint64
  pub effective_gas_price : Text

-- The dynamic types that the listener stores in a `map[string]any`.
pub data MetadataValue : Type 0 where
  uint : ℕ → MetadataValue
  text : Text → MetadataValue

abbrev pub Metadata : Type 0
Metadata = List (Text × MetadataValue)

pub record ActivityEvent : Type 0 where
  pub wallet_address : Text
  pub tx_hash : Text
  pub event_type : EventType
  pub activity_type : ActivityType
  pub from_address : Text
  pub to_address : Text
  pub amount : Text
  pub asset : Option Asset
  pub gas_details : Option GasDetails
  pub metadata : Metadata

-- The timestamp is the Unix time in seconds that `time.Unix` was given.
pub record BlockActivityMessage : Type 0 where
  pub network_id : Text
  pub block_number : ℕ  -- uint64
  pub block_hash : Text
  pub block_timestamp : ℤ
  pub events : List ActivityEvent
