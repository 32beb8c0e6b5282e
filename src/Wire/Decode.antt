-- ===== src/Wire/Decode.antt =====
-- How a consumer reads the documents: each field by its key, a member that is absent or null as the
-- zero value of its type.
use chain_ops.Common.{ℕ, List, [], ◌∷◌, Option, none, some, if◌then◌else◌}
use chain_ops.Common.Int.{ℤ}
use chain_ops.Common.Text.{Text, codes, text_eq}
use chain_ops.Schema.{
  EventType, native_transfer, token_transfer, contract_interaction, contract_deployment,
  nft_transfer, defi_swap, event_type_text, ActivityType, incoming, outgoing, mint, burn,
  activity_type_text, Asset, GasDetails, MetadataValue, uint, text, Metadata, ActivityEvent,
  BlockActivityMessage,
}
use chain_ops.Wire.{Json, null, str, num, arr, obj, Items, nil, item, Members, end, member}

infixl 5 ◌>>=◌
abbrev pub ◌>>=◌ : {A B : Type 0} → Option A → (A → Option B) → Option B
none >>= f = none
some a >>= f = f a

-- The value of the first member with the key, null if there is none.
unfoldable pub find : Text → Members → Json
find key end = null
find key (member k v rest) = if text_eq k key then v else find key rest

abbrev pub as_text : Json → Option Text
as_text null = some []
as_text (str s) = some s
as_text (num n) = none
as_text (arr l) = none
as_text (obj m) = none

abbrev pub as_num : Json → Option ℕ
as_num null = some 0
as_num (num n) = some n
as_num (str s) = none
as_num (arr l) = none
as_num (obj m) = none

-- The constants of the schema, by their text.
abbrev pub event_types : List EventType
event_types =
    native_transfer ∷ token_transfer ∷ contract_interaction ∷ contract_deployment ∷ nft_transfer
    ∷ defi_swap ∷ []

abbrev pub activity_types : List ActivityType
activity_types = incoming ∷ outgoing ∷ mint ∷ burn ∷ []

unfoldable pub of_text : {A : Type 0} → (A → Text) → List A → Text → Option A
of_text print [] s = none
of_text print (a ∷ l) s = if text_eq (print a) s then some a else of_text print l s

unfoldable pub as_event_type : Json → Option EventType
as_event_type j = as_text j >>= of_text event_type_text event_types

unfoldable pub as_activity_type : Json → Option ActivityType
as_activity_type j = as_text j >>= of_text activity_type_text activity_types

unfoldable pub as_asset : Json → Option (Option Asset)
as_asset (obj m) = do
  asset_type ← as_text (find (codes "type") m)
  symbol ← as_text (find (codes "symbol") m)
  contract_address ← as_text (find (codes "contract_address") m)
  some (
      some
        (record { asset_type = asset_type; symbol = symbol; contract_address = contract_address }))
as_asset null = some none
as_asset (str s) = none
as_asset (num n) = none
as_asset (arr l) = none

unfoldable pub as_gas : Json → Option (Option GasDetails)
as_gas (obj m) = do
  fee_paid ← as_text (find (codes "fee_paid") m)
  fee_asset ← as_text (find (codes "fee_asset") m)
  gas_used ← as_num (find (codes "gas_used") m)
  effective_gas_price ← as_text (find (codes "effective_gas_price") m)
  some (
      some (record {
        fee_paid = fee_paid;
        fee_asset = fee_asset;
        gas_used = gas_used;
        effective_gas_price = effective_gas_price;
      }))
as_gas null = some none
as_gas (str s) = none
as_gas (num n) = none
as_gas (arr l) = none

abbrev pub as_value : Json → Option MetadataValue
as_value (num n) = some (uint n)
as_value (str s) = some (text s)
as_value null = none
as_value (arr l) = none
as_value (obj m) = none

unfoldable pub as_entries : Members → Option Metadata
as_entries end = some []
as_entries (member k v rest) = do
  value ← as_value v
  entries ← as_entries rest
  some ((k, value) ∷ entries)

unfoldable pub as_metadata : Json → Option Metadata
as_metadata (obj m) = as_entries m
as_metadata null = some []
as_metadata (str s) = none
as_metadata (num n) = none
as_metadata (arr l) = none

unfoldable pub as_event : Json → Option ActivityEvent
as_event (obj m) = do
  wallet_address ← as_text (find (codes "wallet_address") m)
  tx_hash ← as_text (find (codes "tx_hash") m)
  event_type ← as_event_type (find (codes "event_type") m)
  activity_type ← as_activity_type (find (codes "activity_type") m)
  from_address ← as_text (find (codes "from_address") m)
  to_address ← as_text (find (codes "to_address") m)
  amount ← as_text (find (codes "amount") m)
  asset ← as_asset (find (codes "asset") m)
  gas_details ← as_gas (find (codes "gas") m)
  metadata ← as_metadata (find (codes "metadata") m)
  some (record {
    wallet_address = wallet_address;
    tx_hash = tx_hash;
    event_type = event_type;
    activity_type = activity_type;
    from_address = from_address;
    to_address = to_address;
    amount = amount;
    asset = asset;
    gas_details = gas_details;
    metadata = metadata;
  })
as_event null = none
as_event (str s) = none
as_event (num n) = none
as_event (arr l) = none

unfoldable pub as_events_of : Items → Option (List ActivityEvent)
as_events_of nil = some []
as_events_of (item j l) = do e ← as_event j; rest ← as_events_of l; some (e ∷ rest)

unfoldable pub as_events : Json → Option (List ActivityEvent)
as_events (arr l) = as_events_of l
as_events null = some []
as_events (str s) = none
as_events (num n) = none
as_events (obj m) = none

-- A message, with the reader of timestamps.
unfoldable pub as_message : (Text → Option ℤ) → Json → Option BlockActivityMessage
as_message parse_time (obj m) = do
  network_id ← as_text (find (codes "network_id") m)
  block_number ← as_num (find (codes "block_number") m)
  block_hash ← as_text (find (codes "block_hash") m)
  time ← as_text (find (codes "block_timestamp") m)
  block_timestamp ← parse_time time
  events ← as_events (find (codes "events") m)
  some (record {
    network_id = network_id;
    block_number = block_number;
    block_hash = block_hash;
    block_timestamp = block_timestamp;
    events = events;
  })
as_message parse_time null = none
as_message parse_time (str s) = none
as_message parse_time (num n) = none
as_message parse_time (arr l) = none
