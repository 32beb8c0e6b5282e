-- ===== src/Wire.antt =====
-- The JSON document that json.Marshal makes of a message, by the struct tags of
-- services/listener/schema/block_activity.go. The text of the timestamp and the print of a document
-- are Go's; an empty list of events is a nil slice.
pub mod Decode
pub mod RoundTrip
use chain_ops.Common.{ℕ, List, [], ◌∷◌, Option, none, some}
use chain_ops.Common.Text.{Text, codes}
use chain_ops.Schema.{
  event_type_text, activity_type_text, Asset, GasDetails, MetadataValue, uint, text, Metadata,
  ActivityEvent, BlockActivityMessage,
}

mutual
  pub data Json : Type 0 where
    null : Json
    str : Text → Json
    num : ℕ → Json
    arr : Items → Json
    obj : Members → Json

  pub data Items : Type 0 where
    nil : Items
    item : Json → Items → Items

  pub data Members : Type 0 where
    end : Members
    member : Text → Json → Members → Members

-- A string under `omitempty`.
abbrev pub text_member : Text → Text → Members → Members
text_member key [] rest = rest
text_member key (c ∷ s) rest = member key (str (c ∷ s)) rest

abbrev pub asset_json : Asset → Json
asset_json a = obj (
    member (codes "type") (str a.asset_type) (
      member (codes "symbol") (str a.symbol)
        (text_member (codes "contract_address") a.contract_address end)))

abbrev pub gas_json : GasDetails → Json
gas_json g = obj (
    member (codes "fee_paid") (str g.fee_paid) (
      member (codes "fee_asset") (str g.fee_asset) (
        member (codes "gas_used") (num g.gas_used)
          (text_member (codes "effective_gas_price") g.effective_gas_price end))))

abbrev pub value_json : MetadataValue → Json
value_json (uint n) = num n
value_json (text s) = str s

abbrev pub entries : Metadata → Members
entries [] = end
entries ((k, v) ∷ m) = member k (value_json v) (entries m)

-- Pointers and a map under `omitempty`.
abbrev pub asset_member : Option Asset → Members → Members
asset_member none rest = rest
asset_member (some a) rest = member (codes "asset") (asset_json a) rest

abbrev pub gas_member : Option GasDetails → Members → Members
gas_member none rest = rest
gas_member (some g) rest = member (codes "gas") (gas_json g) rest

abbrev pub metadata_member : Metadata → Members → Members
metadata_member [] rest = rest
metadata_member (e ∷ m) rest = member (codes "metadata") (obj (entries (e ∷ m))) rest

unfoldable pub event_json : ActivityEvent → Json
event_json e = obj (
    member (codes "wallet_address") (str e.wallet_address) (
      member (codes "tx_hash") (str e.tx_hash) (
        member (codes "event_type") (str (event_type_text e.event_type)) (
          member (codes "activity_type") (str (activity_type_text e.activity_type)) (
            member (codes "from_address") (str e.from_address) (
              member (codes "to_address") (str e.to_address) (
                member (codes "amount") (str e.amount) (
                  asset_member e.asset
                    (gas_member e.gas_details (metadata_member e.metadata end))))))))))

abbrev pub event_items : List ActivityEvent → Items
event_items [] = nil
event_items (e ∷ l) = item (event_json e) (event_items l)

abbrev pub events_json : List ActivityEvent → Json
events_json [] = null
events_json (e ∷ l) = arr (event_items (e ∷ l))

-- The document of a message whose timestamp has the text `time`.
unfoldable pub message_json : Text → BlockActivityMessage → Json
message_json time msg = obj (
    member (codes "network_id") (str msg.network_id) (
      member (codes "block_number") (num msg.block_number) (
        member (codes "block_hash") (str msg.block_hash) (
          member (codes "block_timestamp") (str time)
            (member (codes "events") (events_json msg.events) end)))))
