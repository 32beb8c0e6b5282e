-- ===== src/Tests/Consuming.antt =====
-- A consumer of the messages that `Tests.Publishing` sends.
use chain_ops.Common.{◌≡◌, refl, [], ◌∷◌, List, Option, some, All, length}
use chain_ops.Common.Int.{ℤ, pos}
use chain_ops.Common.Text.{Text, codes}
use chain_ops.Schema.{BlockActivityMessage, contract_interaction, outgoing, uint, text}
use chain_ops.World.{NatsMsg, done}
use chain_ops.Wire.{Json, message_json}
use chain_ops.Wire.Decode.{as_message}
use chain_ops.Wire.RoundTrip.{as_message-message_json}
use chain_ops.Publisher.{chunk, publish, BatchError, batch_size}
use chain_ops.Publisher.Chunk.{all_events}
use chain_ops.Publisher.Delivery.{push}
use chain_ops.Publisher.Headers.{Numbered, publish-Numbered, IsWhole}
use chain_ops.Publisher.Consumer.{SameBlock, receive_all, publish_received}
use chain_ops.Tests.Publishing.{broker, publisher, three_events, sent_trace, three_published}

abbrev stamp : Text
stamp = codes "1970-01-01T00:16:40Z"

abbrev read_stamp : Text → Option ℤ
read_stamp _ = some (pos 1000)

-- A call with an asset, gas details without a price, and metadata.
abbrev a_call : BlockActivityMessage
a_call = record {
  network_id = codes "net";
  block_number = 8;
  block_hash = codes "0xc";
  block_timestamp = pos 1000;
  events =
      record {
        wallet_address = codes "0xa";
        tx_hash = codes "0x1";
        event_type = contract_interaction;
        activity_type = outgoing;
        from_address = codes "0xa";
        to_address = codes "0xd";
        amount = codes "0";
        asset =
            some
              (record { asset_type = codes "native"; symbol = codes "ETH"; contract_address = [] });
        gas_details = some (record {
          fee_paid = codes "21";
          fee_asset = codes "ETH";
          gas_used = 21;
          effective_gas_price = [];
        });
        metadata = (codes "selector", text (codes "0xa9059cbb")) ∷ (codes "status", uint 1) ∷ [];
      }
      ∷ [];
}

as_message-message_json_example : as_message read_stamp (message_json stamp a_call) ≡ some a_call
as_message-message_json_example = as_message-message_json a_call read_stamp stamp refl

abbrev parse : Text → Option Json
parse _ = some (message_json stamp three_events)

publish_received_example :
    (sent : List NatsMsg) × (batches : List BlockActivityMessage) × (sent_trace ≡ push sent [])
    × (receive_all parse read_stamp sent ≡ some batches)
    × All (SameBlock three_events) batches
    × (all_events batches ≡ three_events.events)
unfolding chunk
publish_received_example =
    publish_received parse read_stamp broker publisher stamp three_events [] refl refl (refl, tt)
      three_published

publish-Numbered_example :
    (r : Option BatchError) × (sent : List NatsMsg) × (publish broker publisher three_events []
      ≡ (done r, push sent []))
    × IsWhole broker publisher three_events r sent
    × Numbered three_events (length (chunk three_events batch_size)) 0 sent
publish-Numbered_example = publish-Numbered broker publisher three_events []
