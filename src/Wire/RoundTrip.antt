-- ===== src/Wire/RoundTrip.antt =====
-- A consumer that reads a document by its keys has the message again.
use chain_ops.Common.{◌≡◌, refl, ap, ◌∙◌, List, [], ◌∷◌, Option, none, some}
use chain_ops.Common.Int.{ℤ}
use chain_ops.Common.Text.{Text, codes, text_eq}
use chain_ops.Schema.{
  EventType, native_transfer, token_transfer, contract_interaction, contract_deployment,
  nft_transfer, defi_swap, event_type_text, ActivityType, incoming, outgoing, mint, burn,
  activity_type_text, Asset, GasDetails, uint, text, Metadata, ActivityEvent, BlockActivityMessage,
}
use chain_ops.Wire.{
  str, end, Members, asset_json, gas_json, entries, asset_member, gas_member, metadata_member,
  event_json, event_items, events_json, message_json,
}
use chain_ops.Wire.Decode.{
  ◌>>=◌, find, of_text, as_event_type, as_activity_type, as_asset, as_gas, as_entries, as_metadata,
  as_event, as_events_of, as_events, as_message,
}

pub bind_some :
    {A B : Type 0} (m : Option A) (f : A → Option B) {a : A} → m ≡ some a → (m >>= f) ≡ f a
bind_some m f h = ap (λ o. o >>= f) h

as_event_type_text : (t : EventType) → as_event_type (str (event_type_text t)) ≡ some t
unfolding as_event_type of_text text_eq
as_event_type_text native_transfer = refl
as_event_type_text token_transfer = refl
as_event_type_text contract_interaction = refl
as_event_type_text contract_deployment = refl
as_event_type_text nft_transfer = refl
as_event_type_text defi_swap = refl

as_activity_type_text : (t : ActivityType) → as_activity_type (str (activity_type_text t)) ≡ some t
unfolding as_activity_type of_text text_eq
as_activity_type_text incoming = refl
as_activity_type_text outgoing = refl
as_activity_type_text mint = refl
as_activity_type_text burn = refl

as_asset_json : (a : Asset) → as_asset (asset_json a) ≡ some (some a)
unfolding as_asset find text_eq
as_asset_json a = by_address a.contract_address
  where
    by_address :
        (s : Text)
        → as_asset (asset_json (record a { contract_address = s }))
          ≡ some (some (record a { contract_address = s }))
    by_address [] = refl
    by_address (c ∷ s) = refl

as_gas_json : (g : GasDetails) → as_gas (gas_json g) ≡ some (some g)
unfolding as_gas find text_eq
as_gas_json g = by_price g.effective_gas_price
  where
    by_price :
        (s : Text)
        → as_gas (gas_json (record g { effective_gas_price = s }))
          ≡ some (some (record g { effective_gas_price = s }))
    by_price [] = refl
    by_price (c ∷ s) = refl

as_entries-entries : (m : Metadata) → as_entries (entries m) ≡ some m
unfolding as_entries
as_entries-entries [] = refl
as_entries-entries ((k, uint n) ∷ m) = rw (as_entries-entries m)
as_entries-entries ((k, text s) ∷ m) = rw (as_entries-entries m)

-- The members under `omitempty` at the end of an event.
abbrev last_members : Option Asset → Option GasDetails → Metadata → Members
last_members a g m = asset_member a (gas_member g (metadata_member m end))

found_metadata :
    (m : Metadata) → as_metadata (find (codes "metadata") (metadata_member m end)) ≡ some m
unfolding find text_eq as_metadata
found_metadata [] = refl
found_metadata (e ∷ m) = as_entries-entries (e ∷ m)

past_gas :
    (g : Option GasDetails) (m : Metadata)
    → as_metadata (find (codes "metadata") (gas_member g (metadata_member m end))) ≡ some m
unfolding find text_eq
past_gas none m = found_metadata m
past_gas (some g) m = found_metadata m

past_asset :
    (a : Option Asset) (g : Option GasDetails) (m : Metadata)
    → as_metadata (find (codes "metadata") (last_members a g m)) ≡ some m
unfolding find text_eq
past_asset none g m = past_gas g m
past_asset (some a) g m = past_gas g m

found_gas :
    (g : Option GasDetails) (m : Metadata)
    → as_gas (find (codes "gas") (gas_member g (metadata_member m end))) ≡ some g
unfolding find text_eq as_gas
found_gas none [] = refl
found_gas none (e ∷ m) = refl
found_gas (some g) m = as_gas_json g

gas_past_asset :
    (a : Option Asset) (g : Option GasDetails) (m : Metadata)
    → as_gas (find (codes "gas") (last_members a g m)) ≡ some g
unfolding find text_eq
gas_past_asset none g m = found_gas g m
gas_past_asset (some a) g m = found_gas g m

found_asset :
    (a : Option Asset) (g : Option GasDetails) (m : Metadata)
    → as_asset (find (codes "asset") (last_members a g m)) ≡ some a
unfolding find text_eq as_asset
found_asset none none [] = refl
found_asset none none (e ∷ m) = refl
found_asset none (some g) [] = refl
found_asset none (some g) (e ∷ m) = refl
found_asset (some a) g m = as_asset_json a

as_event_json : (e : ActivityEvent) → as_event (event_json e) ≡ some e
unfolding as_event event_json find text_eq
as_event_json e =
    bind_some _ _ (as_event_type_text e.event_type)
    ∙ bind_some _ _ (as_activity_type_text e.activity_type)
    ∙ bind_some _ _ (found_asset e.asset e.gas_details e.metadata)
    ∙ bind_some _ _ (gas_past_asset e.asset e.gas_details e.metadata)
    ∙ bind_some _ _ (past_asset e.asset e.gas_details e.metadata)

as_events_of_items : (l : List ActivityEvent) → as_events_of (event_items l) ≡ some l
unfolding as_events_of
as_events_of_items [] = refl
as_events_of_items (e ∷ l) = bind_some _ _ (as_event_json e) ∙ bind_some _ _ (as_events_of_items l)

as_events_json : (l : List ActivityEvent) → as_events (events_json l) ≡ some l
unfolding as_events
as_events_json [] = refl
as_events_json (e ∷ l) = as_events_of_items (e ∷ l)

-- A consumer that reads the document of a message by the keys of the struct tags has exactly this
-- message again, with the members that `omitempty` leaves out, if it reads the text of the
-- timestamp as this timestamp.
pub as_message-message_json :
    (msg : BlockActivityMessage) (parse_time : Text → Option ℤ) (time : Text)
    → parse_time time ≡ some msg.block_timestamp
    → as_message parse_time (message_json time msg) ≡ some msg
unfolding as_message message_json find text_eq
as_message-message_json msg parse_time time reads =
    bind_some _ _ reads ∙ bind_some _ _ (as_events_json msg.events)
