-- ===== src/Usdc/Direction.antt =====
-- Which wallets a Transfer log gives an event, and in which direction.
use chain_ops.Common.{
  ◌≡◌, refl, inl, inr, List, [], ◌∷◌, Option, none, some, Bool, true, false, ◌||◌, arith, map,
  Bool-cases, ◌==◌, if◌then◌else◌,
}
use chain_ops.Schema.{ActivityType, incoming, outgoing, mint, burn, ActivityEvent, GasDetails}
use chain_ops.Chain.{Address, Receipt, Log, Eth, zero_address}
use chain_ops.Usdc.{Usdc, gas_from, transfer_event, log_event, log_events}

-- The entries of the address list that sent or received the tokens.
abbrev pub involved : Address → Address → List Address → List Address
involved from to [] = []
involved from to (a ∷ rest) =
    if from == a || to == a then a ∷ involved from to rest else involved from to rest

-- The receiver's side comes first, so a transfer to oneself is received.
abbrev pub direction : Address → Address → Address → ActivityType
direction from to a =
    if to == a
    then (if from == zero_address then mint else incoming)
    else (if to == zero_address then burn else outgoing)

-- The wallet paid for the transaction.
abbrev pub pays : ActivityType → Bool
pays mint = false
pays incoming = false
pays burn = true
pays outgoing = true

abbrev pub gas_for : ActivityType → Option Receipt → Option GasDetails
gas_for k receipt = if pays k then gas_from receipt else none

module _ (eth : Eth) (usdc : Usdc) (vlog : Log) (from to : Address) (receipt : Option Receipt) where
  abbrev pub expected_event : Address → ActivityEvent
  expected_event a =
      transfer_event eth usdc vlog from to (direction from to a)
        (gas_for (direction from to a) receipt) a

  log_event_lem :
      (a : Address)
      → log_event eth usdc vlog from to receipt a
        ≡ (if from == a || to == a then some (expected_event a) else none)
  unfolding log_event
  log_event_lem a = ground arith

  -- The events of one log: one for each entry of the address list that is the sender or the
  -- receiver, in list order, and none for another. The receiver's event is a mint from the zero
  -- address and incoming otherwise, also where it is the sender too; the sender's is a burn to the
  -- zero address and outgoing otherwise. Only the sender's carries the gas of the receipt.
  pub log_events_lem :
      (addresses : List Address)
      → log_events eth usdc vlog from to receipt addresses
        ≡ map expected_event (involved from to addresses)
  unfolding log_events
  log_events_lem [] = refl
  log_events_lem (a ∷ rest) = elim (Bool-cases (from == a || to == a)) [
    | inl yes_involved ↦ rw (log_event_lem a, log_events, yes_involved, log_events_lem rest)
    | inr not_involved ↦ rw (log_event_lem a, log_events, not_involved, log_events_lem rest)
  ]
