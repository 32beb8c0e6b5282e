-- ===== src/Tests/Collecting.antt =====
-- A block with a transfer between two monitored wallets and a call of a contract.
use chain_ops.Common.{
  ◌+◌, ◌≡◌, refl, List, [], ◌∷◌, ◌++◌, some, true, false, length, arith, ◌==◌, if◌then◌else◌,
}
use chain_ops.Common.Text.{codes}
use chain_ops.Schema.{Asset}
use chain_ops.Chain.{Address, Tx, Receipt, Block, Eth}
use chain_ops.World.{Error, ok, err, Node, get_receipt, done, panic}
use chain_ops.Txn.{has_address, emit_outgoing, collect_txn_events}
use chain_ops.Txn.Expected.{expect_outgoing, expect_txs}
use chain_ops.Txn.Collect.{Priced, all_fetches, emit_outgoing_lem, collect_txn_events_lem}
use chain_ops.Txn.Panics.{collect_txn_events_short}

-- The hash of a transaction is its sender's address.
abbrev pub eth : Eth
eth = record {
  address_hex = λ a. codes "0x" ++ (48 + a) ∷ [];
  hash_hex = λ h. codes "0x" ++ (48 + h) ∷ [];
  hex_to_address = length;
  topic_address = λ h. h;
  sender = λ tx. some tx.hash;
  transfer_topic = 9;
}

abbrev pub asset : Asset
asset = record { asset_type = codes "NATIVE"; symbol = codes "ETH"; contract_address = [] }

abbrev pub no_answer : Error
no_answer = record { deadline_exceeded = true; net_error = false; message = [] }

abbrev pub receipt : Receipt
receipt = record {
  status = 1;
  contract_address = 0;
  effective_gas_price = some 2;
  gas_used = 21000;
}

abbrev pub node : Node
node = record {
  dial_context = λ _ _. ok 0;
  chain_id = λ _ _. ok 1;
  block_number = λ _ _. ok 100;
  header_by_number = λ _ _. ok 100;
  block_by_number = λ _ _ _. err no_answer;
  filter_logs = λ _ _ _. ok [];
  transaction_receipt = λ _ _ h. if h == 1 then ok receipt else err no_answer;
}

abbrev pub transfer : Tx
transfer = record { hash = 1; to = some 2; value = 5; input = record { bytes = []; spare = [] } }

abbrev contract_call : Tx
contract_call = record {
  hash = 1;
  to = some 7;
  value = 0;
  input = record { bytes = 0xa9 ∷ 0x05 ∷ 0x9c ∷ 0xbb ∷ 0 ∷ []; spare = [] };
}

abbrev pub short_call : Tx
short_call = record {
  hash = 1;
  to = some 7;
  value = 0;
  input = record { bytes = 0xa9 ∷ []; spare = [] };
}

abbrev pub block_of : List Tx → Block
block_of txs = record { number = 10; hash = 3; time = 1000; transactions = txs }

abbrev block : Block
block = block_of (transfer ∷ contract_call ∷ [])

abbrev pub wallets : List Address
wallets = 1 ∷ 2 ∷ []

node-Priced : Priced eth asset node 0
node-Priced t h r answered = ground arith

emit_outgoing_lem_example :
    emit_outgoing eth asset node 0 contract_call 1 1 []
    ≡ (done (expect_outgoing eth asset contract_call 1 (ok receipt)), get_receipt 0 1 ∷ [])
emit_outgoing_lem_example =
    emit_outgoing_lem eth asset node 0 contract_call 1 [] node-Priced (omega arith)

collect_txn_events_lem_example : collect_txn_events eth asset node 0 (7 ∷ []) block wallets [] ≡ (
  done (expect_txs eth asset node 0 (7 ∷ []) wallets block.transactions []),
  all_fetches eth asset node 0 (7 ∷ []) wallets block.transactions [],
)
collect_txn_events_lem_example =
    collect_txn_events_lem eth asset node 0 (7 ∷ []) block wallets [] node-Priced (omega arith)

collect_txn_events_short_example :
    (collect_txn_events eth asset node 0 [] (block_of (transfer ∷ short_call ∷ [])) wallets []).0
    ≡ panic
unfolding has_address
collect_txn_events_short_example =
    collect_txn_events_short eth asset node 0 [] (block_of (transfer ∷ short_call ∷ [])) wallets
      (transfer ∷ []) [] short_call 1 []
      (record { callee = 7; calls = refl; not_empty = omega arith; too_short = omega arith }) refl
      refl refl refl
