-- ===== src/Tests/Crashing.antt =====
-- The listener of `Tests.Listening` on a node with a call that has one byte of call data.
use chain_ops.Common.{ℕ, ◌≡◌, ◌⊎◌, refl, [], ◌∷◌, ◌++◌, some}
use chain_ops.Common.Text.{Text}
use chain_ops.Chain.{int64}
use chain_ops.World.{ok, Node, Client, panic, read_clock}
use chain_ops.Db.Tables.{new_session, tables}
use chain_ops.Providers.{get_healthy_client}
use chain_ops.Listener.{
  Env, run, startup, open_session, ticks, tick, tick_providers, require_retry, tick_with,
  handle_wallets, scan_range, scan_blocks, process_block, block_events,
}
use chain_ops.Txn.{
  collect_txn_events, txs_events, tx_events, outgoing_events, emit_outgoing,
  get_receipt_transaction, gas_of, get_gas_details, first_four, outgoing_event, has_address,
  incoming_events,
}
use chain_ops.Db.{create_listener_session, get_indexed_address_to_monitor, scan_rows}
use chain_ops.Common.Int.{◌-ℤ◌, ◌+ℤ◌}
use chain_ops.Listener.Session.{first_block}
use chain_ops.Listener.Crash.Run.{sessions_of, run_panics}
use chain_ops.Listener.Records.Start.{NoSession}
use chain_ops.Tests.Collecting.{block_of, short_call}
use chain_ops.Tests.Listening.{node, db, env, provider, listener}
use chain_ops.Tests.Recording.{before, new_id}

abbrev short_node : Node
short_node = record node { block_by_number = λ _ _ _. ok (block_of (short_call ∷ [])) }

abbrev short : Env
short = record env { node = short_node; now = λ _. 0 }

ends_early : (run short listener 1 (provider ∷ []) []).0 ≡ panic
unfolding run get_healthy_client ◌-ℤ◌ ◌+ℤ◌ int64 startup open_session ticks tick tick_providers
    require_retry tick_with handle_wallets scan_range scan_blocks process_block block_events
    collect_txn_events txs_events tx_events outgoing_events emit_outgoing get_receipt_transaction
    gas_of get_gas_details first_four outgoing_event has_address incoming_events
    create_listener_session get_indexed_address_to_monitor scan_rows
ends_early = refl

run_panics_example :
    let after = sessions_of db before (run short listener 1 (provider ∷ []) []).1 in
    ((after ≡ before.sessions) × NoSession short listener (provider ∷ []))
    ⊎ ((client : Client) × (i : ℕ) × (number : ℕ) × (id : Text) × (get_healthy_client
            (provider ∷ [])
          ≡ some (client, i))
        × (node.header_by_number (read_clock ∷ []) client ≡ ok number)
        × (after
            ≡ before.sessions
              ++ new_session listener.network_id (int64 (first_block short listener number)) id
                ∷ []))
unfolding tables
run_panics_example = run_panics short listener before 1 provider [] [] new_id ends_early
