-- ===== src/Listener.antt =====
-- `EvmListener.Run` of services/listener/service/evm_listener.go: startup, one tick, and the
-- shutdown, over the local variables of `Run`. Times are nanoseconds. A tick's context is not
-- modelled: a cancelled call is one that the environment answers with an error.
pub mod Quiet
pub mod Scan
pub mod Advance
pub mod Range
pub mod Ready
pub mod Ticks
pub mod Session
pub mod Progress
pub mod Health
pub mod Frame
pub mod Records
pub mod Delivered
pub mod Late
pub mod Crash
pub mod Idle
use chain_ops.Common.{
  ℕ, zero, suc, ◌+◌, ◌*◌, ◌%◌, ◌^◌, List, [], ◌∷◌, ◌++◌, map, Option, none, some, Bool, true, false,
  ltb, if◌then◌else◌,
}
use chain_ops.Common.Int.{ℤ, pos, ◌+ℤ◌, ◌-ℤ◌, ltb_ℤ, leb_ℤ, pos_part}
use chain_ops.Common.Text.{Text, codes, text_eq}
use chain_ops.Schema.{Asset, ActivityEvent, BlockActivityMessage}
use chain_ops.Chain.{Address, Block, Eth, int64, word64}
use chain_ops.World.{
  Result, ok, err, Client, Node, Broker, read_clock, get_header, get_block, Trace, M, pure, crash,
  call, ◌>>=◌,
}
use chain_ops.Publisher.{Publisher, publish}
use chain_ops.Providers.{
  EvmProvider, handle_provider_failure, get_healthy_client, recover_unhealthy_providers,
}
use chain_ops.Txn.{collect_txn_events}
use chain_ops.Usdc.{Usdc, collect_usdc_events}
use chain_ops.Db.{
  IndexedAddress, Database, update_last_scanned_block, create_listener_session,
  close_listener_session, get_indexed_address_to_monitor,
}

-- The struct, with the package variables that it reads: `eth_asset` and those of usdc_event.go.
pub record EvmListener : Type 0 where
  pub eth_asset : Asset
  pub usdc : Usdc
  pub safe_block_buffer : ℤ  -- int64
  pub max_blocks_per_tick : ℤ  -- int64
  pub usdc_listen : Bool
  pub network_id : Text
  pub known_contracts : List Address
  pub publisher : Option Publisher

-- `NewEvmListener`, for the values of the map of known token contracts.
unfoldable pub new_evm_listener :
    Eth → Usdc → ℤ → ℤ → Bool → Text → Text → List (Text × Text) → Option Publisher → EvmListener
new_evm_listener eth usdc buffer max_blocks usdc_listen network_id native_asset contracts
      publisher =
    record {
      eth_asset = record {
        asset_type = codes "NATIVE";
        symbol = native_asset;
        contract_address = [];
      };
      usdc = usdc;
      safe_block_buffer = buffer;
      max_blocks_per_tick = max_blocks;
      usdc_listen = usdc_listen;
      network_id = network_id;
      known_contracts = map (λ c. eth.hex_to_address c.1) contracts;
      publisher = publisher;
    }

-- The local variables of `Run`; the providers are the ones behind `el.providerList`.
pub record RunState : Type 0 where
  pub providers : List EvmProvider
  pub next_provider_retry : ℕ
  pub last_block : Option ℤ
  pub from_block : Option ℤ
  pub session_id : Text

-- Everything outside the process.
pub record Env : Type 0 where
  pub eth : Eth
  pub node : Node
  pub broker : Broker
  pub db : Database
  pub now : Trace → ℕ

abbrev pub five_minutes : ℕ
five_minutes = 300 * 10 ^ 9

-- The number of rounds from one block number to another, both included.
abbrev pub rounds : ℤ → ℤ → ℕ
rounds from to = pos_part (to -ℤ from +ℤ pos 1)

module _ (env : Env) where
  -- time.Now()
  abbrev pub time_now : M ℕ
  time_now = call read_clock env.now

  unfoldable pub require_retry : ℕ → M (Bool × ℕ)
  require_retry next_retry = do
    now ← time_now
    elim (ltb now next_retry) [
      | true ↦ pure (false, next_retry)
      | false ↦ do later ← time_now; pure (true, later + five_minutes)
    ]

  module _ (el : EvmListener) where
    -- The events of a block, as the two collectors append them.
    unfoldable pub block_events : Client → List Address → Block → M (List ActivityEvent)
    block_events client addresses block = do
      txn ←
          collect_txn_events env.eth el.eth_asset env.node client el.known_contracts block addresses
      usdc ←
          (if el.usdc_listen
            then collect_usdc_events env.eth el.usdc env.node client block addresses
            else pure [])
      pure (txn ++ usdc)

    unfoldable pub block_message : Block → List ActivityEvent → BlockActivityMessage
    block_message block events = record {
      network_id = el.network_id;
      block_number = block.number % 2 ^ 64;
      block_hash = env.eth.hash_hex block.hash;
      block_timestamp = word64 block.time;
      events = events;
    }

    -- A publisher's error is logged and dropped.
    unfoldable pub publish_events : Block → List ActivityEvent → M (Unit {0})
    publish_events block [] = pure tt
    publish_events block (e ∷ es) = elim el.publisher [
      | none ↦ pure tt
      | some p ↦ do outcome ← publish env.broker p (block_message block (e ∷ es)); pure tt
    ]

    unfoldable pub process_block : Client → List Address → Block → M (Unit {0})
    process_block client addresses block = do
      events ← block_events client addresses block
      publish_events block events

    -- The loop over the block numbers, with fuel for its rounds. The provider has index i.
    unfoldable pub scan_blocks : ℕ → Client → ℕ → List Address → ℤ → ℤ → RunState → M RunState
    scan_blocks zero client i addresses block_num safe_block s = pure s
    scan_blocks (suc fuel) client i addresses block_num safe_block s =
        elim (leb_ℤ block_num safe_block) [
          | false ↦ pure s
          | true ↦ do
            answer ←
                call (get_block client block_num) (λ t. env.node.block_by_number t client block_num)
            elim answer [
              | err e ↦ pure (record s { providers = handle_provider_failure s.providers i e })
              | ok block ↦ do
                handled ← process_block client addresses block
                scan_blocks fuel client i addresses (block_num +ℤ pos 1) safe_block
                    (record s { last_block = some block_num })
            ]
        ]

    -- `if lastBlock != nil`: the next range starts behind the last block, which is persisted.
    unfoldable pub persist_progress : RunState → M RunState
    persist_progress s = elim s.last_block [
      | none ↦ pure s
      | some last ↦ do
        outcome ← update_last_scanned_block env.db el.network_id last
        pure (record s { from_block = some (last +ℤ pos 1) })
    ]

    abbrev pub from_or : Option ℤ → ℤ → ℤ
    from_or none safe_block = safe_block
    from_or (some from) safe_block = from

    -- The end of the range: `safeBlock`, or `cappedEnd` where that is lower.
    abbrev pub capped : ℤ → ℤ → ℤ
    capped from safe_block =
        let capped_end = from +ℤ int64 (el.max_blocks_per_tick -ℤ pos 1) in
        if ltb_ℤ capped_end safe_block then capped_end else safe_block

    unfoldable pub scan_range : Client → ℕ → List Address → ℤ → RunState → M RunState
    scan_range client i addresses safe_block s =
        let from = from_or s.from_block safe_block in
        let to = capped from safe_block in
        if ltb_ℤ safe_block from
        then pure s
        else do s' ← scan_blocks (rounds from to) client i addresses from to s; persist_progress s'

    -- The branch without addresses.
    unfoldable pub skip_to : ℤ → RunState → M RunState
    skip_to safe_block s = do
      outcome ← update_last_scanned_block env.db el.network_id safe_block
      pure (record s { last_block = some safe_block; from_block = some (safe_block +ℤ pos 1) })

    -- A tick behind the header, by the answer to the query for wallets.
    unfoldable pub handle_wallets :
        Client → ℕ → ℤ → RunState → Result (List IndexedAddress) → M RunState
    handle_wallets client i safe_block s (err e) = pure s
    handle_wallets client i safe_block s (ok []) = skip_to safe_block s
    handle_wallets client i safe_block s (ok (w ∷ ws)) =
        let addresses =
          map (λ (w : IndexedAddress). env.eth.hex_to_address w.wallet_address) (w ∷ ws) in
        scan_range client i addresses safe_block s

    -- A tick behind the choice of a provider.
    unfoldable pub tick_with : Client → ℕ → RunState → M RunState
    tick_with client i s = do
      answer ← call (get_header client) (λ t. env.node.header_by_number t client)
      elim answer [
        | err e ↦ pure (record s { providers = handle_provider_failure s.providers i e })
        | ok number ↦ do
          wallets ← get_indexed_address_to_monitor env.db el.network_id
          handle_wallets client i (pos number -ℤ el.safe_block_buffer) s wallets
      ]

    unfoldable pub tick_providers : RunState → M RunState
    tick_providers s = do
      retry ← require_retry s.next_provider_retry
      let s' = record s { next_provider_retry = retry.1 }
      elim retry.0 [
        | true ↦ do
          providers ← recover_unhealthy_providers env.node s'.providers
          pure (record s' { providers = providers })
        | false ↦ pure s'
      ]

    unfoldable pub tick : RunState → M RunState
    tick s = do
      s' ← tick_providers s
      elim (get_healthy_client s'.providers) [
        | none ↦ pure s'
        | some (client, i) ↦ tick_with client i s'
      ]

    -- Any number of ticks, before the context is done.
    unfoldable pub ticks : ℕ → RunState → M RunState
    ticks zero s = pure s
    ticks (suc k) s = do s' ← tick s; ticks k s'

    -- The session of a listener that starts at a block, if the database creates one.
    unfoldable pub open_session : ℤ → RunState → M RunState
    open_session from s = do
      created ← create_listener_session env.db el.network_id (int64 from)
      elim created [
        | err e ↦ pure (record s { from_block = some from })
        | ok id ↦ pure (record s { from_block = some from; session_id = id })
      ]

    abbrev pub start_from : RunState → Option (Client × ℕ) → M RunState
    start_from s none = pure s
    start_from s (some (client, i)) = do
      answer ← call (get_header client) (λ t. env.node.header_by_number t client)
      elim answer [
        | err e ↦ pure s
        | ok number ↦ open_session (pos number -ℤ el.safe_block_buffer) s
      ]

    -- The code before the loop; `el.providerList[0]` panics on an empty list.
    unfoldable pub startup : List EvmProvider → M RunState
    startup [] = crash
    startup (p ∷ ps) = do
      now ← time_now
      let s : RunState = record {
        providers = p ∷ ps;
        next_provider_retry = now + five_minutes;
        last_block = none;
        from_block = none;
        session_id = [];
      }
      start_from s (get_healthy_client (p ∷ ps))

    -- The branch of `ctx.Done()`.
    unfoldable pub shutdown : RunState → M (Unit {0})
    shutdown s =
        if text_eq s.session_id []
        then pure tt
        else do outcome ← close_listener_session env.db s.session_id s.last_block; pure tt

    -- `Run`, where k ticks pass before the shutdown signal.
    unfoldable pub run : ℕ → List EvmProvider → M (Unit {0})
    run k providers = do s ← startup providers; s' ← ticks k s; shutdown s'
