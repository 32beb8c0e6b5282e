-- ===== src/Listener/Idle.antt =====
-- Ticks of a listener that has no wallet to monitor.
use chain_ops.Common.{◌≡◌, ◌≢◌, List, ◌∷◌, some}
use chain_ops.Common.Int.{ℤ, pos, ◌+ℤ◌}
use chain_ops.World.{ok, Trace, done, M}
use chain_ops.Db.{IndexedAddress, get_indexed_address_to_monitor}
use chain_ops.Listener.{EvmListener, RunState, Env}
use chain_ops.Listener.Quiet.{fetched}
use chain_ops.Listener.Late.{IsSafe}

module _ (env : Env) (el : EvmListener) where
  -- The query for wallets never returns one.
  abbrev pub HasNoWallets : Type 0
  HasNoWallets =
      (t : Trace) (w : IndexedAddress) (ws : List IndexedAddress)
      → (get_indexed_address_to_monitor env.db el.network_id t).0 ≢ done (ok (w ∷ ws))

  -- How the listener stands behind a step from s: as before, or at a safe block that the node has
  -- reported.
  pub data Idles (s s' : RunState) : Type 0 where
    stays : s'.last_block ≡ s.last_block → s'.from_block ≡ s.from_block → Idles s s'
    skips :
        (b : ℤ)
        → IsSafe env el b
        → s'.last_block ≡ some b
        → s'.from_block ≡ some (b +ℤ pos 1)
        → Idles s s'

  -- A step that returns and gets no block.
  abbrev pub IdlesBy : RunState → Trace → M RunState → Type 0
  IdlesBy s t m =
      (s' : RunState) × (t' : Trace) × (m t ≡ (done s', t'))
      × (fetched env.node t' ≡ fetched env.node t)
      × Idles s s'
