-- ===== src/Publisher/Connect.antt =====
-- `New` and `Close` of the publisher. The reconnect options and the handlers that only log are left
-- out.
use chain_ops.Common.{Option, none, some}
use chain_ops.Common.Text.{Text}
use chain_ops.World.{
  Error, connect_nats, open_jetstream, close_nats, drain_nats, Trace, M, pure, call, ◌>>=◌,
}
use chain_ops.Publisher.{Publisher}

-- The connection to a NATS server; `none` is a nil error.
pub record Nats : Type 0 where
  pub connect : Trace → Text → Option Error
  pub jetstream : Trace → Option Error
  pub drain : Trace → Option Error

pub data NewError : Type 0 where
  connect_failed : Text → Error → NewError
  context_failed : Error → NewError

pub data New : Type 0 where
  created : Publisher → New
  failed : NewError → New

module _ (nats : Nats) where
  -- A connection without a JetStream context is closed.
  unfoldable pub new_publisher : Text → Text → M New
  new_publisher nats_url subject = do
    connected ← call (connect_nats nats_url) (λ t. nats.connect t nats_url)
    elim connected [
      | some e ↦ pure (failed (connect_failed nats_url e))
      | none ↦ do
        opened ← call open_jetstream nats.jetstream
        elim opened [
          | some e ↦ do closed ← call close_nats (λ _. tt); pure (failed (context_failed e))
          | none ↦ pure (created (record { subject = subject }))
        ]
    ]

  -- An error of the drain is logged.
  unfoldable pub close : M (Unit {0})
  close = do drained ← call drain_nats nats.drain; pure tt
