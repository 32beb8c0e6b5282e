-- ===== src/Lib.antt =====
-- The listener service of ChainOps (services/listener), which polls an EVM chain and publishes the
-- activity of monitored wallets, block by block, to NATS JetStream.
--
-- Common holds the shared notation and lemmas: tests and lists over the native numbers, the signed
-- integers of Go, and Go's strings as lists of bytes. Schema is services/listener/schema, and Wire
-- the JSON document of a message by its struct tags, with a reader for consumers (Wire/Decode).
-- Chain has the go-ethereum values that the listener reads. World has the environment: every call
-- that leaves the process is recorded on a trace, and the environment answers by any function of
-- that trace.
--
-- Publisher is services/listener/publisher: `chunk`, `publishBatch`, `Publish`; Publisher/Consumer
-- reads its messages back. Providers is services/listener/providers with the provider handling of
-- services/listener/service/evm_listener.go. Txn is `collectTxnEvents` and Usdc is
-- services/listener/service/usdc_event.go: the two collectors of a block. Db is
-- services/listener/db, one function for each statement, and Db/Wallets the query for wallets.
-- Listener is `EvmListener.Run`: startup, a tick, the loop over a range of blocks, and the
-- shutdown, as functions of the local variables of `Run`. Config is services/listener/config, and
-- Main is services/listener/main.go: Main/Ways has the ways in which the start can go,
-- Main/Sequence the start itself, Main/Whole the program from start to end. Db/Tables has the rows
-- that the statements change, replayed over a trace. Db/Pool is db_connect.go, Publisher/Connect is
-- `New` and `Close`. Tests has concrete runs.
--
-- Listener's children: Quiet (the work on one block), Scan (the loop over block numbers), Advance
-- (what it is to get the next blocks), Range (a range of a tick), Ready (the start of a tick),
-- Ticks (a tick, many ticks), Session (a whole run), Progress (a tick in which nothing fails),
-- Health (the providers over the ticks), Frame (what makes no statement), Records (what a run
-- leaves in the tables), Late (a run that starts without a header), Idle (ticks without a wallet
-- to monitor), Crash (the session of a run that panics) and Delivered (a block from the collectors
-- to a consumer). Txn/Expected describes the events of a block's transactions. Logger is
-- services/listener/logger: the lines of the log (Logger/Line), the pool of buffers and the
-- writers, and the handlers that WithAttrs and WithGroup make (Logger/Derived).
--
-- A Go panic ends a run as `panic`. Where the source checks a slice bound against a capacity, the
-- slice has the bytes behind its length. The fuel of `chunk_from` is the number of events and that
-- of `scan_blocks` is the number of blocks in the range, which is enough: each round takes at least
-- one.
--
-- Not modelled: the decoding of YAML and strings.ToLower, which are parameters, the flags and
-- signals of main, the log calls themselves and slog's Logger, the connection options of NATS, and
-- the texts that encoding/json prints for a document and a timestamp, which are parameters too.
-- The ledger service, a Java program, is another component of the repository.
pub mod Common
pub mod Schema
pub mod Wire
pub mod Chain
pub mod World
pub mod Config
pub mod Publisher
pub mod Providers
pub mod Txn
pub mod Usdc
pub mod Db
pub mod Listener
pub mod Logger
pub mod Main
pub mod Tests
