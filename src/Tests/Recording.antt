-- ===== src/Tests/Recording.antt =====
-- Runs of the listener of `Tests.Listening`, as the tables record them.
use chain_ops.Chain.{int64}
use chain_ops.Common.{All, false, ℕ, ◌≡◌, refl, [], ◌∷◌, ◌++◌, none, ap, subst}
use chain_ops.Common.Int.{ℤ, pos}
use chain_ops.Common.Text.{Text, codes, text_eq}
use chain_ops.World.{Result, ok, err, Trace, done}
use chain_ops.Db.Tables.{SessionRow, Tables, tables, tables-SeesSql, active}
use chain_ops.Listener.{ticks, run, process_block}
use chain_ops.Listener.Frame.{process_block-Keeps}
use chain_ops.Listener.Quiet.{fetched}
use chain_ops.Listener.Scan.{countdown, last_of}
use chain_ops.Listener.Records.{Stores, ticks-Stores}
use chain_ops.Listener.Records.Start.{GivesId}
use chain_ops.Listener.Records.Run.{Recorded, run_records}
use chain_ops.Tests.Collecting.{block_of, transfer}
use chain_ops.Tests.Listening.{
  db, env, provider, listener, state, env-IsOrderly, env-HasWallets, listener-HasLimit,
}

abbrev old_session : SessionRow
old_session = record {
  id = codes "old";
  network_id = codes "net";
  from_block = pos 3;
  to_block = none;
  status = active;
}

-- Two networks, and a session that was left open.
abbrev pub before : Tables
before = record {
  networks =
      record { id = codes "net"; last_scanned_block = pos 79 }
      ∷ record { id = codes "other"; last_scanned_block = pos 5 }
      ∷ [];
  sessions = old_session ∷ [];
}

process_block-Keeps_example :
    tables db before (process_block env listener 0 (1 ∷ []) (block_of (transfer ∷ [])) []).1
    ≡ tables db before []
process_block-Keeps_example =
    process_block-Keeps (tables db before) (tables-SeesSql db before) env listener 0 (1 ∷ [])
      (block_of (transfer ∷ [])) []

ticks-Stores_example :
    Stores env listener before
      (λ _ _. refl)
      before.networks
      before.sessions
      state
      []
      (ticks env listener 3 state)
unfolding tables text_eq int64
ticks-Stores_example =
    ticks-Stores env listener before (λ _ _. refl) before.networks before.sessions
      (env-IsOrderly listener) 3 state [] (refl, refl)

text_of : Result Text → Text
text_of (ok s) = s
text_of (err _) = []

pub new_id : GivesId env listener before []
unfolding tables text_eq text_of
new_id _ _ id given =
    subst
      (λ (x : Text).
        (text_eq x [] ≡ false)
        × All (λ (row : SessionRow). text_eq row.id x ≡ false) (tables db before []).sessions)
      (ap text_of given) (refl, (refl, tt))

run_records_example :
    (t' : Trace) × (f : ℤ) × (k : ℕ) × (run env listener 3 (provider ∷ []) [] ≡ (done tt, t'))
    × (fetched env.node t' ≡ countdown f k ++ [])
    × Recorded env listener before (provider ∷ []) [] t' (last_of f k none) f
run_records_example =
    run_records env listener before (env-IsOrderly listener) listener-HasLimit
      (env-HasWallets listener) (λ _ _. refl) 3 provider [] [] new_id
