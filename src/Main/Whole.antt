-- ===== src/Main/Whole.antt =====
-- main from its start to its end, with the run of its listener in between.
use chain_ops.Common.{
  ℕ, ◌*◌, ◌≤◌, ◌≡◌, refl, ap, subst, ◌∙◌, sym, inl, inr, List, [], ◌∷◌, ◌++◌, Option, none, some,
  true, false, arith, Bool-cases, if◌then◌else◌,
}
use chain_ops.Common.Int.{pos, pos_part}
use chain_ops.Common.Text.{Text, text_eq}
use chain_ops.Chain.{int64}
use chain_ops.World.{
  ok, Result-cases, Client, Node, dial, get_chain_id, get_header, read_clock, drain_nats, sql,
  insert_session, close_session, Trace, done, bind_done, ◌>>=◌, pure, M,
}
use chain_ops.Publisher.{Publisher}
use chain_ops.Publisher.Connect.{close}
use chain_ops.Providers.{
  healthy, EvmProvider, connected, refused, get_healthy_client, connect_evm, connect_from,
  expected_or, matches_expected,
}
use chain_ops.Providers.Connect.{Sound, connect_evm-Sound}
use chain_ops.Db.{to_block}
use chain_ops.Listener.{EvmListener, run}
use chain_ops.Listener.Quiet.{fetched, IsOrderly}
use chain_ops.Listener.Scan.{countdown, last_of}
use chain_ops.Listener.Range.{HasLimit}
use chain_ops.Listener.Ticks.{HasWallets}
use chain_ops.Listener.Session.{first_block, run_covers}
use chain_ops.Main.{
  Process, Exit, finished, Setup, Started, stopped, set_up, start, listener_of, listen_to, listen,
  leave, main, providers_failed,
}
use chain_ops.Main.Sequence.{start-Starts}
use chain_ops.Main.Ways.{
  Starts, unread, undecoded, no_pool, no_ping, no_network, no_connection, no_context,
  without_publisher, with_publisher,
}

-- The trace behind the deferred calls.
abbrev pub drained : Option Publisher → Trace → Trace
drained none t = t
drained (some _) t = drain_nats ∷ t

-- Connecting to providers gets no block.
connect_from_quiet :
    (n : Node) (expected : Option ℕ) (list : List EvmProvider) (urls : List Text) (t : Trace)
    → fetched n (connect_from n expected list urls t).1 ≡ fetched n t
unfolding connect_from
connect_from_quiet n expected list [] t = refl
connect_from_quiet n expected list (url ∷ urls) t = elim (Result-cases (n.dial_context t url)) [
  | inr (e, failed) ↦ rw (failed, connect_from) refl
  | inl (client, dialled) ↦ elim (Result-cases (n.chain_id (dial url ∷ t) client)) [
    | inr (e, failed) ↦ rw (dialled, failed, connect_from) refl
    | inl (id, answered) ↦ elim (Bool-cases (matches_expected expected id)) [
      | inr other ↦ rw (dialled, answered, other, connect_from) refl
      | inl same ↦
          rw (dialled, answered, same, connect_from)
            (connect_from_quiet n (some (expected_or expected id)) (list ++ provider client id ∷ [])
              urls (get_chain_id client ∷ dial url ∷ t))
    ]
  ]
]
  where
    provider : Client → ℕ → EvmProvider
    provider client id = record {
      url = url;
      client = client;
      failure_count = pos 0;
      chain_id = id;
      status = healthy;
    }

module _ (proc : Process) (path : Text) (t : Trace) where
  Starts-quiet :
      (r : Started) (t' : Trace)
      → Starts proc path t r t'
      → fetched proc.env.node t' ≡ fetched proc.env.node t
  Starts-quiet r t' (unread e h) = refl
  Starts-quiet r t' (undecoded bytes e h i) = refl
  Starts-quiet r t' (no_pool cfg e h i) = refl
  Starts-quiet r t' (no_ping cfg e h i j) = refl
  Starts-quiet r t' (no_network cfg e h i) = refl
  Starts-quiet r t' (no_connection cfg id e h i j) = refl
  Starts-quiet r t' (no_context cfg id e h i j k) = refl
  Starts-quiet r t' (without_publisher cfg id h i) = refl
  Starts-quiet r t' (with_publisher cfg id h i j k) = refl

-- The first provider of a fresh list is selected.
first_selected :
    (url : Text) (urls : List Text) (list : List EvmProvider)
    → Sound (url ∷ urls) (connected list)
    → (p : EvmProvider) × (ps : List EvmProvider) × (list ≡ p ∷ ps)
      × (get_healthy_client (p ∷ ps) ≡ some (p.client, 0))
unfolding get_healthy_client
first_selected url urls [] (_, same, _) = cc
first_selected url urls (p ∷ ps) (_, _, (_, (ready, _))) =
    let up : p.status ≡ healthy = ready.is_up in (p, ps, refl, ground arith)

module _ (proc : Process) (path : Text) (t : Trace) (s : Setup) (t1 : Trace)
    (started : start proc path t ≡ (done (set_up s), t1))
    (listens : s.config.evm_block_listen ≡ true) (url : Text) (urls : List Text)
    (configured : s.config.rpc_urls ≡ url ∷ urls) (list : List EvmProvider) (t2 : Trace)
    (online : connect_evm proc.env.node (url ∷ urls) t1 ≡ (done (connected list), t2)) (number : ℕ)
    (id : Text) where
  abbrev pub el : EvmListener
  el = listener_of proc s

  -- The start of main and the connection to the providers get no block.
  online_quiet : fetched proc.env.node t2 ≡ fetched proc.env.node t
  unfolding connect_evm
  online_quiet =
      let (r, t', run, starts) = start-Starts proc path t in
      sym (ap (λ x. fetched proc.env.node x.1) online)
      ∙ connect_from_quiet proc.env.node none [] (url ∷ urls) t1
      ∙ ap (λ x. fetched proc.env.node x.1) (sym started ∙ run)
      ∙ Starts-quiet proc path t r t' starts

  left :
      (o : Option Publisher) (t3 : Trace)
      → (elim o as (λ _. M Exit) [
        | none ↦ pure finished
        | some p ↦ close proc.nats >>= λ _. pure finished
      ])
          t3
        ≡ (done finished, drained o t3)
  unfolding close
  left none t3 = refl
  left (some p) t3 = refl

  listened :
      (j : ℕ) (t3 : Trace)
      → run proc.env el j list t2 ≡ (done tt, t3)
      → listen proc j s t1 ≡ (done finished, t3)
  unfolding listen listen_to
  listened j t3 ran =
      ap (λ b. (if b then listen_to proc j s s.config.rpc_urls else pure finished) t1) listens
      ∙ ap (λ us. listen_to proc j s us t1) configured
      ∙ bind_done (connect_evm proc.env.node (url ∷ urls))
          (λ answer. elim answer as (λ _. M Exit) [
            | refused e ↦ pure (providers_failed e)
            | connected list ↦ run proc.env el j list >>= λ _. pure finished
          ])
          t1 online
      ∙ bind_done (run proc.env el j list) (λ _. pure finished) t2 ran

  main_runs :
      (j : ℕ) (t3 : Trace)
      → run proc.env el j list t2 ≡ (done tt, t3)
      → main proc j path t ≡ (done finished, drained s.publisher t3)
  unfolding main leave
  main_runs j t3 ran =
      bind_done (start proc path)
        (λ started. elim started as (λ _. M Exit) [
          | stopped e ↦ pure e
          | set_up s ↦ listen proc j s >>= leave proc s
        ])
        t started
      ∙ bind_done (listen proc j s) (leave proc s) t1 (listened j t3 ran)
      ∙ left s.publisher t3

  selected :
      (p : EvmProvider) × (ps : List EvmProvider) × (list ≡ p ∷ ps)
      × (get_healthy_client (p ∷ ps) ≡ some (p.client, 0))
  selected =
      let (r, t', run, sound) = connect_evm-Sound proc.env.node (url ∷ urls) t1 in
      let same : done r ≡ done (connected list) = ap (λ x. x.0) (sym run ∙ online) in
      let is_connected : r ≡ connected list = cc in
      first_selected url urls list (subst (Sound (url ∷ urls)) is_connected sound)

  -- main whose start sequence succeeds, with a listener to run and providers that connect, a header
  -- and a database that opens the session at the safe block f, returns with code 0, if the data is
  -- orderly, `max_blocks_per_tick` is not the least int64 and the list of wallets is never empty.
  -- Until the signal after j ticks it has got k blocks, at most `max_blocks_per_tick` for each
  -- tick: f and those that follow it, in order, each once and without a gap. Then it closes this
  -- session with the last of them, and drains the publisher's connection, if there is one, last of
  -- all.
  pub main_covers :
      ((client : Client) → proc.env.node.header_by_number (read_clock ∷ t2) client ≡ ok number)
      → ((client : Client)
          → proc.env.db.scan_text
              (get_header client ∷ read_clock ∷ t2)
              (insert_session el.network_id (int64 (first_block proc.env el number)))
            ≡ ok id)
      → text_eq id [] ≡ false
      → IsOrderly proc.env el
      → HasLimit proc.env el
      → HasWallets proc.env el
      → (j : ℕ)
      → let f = first_block proc.env el number in
        (k : ℕ) × (t3 : Trace) × (main proc j path t ≡ (
          done finished,
          drained s.publisher
              (sql (close_session id (to_block proc.env.db (last_of f k none))) ∷ t3),
        ))
        × (fetched proc.env.node t3 ≡ countdown f k ++ fetched proc.env.node t)
        × (k ≤ j * pos_part el.max_blocks_per_tick)
  main_covers header created named orderly limit wallets j =
      let (p, ps, is_list, up) = selected in
      let (k, t3, ran, all, most) =
        run_covers proc.env el p ps p.client 0 number id t2 up (header p.client) (created p.client)
          orderly limit wallets named j in
      (
        k,
        t3,
        main_runs j _ (ap (λ l. run proc.env el j l t2) is_list ∙ ran),
        all ∙ ap (λ l. countdown (first_block proc.env el number) k ++ l) online_quiet,
        most,
      )
