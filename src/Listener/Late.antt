-- ===== src/Listener/Late.antt =====
-- A run whose start finds no provider or no header: it waits for the first tick that gets a block.
pub mod Run
use native.Mathlib.Nat.{suc-mul}
use chain_ops.Common.{
  sym, ℕ, zero, suc, ◌+◌, ◌*◌, ◌≤◌, ◌≡◌, ◌≢◌, refl, ap, ◌∙◌, ◌⊎◌, inl, inr, List, [], ◌∷◌, ◌++◌,
  none, some, true, false, arith, Bool-cases, Option-cases, map,
}
use chain_ops.Common.Int.{ℤ, pos, ◌+ℤ◌, ◌-ℤ◌, pos_part, ltb_ℤ, int_laws}
use chain_ops.Chain.{Address}
use chain_ops.Common.Text.{text_eq}
use chain_ops.World.{
  Error, Result, ok, err, Result-cases, Client, get_header, read_clock, sql, select_wallets, Trace,
  done, M, pure, bind_done, ◌>>=◌,
}
use chain_ops.Providers.{EvmProvider, handle_provider_failure, get_healthy_client}
use chain_ops.Db.{IndexedAddress, get_indexed_address_to_monitor}
use chain_ops.Listener.{
  EvmListener, RunState, Env, five_minutes, startup, shutdown, run, rounds, capped, scan_blocks,
  persist_progress, scan_range, handle_wallets, tick_with, tick_providers, tick, ticks,
}
use chain_ops.Listener.Quiet.{fetched, IsOrderly}
use chain_ops.Listener.Scan.{countdown, last_of, scanned, scan_blocks_lem}
use chain_ops.Listener.Advance.{Advances, Advances-trans}
use chain_ops.Listener.Range.{
  HasLimit, Stops-le, persist_progress-none, persist_progress-got, rounds-capped,
}
use chain_ops.Listener.Ready.{wallets_lem, tick_providers_lem}
use chain_ops.Listener.Ticks.{HasWallets, most_sum, ticks-Advances}

-- The listener has not started: it has no block to go on at, and no last block.
abbrev pub Waits : RunState → Type 0
Waits s = (s.from_block ≡ none) × (s.last_block ≡ none)

never_below : (b : ℤ) → ltb_ℤ b b ≡ false
never_below b = ground arith

module _ (env : Env) (el : EvmListener) where
  -- The safe block of a header that the node has reported.
  abbrev pub IsSafe : ℤ → Type 0
  IsSafe f =
      (t : Trace) × (client : Client) × (number : ℕ) × (env.node.header_by_number t client
        ≡ ok number)
      × (f ≡ pos number -ℤ el.safe_block_buffer)

  -- The listener still waits, or has begun at a block and goes on behind the k blocks from there.
  abbrev pub Begins : ℕ → RunState → Trace → RunState → Trace → Type 0
  Begins most s t s' t' =
      (Waits s' × (s'.session_id ≡ s.session_id) × (fetched env.node t' ≡ fetched env.node t))
      ⊎ ((f : ℤ) × (k : ℕ) × IsSafe f × Advances env.node f k s t s' t' × (k ≤ most))

  abbrev pub BeginsBy : ℕ → RunState → Trace → M RunState → Type 0
  BeginsBy most s t m =
      (s' : RunState) × (t' : Trace) × (m t ≡ (done s', t')) × Begins most s t s' t'

  abbrev pub limit_of : ℕ
  limit_of = pos_part el.max_blocks_per_tick

  module _ (orderly : IsOrderly env el) (limit : HasLimit env el)
      (wallets : HasWallets env el) where
    scan_range-run :
        (client : Client) (i : ℕ) (addresses : List Address) (f : ℤ) (s : RunState) (t : Trace)
        → Waits s
        → scan_range env el client i addresses f s t
          ≡ (scan_blocks env el
                  (rounds f (capped env el f f))
                  client
                  i
                  addresses
                  f
                  (capped env el f f)
                  s
                >>= persist_progress env el)
              t
    unfolding scan_range
    scan_range-run client i addresses f s t (unset, _) = simp (unset, never_below f, scan_range)

    scan_range-Begins :
        (client : Client) (i : ℕ) (a : Address) (rest : List Address) (f : ℤ) (s : RunState)
        (t : Trace)
        → Waits s
        → IsSafe f
        → BeginsBy limit_of s t (scan_range env el client i (a ∷ rest) f s)
    scan_range-Begins client i a rest f s t waits safe =
        let to = capped env el f f in
        let (k, ps, t1, run, all, stops) =
          scan_blocks_lem env el orderly client i a rest to (rounds f to) f s t (omega arith) in
        let most : k ≤ limit_of = omega (
          arith,
          rounds-capped env el limit f f,
          Stops-le env.node client i f k (rounds f to) s.providers ps stops,
        ) in
        let (s', t', stored, begins) = store k ps t1 all most in
        (
          s',
          t',
          scan_range-run client i (a ∷ rest) f s t waits
              ∙ bind_done (scan_blocks env el (rounds f to) client i (a ∷ rest) f to s)
                  (persist_progress env el) t run
              ∙ stored,
          begins,
        )
      where
        store :
            (k : ℕ) (ps : List EvmProvider) (t1 : Trace)
            → fetched env.node t1 ≡ countdown f k ++ fetched env.node t
            → k ≤ limit_of
            → (s' : RunState) × (t' : Trace) × (persist_progress env el (scanned s f k ps) t1
                ≡ (done s', t'))
              × Begins limit_of s t s' t'
        store zero ps t1 all most = (
          scanned s f 0 ps,
          t1,
          persist_progress-none env el (scanned s f 0 ps) t1 waits.1,
          inl (waits, refl, all),
        )
        store (suc j) ps t1 all most =
            let (s', t2, run, advances) = persist_progress-got env el s t t1 f j ps all in
            (s', t2, run, inr (f, suc j, safe, advances, most))

    Begins-earlier :
        (most most' : ℕ) (s s1 s' : RunState) (t t1 t' : Trace)
        → most ≤ most'
        → s1.last_block ≡ s.last_block
        → s1.session_id ≡ s.session_id
        → fetched env.node t1 ≡ fetched env.node t
        → Begins most s1 t1 s' t'
        → Begins most' s t s' t'
    Begins-earlier most most' s s1 s' t t1 t' le last same quiet (inl (waits, ids, got)) =
        inl (waits, ids ∙ same, got ∙ quiet)
    Begins-earlier most most' s s1 s' t t1 t' le last same quiet
          (inr (f, k, safe, (all, resumes, at, ids), bound)) =
        inr (
          f,
          k,
          safe,
          (
            all ∙ ap (λ l. countdown f k ++ l) quiet,
            resumes,
            at ∙ ap (last_of f k) last,
            ids ∙ same,
          ),
          omega arith,
        )

    -- A step that changes nothing that matters, and one behind it.
    after-Begins :
        (most : ℕ) (s s1 : RunState) (t t1 : Trace) (m : M RunState) (go_on : RunState → M RunState)
        → m t ≡ (done s1, t1)
        → s1.last_block ≡ s.last_block
        → s1.session_id ≡ s.session_id
        → fetched env.node t1 ≡ fetched env.node t
        → BeginsBy most s1 t1 (go_on s1)
        → BeginsBy most s t (m >>= go_on)
    after-Begins most s s1 t t1 m go_on first last same quiet (s', t', run, begins) = (
      s',
      t',
      bind_done m go_on t first ∙ run,
      Begins-earlier most most s s1 s' t t1 t' (omega arith) last same quiet begins,
    )

    handle_wallets-Begins :
        (client : Client) (i : ℕ) (f : ℤ) (s : RunState) (t : Trace)
        (r : Result (List IndexedAddress))
        → Waits s
        → IsSafe f
        → r ≢ ok []
        → BeginsBy limit_of s t (handle_wallets env el client i f s r)
    unfolding handle_wallets
    handle_wallets-Begins client i f s t (err e) waits safe some_wallet =
        (s, t, refl, inl (waits, refl, refl))
    handle_wallets-Begins client i f s t (ok []) waits safe some_wallet = absurd (some_wallet refl)
    handle_wallets-Begins client i f s t (ok (w ∷ ws)) waits safe some_wallet =
        scan_range-Begins client i _ _ f s t waits safe

    tick_with-Begins :
        (client : Client) (i : ℕ) (s : RunState) (t : Trace)
        → Waits s
        → BeginsBy limit_of s t (tick_with env el client i s)
    unfolding tick_with
    tick_with-Begins client i s t waits = elim (Result-cases (env.node.header_by_number t client)) [
      | inr (e, failed) ↦ (
        record s { providers = handle_provider_failure s.providers i e },
        get_header client ∷ t,
        simp (failed, tick_with),
        inl (waits, refl, refl),
      )
      | inl (number, header) ↦
          let asked = get_header client ∷ t in
          let f = pos number -ℤ el.safe_block_buffer in
          let (r, answered) = wallets_lem env el asked in
          let (s', t', run, begins) =
            handle_wallets-Begins client i f s (sql (select_wallets el.network_id) ∷ asked) r waits
              (t, client, number, header, refl)
              (λ empty. wallets asked (ap (λ x. x.0) answered ∙ ap done empty)) in
          (
            s',
            t',
            rw (header, tick_with)
                (bind_done (get_indexed_address_to_monitor env.db el.network_id)
                    (handle_wallets env el client i f s) asked answered
                  ∙ run),
            begins,
          )
    ]

    tick-Begins : (s : RunState) (t : Trace) → Waits s → BeginsBy limit_of s t (tick env el s)
    unfolding tick
    tick-Begins s t (unset, unseen) =
        let (s1, t1, ready, (from, last, same, quiet)) = tick_providers_lem env el s t in
        let go_on : RunState → M RunState = λ s'. elim (get_healthy_client s'.providers) [
          | none ↦ pure s'
          | some (client, i) ↦ tick_with env el client i s'
        ] in
        let waits : Waits s1 = (from ∙ unset, last ∙ unseen) in
        after-Begins limit_of s s1 t t1 (tick_providers env el s) go_on ready last same quiet
          (elim (Option-cases (get_healthy_client s1.providers)) [
            | inl down ↦ (s1, t1, rw down refl, inl (waits, refl, refl))
            | inr (choice, up) ↦ rw up (tick_with-Begins choice.0 choice.1 s1 t1 waits)
          ])

    -- The data that the collectors see is orderly, `max_blocks_per_tick` is not the least int64,
    -- and the list of wallets is never empty. From a state that has no block to go on at and no
    -- last block, any number of ticks return. Either the listener still waits, and has got no
    -- block, or it began at the safe block f of a header that the node has reported, and has got
    -- the blocks from f on, in order, each once and without a gap, at most `max_blocks_per_tick`
    -- for each tick; the last of them is its last block.
    pub ticks-Begins :
        (j : ℕ) (s : RunState) (t : Trace)
        → Waits s
        → BeginsBy (j * limit_of) s t (ticks env el j s)
    unfolding ticks
    ticks-Begins zero s t waits = (s, t, refl, inl (waits, refl, refl))
    ticks-Begins (suc j) s t waits =
        let (s1, t1, run, begins) = tick-Begins s t waits in
        let (s', t', rest, result) = go (ticks-Begins j) s1 t1 begins in
        (s', t', bind_done (tick env el s) (ticks env el j) t run ∙ rest, result)
      where
        go :
            ((s1 : RunState) (t1 : Trace)
              → Waits s1
              → BeginsBy (j * limit_of) s1 t1 (ticks env el j s1))
            → (s1 : RunState) (t1 : Trace) → Begins limit_of s t s1 t1
            → (s' : RunState) × (t' : Trace) × (ticks env el j s1 t1 ≡ (done s', t'))
              × Begins (suc j * limit_of) s t s' t'
        go later s1 t1 (inl (still, same, quiet)) =
            let (s', t', run, begins) = later s1 t1 still in
            (
              s',
              t',
              run,
              Begins-earlier (j * limit_of) (suc j * limit_of) s s1 s' t t1 t'
                  (omega (arith, suc-mul j limit_of)) (still.1 ∙ sym waits.1) same quiet begins,
            )
        go later s1 t1 (inr (f, k, safe, first, most)) =
            let (k2, s', t', run, others, most2) =
              ticks-Advances env el orderly limit wallets j (f +ℤ pos k) s1 t1 first.1 in
            (
              s',
              t',
              run,
              inr (
                f,
                k2 + k,
                safe,
                Advances-trans env.node f k k2 s s1 s' t t1 t' first others,
                most_sum j k k2 limit_of most most2,
              ),
            )
