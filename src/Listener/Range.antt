-- ===== src/Listener/Range.antt =====
-- A range of blocks: its length, its scan, and what is stored behind it.
use chain_ops.Common.{
  ◌<◌, ◌^◌, ℕ, zero, suc, ◌≤◌, ◌≡◌, refl, ap, ◌∙◌, sym, ◌⊎◌, inl, inr, List, ◌∷◌, ◌++◌, none, some,
  true, false, arith, Bool-cases, if◌then◌else◌, ltb, ltb→lt, ltb→ge,
}
use chain_ops.Common.Int.{neg_part, ℤ, pos, ◌+ℤ◌, ◌-ℤ◌, ltb_ℤ, int_laws, pos_part}
use chain_ops.Chain.{int64_lem, Address, int64}
use chain_ops.World.{
  Error, err, Client, Node, sql, update_last_scanned, Trace, done, bind_done, ◌>>=◌,
}
use chain_ops.Providers.{EvmProvider}
use chain_ops.Db.{update_last_scanned_block}
use chain_ops.Listener.{
  EvmListener, RunState, Env, scan_blocks, rounds, persist_progress, capped, scan_range,
}
use chain_ops.Listener.Quiet.{fetched, IsOrderly}
use chain_ops.Listener.Scan.{countdown, scanned, Stops, scan_blocks_lem}
use chain_ops.Listener.Advance.{Resumes, Advances, Stays-Advances}

pub Stops-le :
    (n : Node) (client : Client) (i : ℕ) (f : ℤ) (k all : ℕ) (ps ps' : List EvmProvider)
    → Stops n client i f k all ps ps'
    → k ≤ all
Stops-le n client i f k all ps ps' (inl (same, _)) = omega arith
Stops-le n client i f k all ps ps' (inr (less, _, _, _, _)) = omega arith

-- The node did not give this block.
abbrev pub Fails : Node → Client → ℤ → Type 0
Fails n client b = (e : Error) × (t : Trace) × (n.block_by_number t client b ≡ err e)

Stops-why :
    (n : Node) (client : Client) (i : ℕ) (f : ℤ) (k all : ℕ) (ps ps' : List EvmProvider)
    → Stops n client i f k all ps ps'
    → (k ≡ all) ⊎ Fails n client (f +ℤ pos k)
Stops-why n client i f k all ps ps' (inl (same, _)) = inl same
Stops-why n client i f k all ps ps' (inr (_, e, t, failed, _)) = inr (e, t, failed)

+ℤ_next : (f : ℤ) (j : ℕ) → (f +ℤ pos j) +ℤ pos 1 ≡ f +ℤ pos (suc j)
+ℤ_next f j = omega int_laws

module _ (env : Env) (el : EvmListener) where
  -- Storing a last block.
  persist_progress-some :
      (s : RunState) (t : Trace) (b : ℤ)
      → s.last_block ≡ some b
      → (t' : Trace) × (persist_progress env el s t
          ≡ (done (record s { from_block = some (b +ℤ pos 1) }), t'))
        × (fetched env.node t' ≡ fetched env.node t)
  unfolding persist_progress update_last_scanned_block
  persist_progress-some s t b at =
      (sql (update_last_scanned el.network_id (int64 b)) ∷ t, simp (at, persist_progress), refl)

  pub persist_progress-none :
      (s : RunState) (t : Trace) → s.last_block ≡ none → persist_progress env el s t ≡ (done s, t)
  unfolding persist_progress
  persist_progress-none s t no_last = simp (no_last, persist_progress)

  -- A scan that got a block, stored.
  pub persist_progress-got :
      (s : RunState) (t t' : Trace) (f : ℤ) (j : ℕ) (ps : List EvmProvider)
      → fetched env.node t' ≡ countdown f (suc j) ++ fetched env.node t
      → (s' : RunState) × (t2 : Trace) × (persist_progress env el (scanned s f (suc j) ps) t'
          ≡ (done s', t2))
        × Advances env.node f (suc j) s t s' t2
  persist_progress-got s t t' f j ps all =
      let b = f +ℤ pos j in
      let s1 = scanned s f (suc j) ps in
      let (t2, run, same) = persist_progress-some s1 t' b refl in
      (
        record s1 { from_block = some (b +ℤ pos 1) },
        t2,
        run,
        (same ∙ all, (ap some (+ℤ_next f j), inr (b, refl, sym (+ℤ_next f j))), refl, refl),
      )

  persist_progress_lem :
      (s : RunState) (t t' : Trace) (f : ℤ) (k : ℕ) (ps : List EvmProvider)
      → Resumes s f
      → fetched env.node t' ≡ countdown f k ++ fetched env.node t
      → (s' : RunState) × (t2 : Trace) × (persist_progress env el (scanned s f k ps) t'
          ≡ (done s', t2))
        × Advances env.node f k s t s' t2
  persist_progress_lem s t t' f (suc j) ps _ all = persist_progress-got s t t' f j ps all
  persist_progress_lem s t t' f zero ps (from, inr (b, at, next)) all =
      let s1 = scanned s f 0 ps in
      let (t2, run, same) = persist_progress-some s1 t' b at in
      (
        record s1 { from_block = some (b +ℤ pos 1) },
        t2,
        run,
        Stays-Advances env.node s (record s1 { from_block = some (b +ℤ pos 1) }) t t2 f
            (sym (from ∙ ap some next), refl, refl, same ∙ all) (from, inr (b, at, next)),
      )
  persist_progress_lem s t t' f zero ps (from, inl no_last) all =
      let s1 = scanned s f 0 ps in
      (
        s1,
        t',
        persist_progress-none s1 t' no_last,
        Stays-Advances env.node s s1 t t' f (refl, refl, refl, all) (from, inl no_last),
      )

  -- `max_blocks_per_tick` is an int64, and not the least one.
  abbrev pub HasLimit : Type 0
  HasLimit = (pos_part el.max_blocks_per_tick < 2 ^ 63) × (neg_part el.max_blocks_per_tick < 2 ^ 63)

  cap_lem : HasLimit → int64 (el.max_blocks_per_tick -ℤ pos 1) ≡ el.max_blocks_per_tick -ℤ pos 1
  unfolding ◌-ℤ◌
  cap_lem (high, low) =
      int64_lem (el.max_blocks_per_tick -ℤ pos 1) (ground (arith, high, low))
        (ground (arith, high, low))

  pub rounds-capped :
      HasLimit
      → (f safe_block : ℤ)
      → (rounds f (capped env el f safe_block) ≤ pos_part el.max_blocks_per_tick)
        × (rounds f (capped env el f safe_block) ≤ rounds f safe_block)
  rounds-capped limit f safe_block =
      let same = cap_lem limit in
      elim (Bool-cases (ltb_ℤ (f +ℤ (el.max_blocks_per_tick -ℤ pos 1)) safe_block)) [
        | inl lower ↦
            (rw (same, lower) (grind int_laws), rw (same, lower) (grind (int_laws, ltb→lt)))
        | inr higher ↦
            (rw (same, higher) (grind (int_laws, ltb→ge)), rw (same, higher) (omega arith))
      ]

  -- The number of blocks from f to the safe block, or the limit of a tick where that is lower.
  abbrev pub range_size : ℤ → ℤ → ℕ
  range_size f safe_block =
      let limit = pos_part el.max_blocks_per_tick in
      let all = pos_part (safe_block -ℤ f +ℤ pos 1) in if ltb limit all then limit else all

  pub rounds-capped_lem :
      HasLimit
      → (f safe_block : ℤ) → rounds f (capped env el f safe_block) ≡ range_size f safe_block
  rounds-capped_lem limit f safe_block =
      let same = cap_lem limit in
      let all = pos_part (safe_block -ℤ f +ℤ pos 1) in
      elim (Bool-cases (ltb_ℤ (f +ℤ (el.max_blocks_per_tick -ℤ pos 1)) safe_block)) [
        | inl lower ↦ elim (Bool-cases (ltb (pos_part el.max_blocks_per_tick) all)) [
          | inl less ↦ rw (same, lower, less) (grind (int_laws, ltb→lt))
          | inr more ↦ rw (same, lower, more) (grind (int_laws, ltb→lt, ltb→ge))
        ]
        | inr higher ↦ elim (Bool-cases (ltb (pos_part el.max_blocks_per_tick) all)) [
          | inl less ↦ rw (same, higher, less) (grind (int_laws, ltb→lt, ltb→ge))
          | inr more ↦ rw (same, higher, more) refl
        ]
      ]

  range_behind :
      HasLimit
      → (f safe_block : ℤ) → ltb_ℤ safe_block f ≡ true
      → 0 ≡ rounds f (capped env el f safe_block)
  range_behind limit f safe_block behind =
      omega (arith, rounds-capped limit f safe_block, empty f safe_block behind)
    where
      empty : (f safe_block : ℤ) → ltb_ℤ safe_block f ≡ true → rounds f safe_block ≡ 0
      empty f safe_block behind = grind (int_laws, ltb→lt)

  module _ (client : Client) (i : ℕ) (addresses : List Address) (safe_block f : ℤ) (s : RunState)
      (t : Trace) (from : s.from_block ≡ some f) where
    scan_range_behind :
        ltb_ℤ safe_block f ≡ true
        → scan_range env el client i addresses safe_block s t ≡ (done s, t)
    unfolding scan_range
    scan_range_behind behind = simp (from, behind, scan_range)

    scan_range_inside :
        ltb_ℤ safe_block f ≡ false
        → let to = capped env el f safe_block in
          scan_range env el client i addresses safe_block s t
          ≡ (scan_blocks env el (rounds f to) client i addresses f to s >>= persist_progress env el)
              t
    unfolding scan_range
    scan_range_inside inside = simp (from, inside, scan_range)

  -- A range that is scanned and stored.
  pub scan_range_lem :
      IsOrderly env el
      → HasLimit
      → (client : Client) (i : ℕ) (a : Address) (rest : List Address) (safe_block f : ℤ)
        (s : RunState) (t : Trace)
      → Resumes s f
      → (k : ℕ) × (s' : RunState) × (t' : Trace) × (scan_range env el client i
            (a ∷ rest)
            safe_block
            s
            t
          ≡ (done s', t'))
        × Advances env.node f k s t s' t'
        × (k ≤ pos_part el.max_blocks_per_tick)
        × (k ≤ rounds f safe_block)
        × ((k ≡ rounds f (capped env el f safe_block)) ⊎ Fails env.node client (f +ℤ pos k))
  scan_range_lem orderly limit client i a rest safe_block f s t resumes =
      elim (Bool-cases (ltb_ℤ safe_block f)) [
        | inl behind ↦ (
          0,
          s,
          t,
          scan_range_behind client i (a ∷ rest) safe_block f s t resumes.0 behind,
          Stays-Advances env.node s s t t f (refl, refl, refl, refl) resumes,
          omega arith,
          omega arith,
          inl (range_behind limit f safe_block behind),
        )
        | inr inside ↦
            let to = capped env el f safe_block in
            let (k, ps, t1, run, all, stops) =
              scan_blocks_lem env el orderly client i a rest to (rounds f to) f s t (omega arith) in
            let (s', t', stored, advances) = persist_progress_lem s t t1 f k ps resumes all in
            (
              k,
              s',
              t',
              scan_range_inside client i (a ∷ rest) safe_block f s t resumes.0 inside
                  ∙ bind_done (scan_blocks env el (rounds f to) client i (a ∷ rest) f to s)
                      (persist_progress env el) t run
                  ∙ stored,
              advances,
              omega (
                arith,
                rounds-capped limit f safe_block,
                Stops-le env.node client i f k (rounds f to) s.providers ps stops,
              ),
              omega (
                arith,
                rounds-capped limit f safe_block,
                Stops-le env.node client i f k (rounds f to) s.providers ps stops,
              ),
              Stops-why env.node client i f k (rounds f to) s.providers ps stops,
            )
      ]
