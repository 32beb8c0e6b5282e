-- ===== src/Listener/Scan.antt =====
-- The loop over block numbers: which blocks it gets, where it stops, and what it leaves behind.
use mathlib.Core.Path.{ap₂}
use chain_ops.Common.{
  subst, ℕ, zero, suc, ◌+◌, ◌≤◌, ◌<◌, ◌≡◌, refl, ap, ◌∙◌, sym, ◌⊎◌, inl, inr, List, [], ◌∷◌, ◌++◌,
  Option, some, true, false, arith, Bool-cases,
}
use chain_ops.Common.Int.{ℤ, pos, ◌+ℤ◌, leb_ℤ, leb_ℤ→le, leb_ℤ→gt, int_laws}
use chain_ops.Chain.{Address, Block}
use chain_ops.World.{Node, Error, ok, err, Result-cases, Client, get_block, Trace, done, bind_done}
use chain_ops.Providers.{EvmProvider, handle_provider_failure}
use chain_ops.Listener.{EvmListener, RunState, Env, process_block, scan_blocks, rounds}
use chain_ops.Listener.Quiet.{fetched, IsOrderly, process_block-Finishes}

-- The k block numbers from a first one on, the latest first.
abbrev pub countdown : ℤ → ℕ → List ℤ
countdown first zero = []
countdown first (suc k) = (first +ℤ pos k) ∷ countdown first k

-- The last of them, or what was there before if there are none.
abbrev pub last_of : ℤ → ℕ → Option ℤ → Option ℤ
last_of first zero before = before
last_of first (suc k) before = some (first +ℤ pos k)

+ℤ_suc : (a : ℤ) (k : ℕ) → (a +ℤ pos 1) +ℤ pos k ≡ a +ℤ pos (suc k)
+ℤ_suc a k = omega int_laws

pub +ℤ_zero : (a : ℤ) → a +ℤ pos 0 ≡ a
+ℤ_zero a = omega int_laws

countdown_next :
    (first : ℤ) (k : ℕ) (l : List ℤ)
    → countdown (first +ℤ pos 1) k ++ (first ∷ l) ≡ countdown first (suc k) ++ l
countdown_next first zero l = ap (λ x. x ∷ l) (sym (+ℤ_zero first))
countdown_next first (suc k) l = ap₂ ◌∷◌ (+ℤ_suc first k) (countdown_next first k l)

last_of_next :
    (first : ℤ) (k : ℕ) (before : Option ℤ)
    → last_of (first +ℤ pos 1) k (some first) ≡ last_of first (suc k) before
last_of_next first zero before = ap some (sym (+ℤ_zero first))
last_of_next first (suc k) before = ap some (+ℤ_suc first k)

pub +ℤ_assoc : (f : ℤ) (j k : ℕ) → (f +ℤ pos j) +ℤ pos k ≡ f +ℤ pos (k + j)
+ℤ_assoc f j k = omega int_laws

zero_plus : (j : ℕ) → j ≡ 0 + j
zero_plus j = omega arith

suc_plus : (k j : ℕ) → suc (k + j) ≡ suc k + j
suc_plus k j = omega arith

-- A run of blocks behind another one.
pub countdown-countdown :
    (f : ℤ) (j k : ℕ) (l : List ℤ)
    → countdown (f +ℤ pos j) k ++ (countdown f j ++ l) ≡ countdown f (k + j) ++ l
countdown-countdown f j zero l = ap (λ n. countdown f n ++ l) (zero_plus j)
countdown-countdown f j (suc k) l =
    ap₂ ◌∷◌ (+ℤ_assoc f j k) (countdown-countdown f j k l)
    ∙ ap (λ n. countdown f n ++ l) (suc_plus k j)

pub last_of-last_of :
    (f : ℤ) (j k : ℕ) (before : Option ℤ)
    → last_of (f +ℤ pos j) k (last_of f j before) ≡ last_of f (k + j) before
last_of-last_of f j zero before = ap (λ n. last_of f n before) (zero_plus j)
last_of-last_of f j (suc k) before =
    ap some (+ℤ_assoc f j k) ∙ ap (λ n. last_of f n before) (suc_plus k j)

rounds_behind : (a b : ℤ) → leb_ℤ a b ≡ false → rounds a b ≡ 0
rounds_behind a b h = grind (int_laws, leb_ℤ→gt)

rounds_inside : (a b : ℤ) → leb_ℤ a b ≡ true → rounds a b ≡ suc (rounds (a +ℤ pos 1) b)
rounds_inside a b h = grind (int_laws, leb_ℤ→le)

-- What a scan that got k blocks leaves of the state.
abbrev pub scanned : RunState → ℤ → ℕ → List EvmProvider → RunState
scanned s first k ps = record s { last_block = last_of first k s.last_block; providers = ps }

-- A scan that got k of the blocks ends behind the last of them, or at the next block, which the
-- node did not give: its error counts as a failure of the provider.
abbrev pub Stops : Node → Client → ℕ → ℤ → ℕ → ℕ → List EvmProvider → List EvmProvider → Type 0
Stops n client i first k all ps ps' =
    ((k ≡ all) × (ps' ≡ ps))
    ⊎ ((k < all)
        × (e : Error) × (t : Trace) × (n.block_by_number t client (first +ℤ pos k) ≡ err e)
        × (ps' ≡ handle_provider_failure ps i e))

Stops-next :
    (n : Node) (client : Client) (i : ℕ) (first : ℤ) (k all all' : ℕ) (ps ps' : List EvmProvider)
    → all ≡ suc all'
    → Stops n client i (first +ℤ pos 1) k all' ps ps'
    → Stops n client i first (suc k) all ps ps'
Stops-next n client i first k all all' ps ps' h (inl (k_all, same)) = inl (omega arith, same)
Stops-next n client i first k all all' ps ps' h (inr (k_all, e, t, failed, same)) = inr (
  omega arith,
  e,
  t,
  subst (λ b. n.block_by_number t client b ≡ err e) (+ℤ_suc first k) failed,
  same,
)

module _ (env : Env) (el : EvmListener) where
  module _ (client : Client) (i : ℕ) (addresses : List Address) (first safe_block : ℤ) (fuel : ℕ)
      (s : RunState) (t : Trace) where
    scan_blocks_behind :
        leb_ℤ first safe_block ≡ false
        → scan_blocks env el (suc fuel) client i addresses first safe_block s t ≡ (done s, t)
    unfolding scan_blocks
    scan_blocks_behind h = rw (h, scan_blocks)

    scan_blocks_failed :
        (e : Error)
        → leb_ℤ first safe_block ≡ true
        → env.node.block_by_number t client first ≡ err e
        → scan_blocks env el (suc fuel) client i addresses first safe_block s t ≡ (
          done (scanned s first 0 (handle_provider_failure s.providers i e)),
          get_block client first ∷ t,
        )
    unfolding scan_blocks
    scan_blocks_failed e h failed = rw (h, failed, scan_blocks)

    scan_blocks_got :
        (block : Block) (t' : Trace)
        → leb_ℤ first safe_block ≡ true
        → env.node.block_by_number t client first ≡ ok block
        → process_block env el client addresses block (get_block client first ∷ t) ≡ (done tt, t')
        → scan_blocks env el (suc fuel) client i addresses first safe_block s t
          ≡ scan_blocks env el fuel client i addresses
              (first +ℤ pos 1)
              safe_block
              (record s { last_block = some first })
              t'
    unfolding scan_blocks
    scan_blocks_got block t' h got run =
        rw (h, got, scan_blocks)
          (bind_done (process_block env el client addresses block)
            (λ _.
              scan_blocks env el fuel client i addresses (first +ℤ pos 1) safe_block
                (record s { last_block = some first }))
            (get_block client first ∷ t) run)

  -- On fuel for its rounds or more, with orderly data and an address to monitor, the loop returns.
  -- It gets the first k blocks of its range, in order and each once; the last of them is the last
  -- block of the state. It stops at the end of the range, or at the next block, which the node
  -- does not give, and whose error goes to the provider.
  pub scan_blocks_lem :
      IsOrderly env el
      → (client : Client) (i : ℕ) (a : Address) (rest : List Address) (safe_block : ℤ) (fuel : ℕ)
        (first : ℤ) (s : RunState) (t : Trace)
      → rounds first safe_block ≤ fuel
      → (k : ℕ) × (ps : List EvmProvider) × (t' : Trace) × (scan_blocks env el fuel client i
            (a ∷ rest)
            first
            safe_block
            s
            t
          ≡ (done (scanned s first k ps), t'))
        × (fetched env.node t' ≡ countdown first k ++ fetched env.node t)
        × Stops env.node client i first k (rounds first safe_block) s.providers ps
  unfolding scan_blocks
  scan_blocks_lem orderly client i a rest safe_block zero first s t enough =
      (0, s.providers, t, refl, refl, inl (omega arith, refl))
  scan_blocks_lem orderly client i a rest safe_block (suc fuel) first s t enough =
      elim (Bool-cases (leb_ℤ first safe_block)) [
        | inr behind ↦ (
          0,
          s.providers,
          t,
          scan_blocks_behind client i (a ∷ rest) first safe_block fuel s t behind,
          refl,
          inl (sym (rounds_behind first safe_block behind), refl),
        )
        | inl inside ↦ elim (Result-cases (env.node.block_by_number t client first)) [
          | inr (e, failed) ↦ (
            0,
            handle_provider_failure s.providers i e,
            get_block client first ∷ t,
            scan_blocks_failed client i (a ∷ rest) first safe_block fuel s t e inside failed,
            rw (failed, fetched),
            inr (
              rw (rounds_inside first safe_block inside) (omega arith),
              e,
              t,
              rw (+ℤ_zero first) failed,
              refl,
            ),
          )
          | inl (block, got) ↦
              let (_, t1, handled, quiet) =
                process_block-Finishes env el orderly client a rest block
                  (get_block client first ∷ t) (orderly.1 t client first block got) in
              let (k, ps, t', run, all, stops) =
                scan_blocks_lem orderly client i a rest safe_block fuel (first +ℤ pos 1)
                  (record s { last_block = some first }) t1
                  (omega (arith, rounds_inside first safe_block inside)) in
              (
                suc k,
                ps,
                t',
                scan_blocks_got client i (a ∷ rest) first safe_block fuel s t block t1 inside got
                      handled
                    ∙ run
                    ∙ ap (λ l. (done (record s { last_block = l; providers = ps }), t'))
                        (last_of_next first k s.last_block),
                all
                    ∙ ap (λ l. countdown (first +ℤ pos 1) k ++ l) (quiet ∙ rw (got, fetched))
                    ∙ countdown_next first k (fetched env.node t),
                Stops-next env.node client i first k (rounds first safe_block)
                    (rounds (first +ℤ pos 1) safe_block) s.providers ps
                    (rounds_inside first safe_block inside) stops,
              )
        ]
      ]
