-- ===== src/Listener/Crash.antt =====
-- What a run leaves in the table of sessions when it panics.
pub mod Run
use chain_ops.Common.{
  ℕ, zero, suc, ◌≡◌, refl, sym, ap, ◌∙◌, inl, inr, List, [], ◌∷◌, none, some, Bool, true, false,
  Bool-cases, Option-cases, arith,
}
use chain_ops.Common.Int.{ℤ, pos, ◌+ℤ◌, ◌-ℤ◌, ltb_ℤ}
use chain_ops.Chain.{Address, int64}
use chain_ops.World.{
  Action, Result, ok, err, Result-cases, Client, get_header, sql, insert_session, close_session,
  select_wallets, update_last_scanned, Trace, M, pure, ◌>>=◌,
}
use chain_ops.World.Frame.{is_sql, SeesSql, Keeps, Keeps-bind}
use chain_ops.Providers.{get_healthy_client}
use chain_ops.Db.{IndexedAddress, get_indexed_address_to_monitor, update_last_scanned_block}
use chain_ops.Listener.{
  EvmListener, RunState, Env, from_or, capped, rounds, scan_blocks, persist_progress, scan_range,
  skip_to, handle_wallets, tick_with, tick_providers, tick, ticks,
}
use chain_ops.Listener.Ready.{wallets_lem}
use chain_ops.Listener.Frame.{scan_blocks-Keeps, tick_providers-Keeps}

-- The statements that write to the table.
abbrev pub is_session : Action → Bool
is_session (sql (insert_session _ _)) = true
is_session (sql (close_session _ _)) = true
is_session _ = false

-- A view that looks at nothing but these.
abbrev pub SeesSessions {ℓ} : {S : Type ℓ} → (Trace → S) → Type ℓ
SeesSessions view = (a : Action) (t : Trace) → is_session a ≡ false → view (a ∷ t) ≡ view t

no_session : (a : Action) → is_sql a ≡ false → is_session a ≡ false
no_session a other = ground (arith, other)

module _ {ℓ} {S : Type ℓ} (view : Trace → S) (sees : SeesSessions view) (env : Env)
    (el : EvmListener) where
  sees_sql : SeesSql view
  sees_sql a t other = sees a t (no_session a other)

  persist_progress-Keeps : (s : RunState) → Keeps view (persist_progress env el s)
  unfolding persist_progress update_last_scanned_block
  persist_progress-Keeps s t = elim (Option-cases s.last_block) [
    | inl no_last ↦ simp (no_last, persist_progress)
    | inr (b, at) ↦
        simp (at, persist_progress)
          (sees (sql (update_last_scanned el.network_id (int64 b))) t refl)
  ]

  scan_range-Keeps :
      (client : Client) (i : ℕ) (addresses : List Address) (safe_block : ℤ) (s : RunState)
      → Keeps view (scan_range env el client i addresses safe_block s)
  unfolding scan_range
  scan_range-Keeps client i addresses safe_block s t =
      let from = from_or env el s.from_block safe_block in
      let to = capped env el from safe_block in
      elim (Bool-cases (ltb_ℤ safe_block from)) [
        | inl behind ↦ rw (behind, scan_range) refl
        | inr inside ↦
            rw (inside, scan_range)
              (Keeps-bind view (scan_blocks env el (rounds from to) client i addresses from to s)
                (persist_progress env el)
                (scan_blocks-Keeps view sees_sql env el client addresses (rounds from to) i from to
                  s)
                persist_progress-Keeps t)
      ]

  handle_wallets-Keeps :
      (client : Client) (i : ℕ) (safe_block : ℤ) (s : RunState) (r : Result (List IndexedAddress))
      → Keeps view (handle_wallets env el client i safe_block s r)
  unfolding handle_wallets skip_to update_last_scanned_block
  handle_wallets-Keeps client i safe_block s (err e) t = refl
  handle_wallets-Keeps client i safe_block s (ok []) t =
      sees (sql (update_last_scanned el.network_id (int64 safe_block))) t refl
  handle_wallets-Keeps client i safe_block s (ok (w ∷ ws)) t =
      scan_range-Keeps client i _ safe_block s t

  wallets-Keeps : Keeps view (get_indexed_address_to_monitor env.db el.network_id)
  wallets-Keeps t =
      let (r, run) = wallets_lem env el t in
      ap (λ x. view x.1) run ∙ sees (sql (select_wallets el.network_id)) t refl

  tick_with-Keeps :
      (client : Client) (i : ℕ) (s : RunState) → Keeps view (tick_with env el client i s)
  unfolding tick_with
  tick_with-Keeps client i s t =
      let asked = sees (get_header client) t refl in
      elim (Result-cases (env.node.header_by_number t client)) [
        | inr (e, failed) ↦ rw (failed, tick_with) asked
        | inl (number, header) ↦
            let handled = handle_wallets env el client i (pos number -ℤ el.safe_block_buffer) s in
            rw (header, tick_with)
              (Keeps-bind view (get_indexed_address_to_monitor env.db el.network_id) handled
                  wallets-Keeps
                  (handle_wallets-Keeps client i (pos number -ℤ el.safe_block_buffer) s)
                  (get_header client ∷ t)
                ∙ asked)
      ]

  tick-Keeps : (s : RunState) → Keeps view (tick env el s)
  unfolding tick
  tick-Keeps s =
      Keeps-bind view (tick_providers env el s)
        (λ s'. elim (get_healthy_client s'.providers) as (λ _. M RunState) [
          | none ↦ pure s'
          | some (client, i) ↦ tick_with env el client i s'
        ])
        (tick_providers-Keeps view sees_sql env el s)
        (λ s' t. elim (Option-cases (get_healthy_client s'.providers)) [
          | inl down ↦ rw down refl
          | inr (choice, up) ↦ rw up (tick_with-Keeps choice.0 choice.1 s' t)
        ])

  pub ticks-Keeps : (j : ℕ) (s : RunState) → Keeps view (ticks env el j s)
  unfolding ticks
  ticks-Keeps zero s = λ t. refl
  ticks-Keeps (suc j) s =
      Keeps-bind view (tick env el s) (ticks env el j) (tick-Keeps s) (ticks-Keeps j)
