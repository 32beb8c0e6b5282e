-- ===== src/Providers/Health.antt =====
-- Which provider is selected, what a failure does to it, and how it recovers.
use mathlib.Core.Option.{some-injective, none-ne-some}
use chain_ops.Common.{
  ℕ, zero, suc, ◌+◌, ◌<◌, ◌≡◌, refl, sym, ◌≢◌, ◌⊎◌, inl, inr, List, [], ◌∷◌, none, some, true,
  false, arith, All, get_elem?, take, ltb, ltb→lt, ltb→ge, All-take_get, subst, ap, ◌∙◌, Bool-cases,
}
use chain_ops.Common.Int.{pos, ◌+ℤ◌}
use chain_ops.Chain.{int64}
use chain_ops.World.{Error, Client}
use chain_ops.Providers.{
  healthy, unhealthy, EvmProvider, record_failure, is_transient_provider_error,
  handle_provider_failure, healthy_from, get_healthy_client,
}

-- A provider is healthy with no failure counted, or unhealthy with one.
abbrev pub IsValid : EvmProvider → Type 0
IsValid e =
    ((e.status ≡ healthy) × (e.failure_count ≡ pos 0))
    ⊎ ((e.status ≡ unhealthy) × (e.failure_count ≡ pos 1))

abbrev pub IsDown : EvmProvider → Type 0
IsDown e = e.status ≡ unhealthy

pub status_cases : (e : EvmProvider) → (e.status ≡ healthy) ⊎ (e.status ≡ unhealthy)
status_cases e = ground arith

abbrev pub IsUp : EvmProvider → Type 0
IsUp e = e.status ≡ healthy

-- The selection from the providers, the first of which has index i.
healthy_from_lem :
    (i : ℕ) (ps : List EvmProvider)
    → ((healthy_from i ps ≡ none) × All IsDown ps)
      ⊎ ((j : ℕ) × (p : EvmProvider) × (healthy_from i ps ≡ some (p.client, i + j))
          × (get_elem? ps j ≡ some p)
          × IsUp p
          × All IsDown (take j ps))
unfolding healthy_from
healthy_from_lem i [] = inl (refl, tt)
healthy_from_lem i (p ∷ ps) = elim (status_cases p) [
  | inl up ↦ inr (0, p, rw up (ap (λ k. some (p.client, k)) (omega arith)), refl, up, tt)
  | inr down ↦ elim (healthy_from_lem (suc i) ps) [
    | inl (nothing, all_down) ↦ inl (rw down nothing, (down, all_down))
    | inr (j, q, found, at, up, before) ↦ inr (
      suc j,
      q,
      rw down (found ∙ ap (λ k. some (q.client, k)) (omega arith)),
      at,
      up,
      (down, before),
    )
  ]
]

record_failure_first :
    (e : EvmProvider)
    → e.status ≡ healthy
    → IsValid e
    → record_failure e ≡ record e { failure_count = pos 1; status = unhealthy }
unfolding record_failure int64 ◌+ℤ◌
record_failure_first e up v = ground arith

-- `getHealthyClient` returns the client of the first healthy provider, with that provider, and
-- returns nothing exactly when every provider is unhealthy.
pub get_healthy_client_lem :
    (ps : List EvmProvider)
    → ((get_healthy_client ps ≡ none) × All IsDown ps)
      ⊎ ((i : ℕ) × (p : EvmProvider) × (get_healthy_client ps ≡ some (p.client, i))
          × (get_elem? ps i ≡ some p)
          × IsUp p
          × All IsDown (take i ps))
unfolding get_healthy_client
get_healthy_client_lem ps = elim (healthy_from_lem 0 ps) [
  | inl nothing ↦ inl nothing
  | inr (j, p, found, at, up, before) ↦
      inr (j, p, found ∙ ap (λ k. some (p.client, k)) (omega arith), at, up, before)
]

-- A failure that does not count leaves the providers alone.
handle_provider_failure_ignored :
    (ps : List EvmProvider) (i : ℕ) (e : Error)
    → is_transient_provider_error e ≡ false
    → handle_provider_failure ps i e ≡ ps
unfolding handle_provider_failure
handle_provider_failure_ignored [] i e h = refl
handle_provider_failure_ignored (p ∷ ps) zero e h = rw h
handle_provider_failure_ignored (p ∷ ps) (suc i) e h = rw (handle_provider_failure_ignored ps i e h)

-- One that counts takes a healthy provider down, and touches no other.
module _ (e : Error) (counts : is_transient_provider_error e ≡ true) where
  handle_provider_failure_at :
      (ps : List EvmProvider) (i : ℕ) (p : EvmProvider)
      → get_elem? ps i ≡ some p
      → IsUp p
      → All IsValid ps
      → (get_elem? (handle_provider_failure ps i e) i
          ≡ some (record p { failure_count = pos 1; status = unhealthy }))
        × All IsValid (handle_provider_failure ps i e)
  unfolding handle_provider_failure
  handle_provider_failure_at [] i p at up v = cc
  handle_provider_failure_at (q ∷ ps) zero p at up (vq, vs) =
      let same : q ≡ p = some-injective _ _ at in
      rw (counts, record_failure_first q (rw same up) vq) (rw same (refl, (inr (refl, refl), vs)))
  handle_provider_failure_at (q ∷ ps) (suc i) p at up (vq, vs) =
      let ih = handle_provider_failure_at ps i p at up vs in (ih.0, (vq, ih.1))

  handle_provider_failure_ne :
      (ps : List EvmProvider) (i j : ℕ)
      → i ≢ j
      → get_elem? (handle_provider_failure ps i e) j ≡ get_elem? ps j
  unfolding handle_provider_failure
  handle_provider_failure_ne [] i j ne = refl
  handle_provider_failure_ne (q ∷ ps) zero zero ne = absurd (ne refl)
  handle_provider_failure_ne (q ∷ ps) zero (suc j) ne = refl
  handle_provider_failure_ne (q ∷ ps) (suc i) zero ne = refl
  handle_provider_failure_ne (q ∷ ps) (suc i) (suc j) ne =
      handle_provider_failure_ne ps i j (λ h. ne (ap suc h))

selected_inversion :
    (ps : List EvmProvider) {c : Client} {i : ℕ}
    → get_healthy_client ps ≡ some (c, i)
    → (p : EvmProvider) × (get_elem? ps i ≡ some p)
      × IsUp p
      × (c ≡ p.client)
      × All IsDown (take i ps)
selected_inversion ps {c} {i} selected = elim (get_healthy_client_lem ps) [
  | inl (nothing, _) ↦ absurd (none-ne-some _ (sym nothing ∙ selected))
  | inr (j, p, found, at, up, before) ↦
      let same = some-injective _ _ (sym found ∙ selected) in
      let here : j ≡ i = ap (λ x. x.1) same in
      (p, rw here at at, up, sym (ap (λ x. x.0) same), rw here at before)
]

-- Where all before i were down and i has gone down too, a provider that is up stands behind i.
later_index :
    (ps ps' : List EvmProvider) (i k : ℕ) {d q : EvmProvider}
    → All IsDown (take i ps)
    → ((j : ℕ) → i ≢ j → get_elem? ps' j ≡ get_elem? ps j)
    → get_elem? ps' i ≡ some d
    → IsDown d
    → get_elem? ps' k ≡ some q
    → IsUp q
    → i < k
later_index ps ps' i k {d} {q} before others at_i down at_k up = elim (Bool-cases (ltb i k)) [
  | inl later ↦ ltb→lt i k later
  | inr not_later ↦ elim (Bool-cases (ltb k i)) [
    | inl earlier ↦
        let lt = ltb→lt k i earlier in
        let same = others k (omega arith) in
        let q_down : IsDown q = All-take_get IsDown i k ps before lt (sym same ∙ at_k) in cc
    | inr not_earlier ↦
        let here : k ≡ i = omega (arith, ltb→ge _ _ not_later, ltb→ge _ _ not_earlier) in
        let same : d ≡ q = some-injective _ _ (sym at_i ∙ rw here at at_k) in
        let q_down : IsDown q = subst IsDown same down in cc
  ]
]

-- A failure of the selected provider that counts moves the selection on: the provider is down with
-- one failure counted, every other one is as it was, all are still valid, and the next selection
-- has a later index. A failure that does not count changes nothing.
pub failover :
    (ps : List EvmProvider) (e : Error) {c : Client} {i : ℕ}
    → All IsValid ps
    → get_healthy_client ps ≡ some (c, i)
    → let ps' = handle_provider_failure ps i e in
      (is_transient_provider_error e ≡ false → ps' ≡ ps)
      × (is_transient_provider_error e ≡ true
          → ((p : EvmProvider) × (get_elem? ps i ≡ some p)
              × (get_elem? ps' i ≡ some (record p { failure_count = pos 1; status = unhealthy })))
            × ((j : ℕ) → i ≢ j → get_elem? ps' j ≡ get_elem? ps j)
            × All IsValid ps'
            × ((c' : Client) (k : ℕ) → get_healthy_client ps' ≡ some (c', k) → i < k))
failover ps e {c} {i} valid selected = (
  handle_provider_failure_ignored ps i e,
  λ counts.
      let ps' = handle_provider_failure ps i e in
      let (p, at, up, _, before) = selected_inversion ps selected in
      let (down, valid') = handle_provider_failure_at e counts ps i p at up valid in
      (
        (p, at, down),
        handle_provider_failure_ne e counts ps i,
        valid',
        λ c' k next.
            let (q, at', up', _, _) = selected_inversion ps' next in
            later_index ps ps' i k before (handle_provider_failure_ne e counts ps i) down refl at'
              up',
      ),
)
