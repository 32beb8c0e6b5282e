-- ===== src/Providers/Transient.antt =====
-- Which errors count against a provider: `isTransientProviderError`.
use chain_ops.Common.{
  ℕ, ◌<◌, refl, some, get_elem?, All, ◌≡◌, ◌⊎◌, inl, inr, List, [], ◌∷◌, true, arith, Bool-cases,
}
use chain_ops.Common.Text.{Text, codes, contains}
use chain_ops.Common.Text.Search.{Embeds, contains_sound, contains_complete}
use chain_ops.World.{Error, Client}
use chain_ops.Providers.{
  EvmProvider, http_status_errors, contains_any, is_transient_provider_error,
  handle_provider_failure, get_healthy_client,
}
use chain_ops.Providers.Health.{IsValid, IsDown, failover}

-- One of the codes stands somewhere in the text.
abbrev pub HasCode : Text → List Text → Type 0
HasCode msg [] = ⊥
HasCode msg (code ∷ rest) = Embeds msg code ⊎ HasCode msg rest

-- A passed deadline, an error of the network, or a message in which the digits of one of five HTTP
-- status codes stand.
pub data Counts (e : Error) : Type 0 where
  deadline : e.deadline_exceeded ≡ true → Counts e
  network : e.net_error ≡ true → Counts e
  too_many_requests : Embeds e.message (codes "429") → Counts e
  internal_error : Embeds e.message (codes "500") → Counts e
  bad_gateway : Embeds e.message (codes "502") → Counts e
  unavailable : Embeds e.message (codes "503") → Counts e
  gateway_timeout : Embeds e.message (codes "504") → Counts e

HasCode-Counts : (e : Error) → HasCode e.message http_status_errors → Counts e
HasCode-Counts e (inl here) = too_many_requests here
HasCode-Counts e (inr (inl here)) = internal_error here
HasCode-Counts e (inr (inr (inl here))) = bad_gateway here
HasCode-Counts e (inr (inr (inr (inl here)))) = unavailable here
HasCode-Counts e (inr (inr (inr (inr (inl here))))) = gateway_timeout here
HasCode-Counts e (inr (inr (inr (inr (inr impossible))))) = elim impossible [ ]

contains_any_sound : (msg : Text) (l : List Text) → contains_any msg l ≡ true → HasCode msg l
unfolding contains_any
contains_any_sound msg [] h = cc
contains_any_sound msg (code ∷ rest) h = elim (Bool-cases (contains msg code)) [
  | inl here ↦ inl (contains_sound msg code here)
  | inr not_here ↦ inr (contains_any_sound msg rest (rw not_here at h))
]

contains_any_complete : (msg : Text) (l : List Text) → HasCode msg l → contains_any msg l ≡ true
unfolding contains_any
contains_any_complete msg [] impossible = elim impossible [ ]
contains_any_complete msg (code ∷ rest) (inl here) = rw (contains_complete msg code here)
contains_any_complete msg (code ∷ rest) (inr later) = elim (Bool-cases (contains msg code)) [
  | inl here ↦ rw here
  | inr not_here ↦ rw not_here (contains_any_complete msg rest later)
]

is_transient_provider_error_sound : (e : Error) → is_transient_provider_error e ≡ true → Counts e
unfolding is_transient_provider_error
is_transient_provider_error_sound e h = elim (Bool-cases e.deadline_exceeded) [
  | inl late ↦ deadline late
  | inr on_time ↦ elim (Bool-cases e.net_error) [
    | inl broken ↦ network broken
    | inr whole ↦
        HasCode-Counts e
          (contains_any_sound e.message http_status_errors (rw (on_time, whole) at h))
  ]
]

HasCode-transient :
    (e : Error) → HasCode e.message http_status_errors → is_transient_provider_error e ≡ true
unfolding is_transient_provider_error
HasCode-transient e coded = ground (arith, contains_any_complete e.message http_status_errors coded)

is_transient_provider_error_complete : (e : Error) → Counts e → is_transient_provider_error e ≡ true
unfolding is_transient_provider_error
is_transient_provider_error_complete e (deadline late) = rw (late, is_transient_provider_error)
is_transient_provider_error_complete e (network broken) = ground (arith, broken)
is_transient_provider_error_complete e (too_many_requests here) = HasCode-transient e (inl here)
is_transient_provider_error_complete e (internal_error here) = HasCode-transient e (inr (inl here))
is_transient_provider_error_complete e (bad_gateway here) =
    HasCode-transient e (inr (inr (inl here)))
is_transient_provider_error_complete e (unavailable here) =
    HasCode-transient e (inr (inr (inr (inl here))))
is_transient_provider_error_complete e (gateway_timeout here) =
    HasCode-transient e (inr (inr (inr (inr (inl here)))))

-- What an error of the selected provider, the one with index i, does to the selection. One that
-- counts takes this provider down and moves the selection behind it; any other changes nothing.
pub data Effect (e : Error) (i : ℕ) (ps ps' : List EvmProvider) : Type 0 where
  moves_on :
      (p' : EvmProvider)
      → Counts e
      → get_elem? ps' i ≡ some p'
      → IsDown p'
      → ((c : Client) (k : ℕ) → get_healthy_client ps' ≡ some (c, k) → i < k)
      → Effect e i ps ps'
  stays : ¬ Counts e → ps' ≡ ps → Effect e i ps ps'

-- An error of the selected provider takes it down, and moves the selection to a later provider,
-- exactly when it is a passed deadline, an error of the network, or one whose message has the
-- digits of 429, 500, 502, 503 or 504 anywhere in it. After any other error all providers are as
-- they were.
pub handle_provider_failure_lem :
    (ps : List EvmProvider) (e : Error) {c : Client} {i : ℕ}
    → All IsValid ps
    → get_healthy_client ps ≡ some (c, i)
    → Effect e i ps (handle_provider_failure ps i e)
handle_provider_failure_lem ps e {c} {i} valid selected =
    let (ignored, counted) = failover ps e valid selected in
    elim (Bool-cases (is_transient_provider_error e)) [
      | inl counts ↦
          let ((p, at, down), _, _, later) = counted counts in
          moves_on _ (is_transient_provider_error_sound e counts) down refl later
      | inr other ↦
          stays (λ counts. cc (is_transient_provider_error_complete e counts)) (ignored other)
    ]
