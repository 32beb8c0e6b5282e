-- ===== src/Providers.antt =====
-- services/listener/providers and the provider handling of
-- services/listener/service/evm_listener.go. The providers are pointers into one list, so a
-- provider is named by its index and a method writes the element. `failureCount` is an int of 64
-- bits.
pub mod Health
pub mod Recovery
pub mod Connect
pub mod Transient
use chain_ops.Common.{
  ℕ, zero, suc, List, [], ◌∷◌, ◌++◌, Option, none, some, Bool, true, false, ◌||◌, ◌==◌, length, set,
  get_elem?, if◌then◌else◌,
}
use chain_ops.Common.Int.{ℤ, pos, ◌+ℤ◌, ltb_ℤ}
use chain_ops.Common.Text.{Text, codes, contains}
use chain_ops.Chain.{int64}
use chain_ops.World.{
  Error, Result, ok, err, Client, Node, Action, dial, get_chain_id, get_block_number, M, done,
  panic, pure, call, ◌>>=◌,
}

pub data ProviderStatus : Type 0 where
  healthy unhealthy : ProviderStatus

pub record EvmProvider : Type 0 where
  pub url : Text
  pub client : Client
  pub failure_count : ℤ
  pub chain_id : ℕ
  pub status : ProviderStatus

abbrev pub is_unhealthy : ProviderStatus → Bool
is_unhealthy healthy = false
is_unhealthy unhealthy = true

abbrev pub is_healthy : EvmProvider → Bool
is_healthy e = if is_unhealthy e.status then false else true

unfoldable pub record_failure : EvmProvider → EvmProvider
record_failure e =
    let counted = record e { failure_count = int64 (e.failure_count +ℤ pos 1) } in
    if ltb_ℤ (pos 0) counted.failure_count then record counted { status = unhealthy } else counted

-- httpStatusErrors
abbrev pub http_status_errors : List Text
http_status_errors = codes "429" ∷ codes "500" ∷ codes "502" ∷ codes "503" ∷ codes "504" ∷ []

contains_any : Text → List Text → Bool
contains_any msg [] = false
contains_any msg (code ∷ rest) = contains msg code || contains_any msg rest

unfoldable pub is_transient_provider_error : Error → Bool
unfolding contains_any
is_transient_provider_error e =
    e.deadline_exceeded || e.net_error || contains_any e.message http_status_errors

-- `handleProviderFailure` on the provider with the given index.
unfoldable pub handle_provider_failure : List EvmProvider → ℕ → Error → List EvmProvider
handle_provider_failure [] i e = []
handle_provider_failure (p ∷ ps) zero e =
    (if is_transient_provider_error e then record_failure p else p) ∷ ps
handle_provider_failure (p ∷ ps) (suc i) e = p ∷ handle_provider_failure ps i e

-- The client and the provider that `getHealthyClient` returns, or nothing for `ok == false`.
healthy_from : ℕ → List EvmProvider → Option (Client × ℕ)
healthy_from i [] = none
healthy_from i (p ∷ ps) = if is_healthy p then some (p.client, i) else healthy_from (suc i) ps

unfoldable pub get_healthy_client : List EvmProvider → Option (Client × ℕ)
unfolding healthy_from
get_healthy_client ps = healthy_from 0 ps

-- The errors of `ConnectEVM`.
pub data ConnectError : Type 0 where
  no_urls : ConnectError
  dial_failed chain_id_failed : Error → ConnectError
  chain_id_mismatch : Text → ℕ → ℕ → ConnectError

pub data Connected : Type 0 where
  connected : List EvmProvider → Connected
  refused : ConnectError → Connected

-- `expectedChainID == nil`, or the same number.
abbrev pub matches_expected : Option ℕ → ℕ → Bool
matches_expected none id = true
matches_expected (some expected) id = id == expected

abbrev pub expected_or : Option ℕ → ℕ → ℕ
expected_or none id = id
expected_or (some expected) id = expected

module _ (n : Node) where
  unfoldable pub recover : EvmProvider → M EvmProvider
  recover e = do
    answer ← call (get_block_number e.client) (λ t. n.block_number t e.client)
    elim answer [
      | err _ ↦ pure e
      | ok _ ↦ pure (record e { failure_count = pos 0; status = healthy })
    ]

  unfoldable pub recover_unhealthy_providers : List EvmProvider → M (List EvmProvider)
  recover_unhealthy_providers [] = pure []
  recover_unhealthy_providers (p ∷ ps) = do
    p' ← (if is_healthy p then pure p else recover p)
    ps' ← recover_unhealthy_providers ps
    pure (p' ∷ ps')

  -- The loop of `ConnectEVM`, with `expectedChainID` and the providers so far.
  unfoldable pub connect_from : Option ℕ → List EvmProvider → List Text → M Connected
  connect_from expected list [] = pure (connected list)
  connect_from expected list (url ∷ urls) = do
    dialled ← call (dial url) (λ t. n.dial_context t url)
    elim dialled [
      | err e ↦ pure (refused (dial_failed e))
      | ok client ↦ do
        answer ← call (get_chain_id client) (λ t. n.chain_id t client)
        elim answer [
          | err e ↦ pure (refused (chain_id_failed e))
          | ok id ↦
              let provider : EvmProvider = record {
                url = url;
                client = client;
                failure_count = pos 0;
                chain_id = id;
                status = healthy;
              } in
              let rest =
                connect_from (some (expected_or expected id)) (list ++ provider ∷ []) urls in
              if matches_expected expected id
              then rest
              else pure (refused (chain_id_mismatch url id (expected_or expected id)))
        ]
    ]

  unfoldable pub connect_evm : List Text → M Connected
  connect_evm [] = pure (refused no_urls)
  connect_evm (url ∷ urls) = connect_from none [] (url ∷ urls)
