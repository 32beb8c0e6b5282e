-- ===== src/Tests/Providing.antt =====
-- Three providers, the first of which is down, and a node on chain 1 that does not know one URL.
use chain_ops.Common.{
  ℕ, ◌<◌, ◌≡◌, ◌≢◌, refl, ◌⊎◌, inl, inr, List, [], ◌∷◌, none, some, true, false, get_elem?, take,
  All, if◌then◌else◌,
}
use chain_ops.Common.Int.{pos}
use chain_ops.Common.Text.{codes, text_eq, contains}
use chain_ops.World.{Error, ok, err, Client, Node, Trace, done}
use chain_ops.Providers.{
  healthy, unhealthy, EvmProvider, Connected, is_transient_provider_error, handle_provider_failure,
  get_healthy_client, recover_unhealthy_providers, connect_evm,
}
use chain_ops.Providers.Transient.{Effect, handle_provider_failure_lem}
use chain_ops.Providers.Health.{IsValid, IsUp, IsDown, get_healthy_client_lem, failover}
use chain_ops.Providers.Recovery.{AllRecover, probes, recover_unhealthy_providers_lem}
use chain_ops.Providers.Connect.{Sound, connect_evm-Sound}

abbrev up : ℕ → EvmProvider
up n = record { url = n ∷ []; client = n; failure_count = pos 0; chain_id = 1; status = healthy }

abbrev down : ℕ → EvmProvider
down n = record {
  url = n ∷ [];
  client = n;
  failure_count = pos 1;
  chain_id = 1;
  status = unhealthy;
}

abbrev three : List EvmProvider
three = down 1 ∷ up 2 ∷ up 3 ∷ []

get_healthy_client_lem_example :
    ((get_healthy_client three ≡ none) × All IsDown three)
    ⊎ ((i : ℕ) × (p : EvmProvider) × (get_healthy_client three ≡ some (p.client, i))
        × (get_elem? three i ≡ some p)
        × IsUp p
        × All IsDown (take i three))
get_healthy_client_lem_example = get_healthy_client_lem three

second_selected : get_healthy_client three ≡ some (2, 1)
unfolding get_healthy_client
second_selected = refl

abbrev bad_gateway : Error
bad_gateway = record {
  deadline_exceeded = false;
  net_error = false;
  message = codes "502 Bad Gateway";
}

bad_gateway_counts : is_transient_provider_error bad_gateway ≡ true
unfolding is_transient_provider_error contains
bad_gateway_counts = refl

failover_example :
    let ps' = handle_provider_failure three 1 bad_gateway in
    (is_transient_provider_error bad_gateway ≡ false → ps' ≡ three)
    × (is_transient_provider_error bad_gateway ≡ true
        → ((p : EvmProvider) × (get_elem? three 1 ≡ some p)
            × (get_elem? ps' 1 ≡ some (record p { failure_count = pos 1; status = unhealthy })))
          × ((j : ℕ) → 1 ≢ j → get_elem? ps' j ≡ get_elem? three j)
          × All IsValid ps'
          × ((c' : Client) (k : ℕ) → get_healthy_client ps' ≡ some (c', k) → 1 < k))
failover_example =
    failover three bad_gateway (inr (refl, refl), (inl (refl, refl), (inl (refl, refl), tt)))
      second_selected

abbrev node : Node
node = record {
  dial_context = λ _ url. if text_eq url (codes "bad") then err bad_gateway else ok 5;
  chain_id = λ _ _. ok 1;
  block_number = λ _ _. ok 100;
  header_by_number = λ _ _. ok 100;
  block_by_number = λ _ _ _. err bad_gateway;
  filter_logs = λ _ _ _. ok [];
  transaction_receipt = λ _ _ _. err bad_gateway;
}

recover_unhealthy_providers_lem_example :
    (ps' : List EvmProvider) × (recover_unhealthy_providers node three []
      ≡ (done ps', probes three []))
    × AllRecover node [] three ps'
recover_unhealthy_providers_lem_example = recover_unhealthy_providers_lem node three []

connect_evm-Sound_example :
    (r : Connected) × (t' : Trace) × (connect_evm node (codes "a" ∷ codes "b" ∷ []) []
      ≡ (done r, t'))
    × Sound (codes "a" ∷ codes "b" ∷ []) r
connect_evm-Sound_example = connect_evm-Sound node (codes "a" ∷ codes "b" ∷ []) []

handle_provider_failure_lem_example :
    Effect bad_gateway 1 three (handle_provider_failure three 1 bad_gateway)
handle_provider_failure_lem_example =
    handle_provider_failure_lem three bad_gateway
      (inr (refl, refl), (inl (refl, refl), (inl (refl, refl), tt))) second_selected
