-- ===== src/Providers/Connect.antt =====
-- What `ConnectEVM` guarantees of the list that it returns, and of its errors.
use mathlib.Core.List.{cons-ne-nil}
use chain_ops.Common.{
  ℕ, ◌≡◌, ◌≢◌, refl, sym, inl, inr, List, [], ◌∷◌, ◌++◌, append-nil, Option, none, some, true,
  false, arith, All, All-append, ap, map, Bool-cases,
}
use chain_ops.Common.Int.{pos}
use chain_ops.Common.Text.{Text}
use chain_ops.World.{Result-cases, Client, Node, Trace, dial, get_chain_id, done}
use chain_ops.Providers.{
  healthy, EvmProvider, Connected, connected, refused, chain_id_mismatch, no_urls, dial_failed,
  chain_id_failed, expected_or, matches_expected, connect_from, connect_evm,
}

-- A provider as it is returned: on the chain, healthy, with no failure counted.
pub record IsReady (id : ℕ) (p : EvmProvider) : Type 0 where
  pub on_chain : p.chain_id ≡ id
  pub is_up : p.status ≡ healthy
  pub no_failures : p.failure_count ≡ pos 0

abbrev pub urls_of : List EvmProvider → List Text
urls_of = map (λ p. p.url)

-- What a result says of the URLs it was computed from.
abbrev pub Sound : List Text → Connected → Type 0
Sound urls (connected list) =
    (urls ≢ []) × (urls_of list ≡ urls) × ((id : ℕ) × All (IsReady id) list)
Sound urls (refused no_urls) = urls ≡ []
Sound urls (refused (dial_failed _)) = urls ≢ []
Sound urls (refused (chain_id_failed _)) = urls ≢ []
Sound urls (refused (chain_id_mismatch url got expected)) = (urls ≢ []) × (got ≢ expected)

-- The providers so far are on the expected chain; there is none before an ID is expected.
abbrev pub SoFar : Option ℕ → List EvmProvider → Type 0
SoFar none list = list ≡ []
SoFar (some id) list = All (IsReady id) list

-- A chain ID that the test accepts is that of all providers so far.
SoFar-accepted :
    (expected : Option ℕ) (list : List EvmProvider) (id : ℕ)
    → SoFar expected list
    → matches_expected expected id ≡ true
    → (expected_or expected id ≡ id) × All (IsReady id) list
SoFar-accepted none list id so_far ok_id = (refl, rw so_far tt)
SoFar-accepted (some expected) list id so_far ok_id =
    let same : expected ≡ id = ground arith in (same, rw (← same) so_far)

matches_expected-false :
    (expected : Option ℕ) (id : ℕ)
    → matches_expected expected id ≡ false
    → id ≢ expected_or expected id
matches_expected-false none id h = cc
matches_expected-false (some expected) id h = ground arith

-- The provider that a round appends.
abbrev fresh : Text → Client → ℕ → EvmProvider
fresh url client id = record {
  url = url;
  client = client;
  failure_count = pos 0;
  chain_id = id;
  status = healthy;
}

fresh-IsReady : (url : Text) (client : Client) (id : ℕ) → IsReady id (fresh url client id)
fresh-IsReady url client id = record { on_chain = refl; is_up = refl; no_failures = refl }

urls_of-fresh :
    (list : List EvmProvider) (url : Text) (client : Client) (id : ℕ) (urls : List Text)
    → urls_of (list ++ fresh url client id ∷ []) ++ urls ≡ urls_of list ++ url ∷ urls
urls_of-fresh [] url client id urls = refl
urls_of-fresh (p ∷ list) url client id urls =
    ap (λ rest. p.url ∷ rest) (urls_of-fresh list url client id urls)

module _ (n : Node) where
  connect_from-Sound :
      (expected : Option ℕ) (list : List EvmProvider) (urls : List Text) (t : Trace)
      → urls_of list ++ urls ≢ []
      → SoFar expected list
      → (r : Connected) × (t' : Trace) × (connect_from n expected list urls t ≡ (done r, t'))
        × Sound (urls_of list ++ urls) r
  unfolding connect_from
  connect_from-Sound none list [] t ne so_far = absurd (ne (rw so_far))
  connect_from-Sound (some id) list [] t ne so_far =
      (connected list, t, refl, (ne, sym (append-nil _), (id, so_far)))
  connect_from-Sound expected list (url ∷ urls) t ne so_far =
      elim (Result-cases (n.dial_context t url)) [
        | inr (e, failed) ↦ (refused (dial_failed e), dial url ∷ t, rw failed, ne)
        | inl (client, dialled) ↦ elim (Result-cases (n.chain_id (dial url ∷ t) client)) [
          | inr (e, failed) ↦ (
            refused (chain_id_failed e),
            get_chain_id client ∷ dial url ∷ t,
            rw (dialled, failed),
            ne,
          )
          | inl (id, answered) ↦ elim (Bool-cases (matches_expected expected id)) [
            | inr mismatch ↦ (
              refused (chain_id_mismatch url id (expected_or expected id)),
              get_chain_id client ∷ dial url ∷ t,
              rw (dialled, answered, mismatch),
              (ne, matches_expected-false expected id mismatch),
            )
            | inl accepted ↦
                let p = fresh url client id in
                let ready = SoFar-accepted expected list id so_far accepted in
                let all_ready : All (IsReady (expected_or expected id)) (list ++ p ∷ []) =
                  rw ready.0 (
                    All-append (IsReady id) list (p ∷ []) ready.1
                      (fresh-IsReady url client id, tt)) in
                let seen : urls_of (list ++ p ∷ []) ++ urls ≡ urls_of list ++ url ∷ urls =
                  urls_of-fresh list url client id urls in
                let (r, t', run, sound) =
                  connect_from-Sound (some (expected_or expected id)) (list ++ p ∷ []) urls
                    (get_chain_id client ∷ dial url ∷ t) (rw seen ne) all_ready in
                (r, t', rw (dialled, answered, accepted) run, rw seen at sound)
          ]
        ]
      ]

  -- `ConnectEVM` always returns. A list that it returns has one provider for each URL, in order,
  -- and at least one; all are on one chain, healthy, with no failure counted. It reports missing
  -- URLs exactly when there are none, and a chain ID mismatch only between different IDs.
  pub connect_evm-Sound :
      (urls : List Text) (t : Trace)
      → (r : Connected) × (t' : Trace) × (connect_evm n urls t ≡ (done r, t')) × Sound urls r
  unfolding connect_evm
  connect_evm-Sound [] t = (refused no_urls, t, refl, refl)
  connect_evm-Sound (url ∷ urls) t =
      connect_from-Sound none [] (url ∷ urls) t (cons-ne-nil url urls) refl
