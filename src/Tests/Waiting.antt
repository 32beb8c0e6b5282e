-- ===== src/Tests/Waiting.antt =====
-- The listener of `Tests.Listening` on a node that gives no header at first.
use chain_ops.Common.{ℕ, ◌*◌, ◌≤◌, ◌≡◌, ◌⊎◌, refl, inr, [], ◌∷◌, ◌++◌, length, ltb, if◌then◌else◌}
use chain_ops.Common.Int.{ℤ}
use chain_ops.World.{ok, err, Node, Trace, done}
use chain_ops.Providers.{get_healthy_client}
use chain_ops.Listener.{Env, run}
use chain_ops.Listener.Quiet.{fetched}
use chain_ops.Listener.Scan.{countdown}
use chain_ops.Listener.Late.{IsSafe}
use chain_ops.Listener.Late.Run.{run_begins}
use chain_ops.Tests.Collecting.{no_answer}
use chain_ops.Tests.Listening.{
  node, env, provider, listener, env-IsOrderly, listener-HasLimit, env-HasWallets,
}

abbrev slow_node : Node
slow_node = record node {
  header_by_number = λ t _. if ltb (length t) 3 then err no_answer else ok 100;
}

abbrev slow : Env
slow = record env { node = slow_node }

run_begins_example :
    (t' : Trace) × (run slow listener 3 (provider ∷ []) [] ≡ (done tt, t'))
    × ((fetched slow_node t' ≡ [])
        ⊎ ((f : ℤ) × (k : ℕ) × IsSafe slow listener f
            × (fetched slow_node t' ≡ countdown f k ++ [])
            × (k ≤ 3 * 5)))
unfolding get_healthy_client
run_begins_example =
    run_begins slow listener (env-IsOrderly listener) listener-HasLimit (env-HasWallets listener) 3
      provider [] [] (inr (0, 0, no_answer, refl, refl))
