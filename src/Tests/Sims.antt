-- ===== src/Tests/Sims.antt =====
-- Two nodes of kad_sim.cpp, and one more that joins and leaves.
use kad.Common.{ℕ, ◌≡◌, refl, arith, none, [], ◌∷◌, length}
use kad.Simulator.{
  Surroundings, Sim, no_nodes, finished, dangling, join_cli, leave_cli, save_dot, at_pointer,
}
use kad.Simulator.Nodes.{IsSim}
use kad.Simulator.Commands.{join-leave}
use kad.Tests.Data.{local, local-IsId}
use kad.Tests.Network.{draw, wait, found, wait-IsManager}

-- Every node gets the id 9, and hears of contact 5 in each round.
abbrev env : Surroundings ℕ
env = record {
  sock_addr = λ text. length text;
  random_id = λ k. local;
  rand_range = λ k hi. hi;
  random = draw;
  wait = λ k. wait;
  meanwhile = λ k p m. m;
}

no_nodes-IsSim : IsSim (no_nodes {Addr = ℕ})
no_nodes-IsSim = record { made_before = tt; alive = tt; managers = λ p n h. absurd (cc h) }

join-leave_example :
    (s' : Sim ℕ) × (join_cli env 1 ((70 ∷ []) ∷ []) no_nodes ≡ finished (0, s'))
    × IsSim s'
    × (leave_cli s' ≡ (0, record s' { node_at = at_pointer 0 none s'.node_at; mgr_node = none }))
    × (save_dot (leave_cli s').1.node_at (leave_cli s').1.all_nodes ≡ dangling)
join-leave_example =
    join-leave env 1 (omega arith) (λ k. local-IsId) (λ k. found) (λ k. wait-IsManager)
      (λ k p m v. v) (70 ∷ []) [] no_nodes no_nodes-IsSim refl
