-- ===== src/Simulator/Commands.antt =====
-- The commands of kad_sim.cpp: the nodes that `sim` starts, and the one that `l` deletes.
use kad.Program.{decimal}
use kad.Common.{
  ℕ, zero, suc, ◌≤◌, ◌≡◌, ◌≢◌, refl, ap, ◌∙◌, arith, ◌++◌, Option, none, some, List, [], ◌∷◌,
}
use kad.Common.{codes, Bytes}
use kad.Config.{id_size}
use kad.NodeId.Value.{IsId}
use kad.Contact.{empty}
use kad.Routing.{root}
use kad.Routing.Query.{count_contacts}
use kad.Manager.{Manager, new_manager}
use kad.Manager.Invariant.{IsManager}
use kad.Manager.Steps.{initial-IsManager}
use kad.Manager.Network.{Joining, join}
use kad.Manager.Join.{first_delay}
use kad.Manager.Joined.{join_lem}
use kad.Simulator.{
  Surroundings, Sim, Simulated, finished, dangling, start_node, append_node, join_cli, leave_cli,
  save_dot, at_pointer, join_unless, with_code, remember,
}
use kad.Simulator.Nodes.{IsSim, append_node-IsSim, save_dot-dangling, at_pointer_self}

-- The port from which `sim` counts.
abbrev pub first_port : List ℕ → ℕ → ℕ
first_port [] port = port
first_port (p ∷ args) port = p

module _ {ℓ} {Addr : Type ℓ} where
  -- The addresses on the ports from one on.
  abbrev pub ports_from : (Bytes → Addr) → ℕ → ℕ → List (Option Addr)
  ports_from sock_addr zero port = []
  ports_from sock_addr (suc qty) port =
      some (sock_addr (codes "127.0.0.1:" ++ decimal 9 port)) ∷ ports_from sock_addr qty (suc port)

  module _ (env : Surroundings Addr) (fuel : ℕ) (enough : 1 ≤ fuel)
      (ids : (k : ℕ) → IsId id_size (env.random_id k))
      (found : (k : ℕ)
        → count_contacts (env.wait k 0 (new_manager (env.random_id k) root empty)).table ≢ 0)
      (keeps : (k r : ℕ) (m : Manager Addr) → IsManager m → IsManager (env.wait k r m))
      (others : (k p : ℕ) (m : Manager Addr) → IsManager m → IsManager (env.meanwhile k p m)) where
    open env use {sock_addr, random_id, rand_range, random, wait, meanwhile}

    joins :
        (k : ℕ) (bsp : List Addr)
        → (j : Joining Addr) × (join (wait k) bsp random fuel (new_manager (random_id k) root empty)
            ≡ some j)
          × IsManager j.manager
    unfolding join count_contacts
    joins k [] = (
      record {
        manager = new_manager (random_id k) root empty;
        pings = [];
        slept = 0;
        delay = first_delay;
      },
      refl,
      initial-IsManager random (random_id k) (ids k),
    )
    joins k (b ∷ bsp) =
        let (j, e, _, v, _, _) =
          join_lem (wait k) (b ∷ bsp) random 1 fuel (new_manager (random_id k) root empty)
            (λ z. absurd (omega (arith, z))) enough (refl, tt) (found k)
            (initial-IsManager random (random_id k) (ids k)) (keeps k) in
        (j, e, v)

    start_node_lem :
        (addr : Addr) (bsp : List Addr) (s : Sim Addr)
        → IsSim s
        → (m : Manager Addr) × (start_node env fuel addr bsp s
            ≡ finished (append_node (meanwhile s.made) addr s m))
          × IsSim (append_node (meanwhile s.made) addr s m)
    unfolding start_node
    start_node_lem addr bsp s i =
        let (j, e, v) = joins s.made bsp in
        (
          j.manager,
          rw (e, start_node) refl,
          append_node-IsSim (meanwhile s.made) (others s.made) addr s j.manager v i,
        )

    -- Let ids have 20 bytes, at least one round of `Join` be allowed, its first round bring a
    -- contact, and managers keep their invariant through what happens outside. If every node of
    -- `allNodes` is there, all nodes keep the invariant of a manager, and there is no node of `j`:
    -- `j` with an address returns 0 and leaves all this as it is said of the nodes, `l` then
    -- returns 0 and deletes the node that `j` made, and `SaveDot` after it reads a deleted node.
    pub join-leave :
        (addr : Bytes) (words : List Bytes) (s : Sim Addr)
        → IsSim s
        → s.mgr_node ≡ none
        → (s' : Sim Addr) × (join_cli env fuel (addr ∷ words) s ≡ finished (0, s'))
          × IsSim s'
          × (leave_cli s'
              ≡ (0, record s' { node_at = at_pointer s.made none s'.node_at; mgr_node = none }))
          × (save_dot (leave_cli s').1.node_at (leave_cli s').1.all_nodes ≡ dangling)
    unfolding join_cli leave_cli
    join-leave addr words s i nobody =
        let (m, e, i') = start_node_lem (sock_addr (codes "0.0.0.0")) (sock_addr addr ∷ []) s i in
        let s1 = append_node (meanwhile s.made) (sock_addr (codes "0.0.0.0")) s m in
        let s' : Sim Addr = record s1 { mgr_node = some s.made } in
        (
          s',
          ap (λ (o : Option ℕ). join_unless env fuel o (addr ∷ words) s) nobody
              ∙ ap (λ (r : Simulated (Sim Addr)). with_code env fuel (remember env fuel s.made r))
                  e,
          record { made_before = i'.made_before; alive = i'.alive; managers = i'.managers },
          refl,
          save_dot-dangling (at_pointer s.made none s1.node_at) s.all_nodes s.made
              (at_pointer_self s.made none s1.node_at),
        )
