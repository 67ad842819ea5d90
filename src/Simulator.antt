-- ===== src/Simulator.antt =====
-- kad_sim.cpp: a console that starts nodes on one machine, and one node more that joins and leaves.
-- Pointers to nodes are numbers, and `node_at` is what stands at one, `none` once it is deleted. The
-- network, while a node joins, is the function `wait` of the node and the round, and what another node
-- has become by then the function `meanwhile` of both nodes.
-- `sim` gets the numbers that `atoi` reads from its words; negative ones are not modelled. The commands
-- that draw the table of a node are not modelled.
pub mod Nodes
pub mod Commands
use mathlib.Core.Option
use kad.Common.{ℕ, zero, suc, ◌+◌, ◌-◌, Option, none, some, List, [], ◌∷◌, ◌++◌}
use kad.Common.{map, length, ◌==◌, if◌then◌else◌, Bytes, codes}
use kad.NodeId.{KadId}
use kad.Contact.{Contact, empty}
use kad.Routing.{root}
use kad.Routing.Query.{get_contacts}
use kad.Manager.{Manager, new_manager}
use kad.Manager.Network.{Joining, join}
use kad.Program.{decimal}

pub record SimNode {ℓ} (Addr : Type ℓ) : Type ℓ where
  pub manager : Manager Addr
  pub bind_addr : Addr

-- The nodes made so far have the pointers below `made`.
pub record Sim {ℓ} (Addr : Type ℓ) : Type ℓ where
  pub node_at : ℕ → Option (SimNode Addr)
  pub made : ℕ
  pub all_nodes : List ℕ
  pub mgr_node : Option ℕ
  pub sim_base_port : ℕ

-- What is outside of the program: `XSockAddr` of a text, `KadId::Random`, `RandRange(0, hi)` while the k-th
-- node is made, the draws of message numbers, and what happens while a node joins.
pub record Surroundings {ℓ} (Addr : Type ℓ) : Type ℓ where
  pub sock_addr : Bytes → Addr
  pub random_id : ℕ → KadId
  pub rand_range : ℕ → ℕ → ℕ
  pub random : ℕ → ℕ
  pub wait : ℕ → ℕ → Manager Addr → Manager Addr
  pub meanwhile : ℕ → ℕ → Manager Addr → Manager Addr

-- A command ends, waits in `Join` when the fuel is used up, or reads a node that is deleted.
pub data Simulated {ℓ} (A : Type ℓ) : Type ℓ where
  finished : A → Simulated A
  joining : Simulated A
  dangling : Simulated A

abbrev pub at_pointer {ℓ} : {A : Type ℓ} → ℕ → Option A → (ℕ → Option A) → ℕ → Option A
at_pointer p a memory q = if p == q then a else memory q

module _ {ℓ} {Addr : Type ℓ} where
  abbrev pub no_nodes : Sim Addr
  no_nodes = record {
    node_at = λ p. none;
    made = 0;
    all_nodes = [];
    mgr_node = none;
    sim_base_port = 3000;
  }

  -- The loop that takes the address of one node, by its place in the list.
  unfoldable pub pick : (ℕ → Option (SimNode Addr)) → ℕ → List ℕ → Option (List Addr)
  pick node_at bsp [] = some []
  pick node_at zero (p ∷ ps) = Option.map (λ (n : SimNode Addr). n.bind_addr ∷ []) (node_at p)
  pick node_at (suc bsp) (p ∷ ps) = pick node_at bsp ps

  -- `LeaveCli`: the node is deleted, and stays in `allNodes`.
  unfoldable pub leave_cli : Sim Addr → ℕ × Sim Addr
  leave_cli s = elim s.mgr_node [
    | none ↦ (1, s)
    | some p ↦ (0, record s { node_at = at_pointer p none s.node_at; mgr_node = none })
  ]

  -- `FindNodeCli`.
  abbrev pub find_node_cli : Sim Addr → ℕ
  find_node_cli s = elim s.mgr_node [ none ↦ 1 | some p ↦ 0 ]

  -- `SaveDot`: the pairs of ids that it draws.
  abbrev pub edges_of : SimNode Addr → List (KadId × KadId)
  edges_of n =
      map (λ (c : Contact Addr). (n.manager.local, c.id))
        (get_contacts n.manager.store n.manager.table)

  unfoldable pub save_dot : (ℕ → Option (SimNode Addr)) → List ℕ → Simulated (List (KadId × KadId))
  save_dot node_at [] = finished []
  save_dot node_at (p ∷ ps) =
      let rest = save_dot node_at ps in
      elim (node_at p) [
        | none ↦ dangling
        | some n ↦ elim rest [
          | finished edges ↦ finished (edges_of n ++ edges)
          | joining ↦ joining
          | dangling ↦ dangling
        ]
      ]

  -- `new KadOpMgr(KadId::Random(), addr)`, after `Join`, and at the end of `allNodes`.
  abbrev pub moved :
      (ℕ → Manager Addr → Manager Addr) → (ℕ → Option (SimNode Addr)) → ℕ → Option (SimNode Addr)
  moved meanwhile node_at p =
      Option.map (λ (n : SimNode Addr). record n { manager = meanwhile p n.manager }) (node_at p)

  abbrev pub append_node :
      (ℕ → Manager Addr → Manager Addr) → Addr → Sim Addr → Manager Addr → Sim Addr
  append_node meanwhile addr s m = record s {
    node_at =
        at_pointer s.made (some (record { manager = m; bind_addr = addr }))
          (moved meanwhile s.node_at);
    made = suc s.made;
    all_nodes = s.all_nodes ++ s.made ∷ [];
  }

  module _ (env : Surroundings Addr) (fuel : ℕ) where
    open env use {sock_addr, random_id, rand_range, random, wait, meanwhile}

    unfoldable pub start_node : Addr → List Addr → Sim Addr → Simulated (Sim Addr)
    start_node addr bsp s =
        elim (join (wait s.made) bsp random fuel (new_manager (random_id s.made) root empty)) [
          | none ↦ joining
          | some j ↦ finished (append_node (meanwhile s.made) addr s j.manager)
        ]

    -- One round of the loop of `SimulateCli`.
    abbrev pub bsp_of : Sim Addr → Option (List Addr)
    bsp_of s =
        if length s.all_nodes == 0
        then some []
        else pick s.node_at (rand_range s.made (length s.all_nodes - 1)) s.all_nodes

    abbrev pub local_addr : ℕ → Addr
    local_addr port = sock_addr (codes "127.0.0.1:" ++ decimal 9 port)

    unfoldable pub sim_round : Sim Addr → Simulated (Sim Addr)
    sim_round s = elim (bsp_of s) [
      | none ↦ dangling
      | some bsp ↦
          start_node (local_addr s.sim_base_port) bsp
            (record s { sim_base_port = suc s.sim_base_port })
    ]

    unfoldable pub sim_rounds : ℕ → Sim Addr → Simulated (Sim Addr)
    sim_rounds zero s = finished s
    sim_rounds (suc qty) s = elim (sim_round s) [
      | finished s' ↦ sim_rounds qty s'
      | joining ↦ joining
      | dangling ↦ dangling
    ]

    -- `SimulateCli` and `JoinCli`, on the words after the command's name: what they return, and the nodes.
    abbrev pub with_code : Simulated (Sim Addr) → Simulated (ℕ × Sim Addr)
    with_code (finished s) = finished (0, s)
    with_code joining = joining
    with_code dangling = dangling

    unfoldable pub simulate_cli : List ℕ → Sim Addr → Simulated (ℕ × Sim Addr)
    simulate_cli [] s = finished (1, s)
    simulate_cli (qty ∷ []) s = with_code (sim_rounds qty s)
    simulate_cli (qty ∷ port ∷ args) s =
        with_code (sim_rounds qty (record s { sim_base_port = port }))

    abbrev pub remember : ℕ → Simulated (Sim Addr) → Simulated (Sim Addr)
    remember p (finished s) = finished (record s { mgr_node = some p })
    remember p joining = joining
    remember p dangling = dangling

    abbrev pub join_unless : Option ℕ → List Bytes → Sim Addr → Simulated (ℕ × Sim Addr)
    join_unless (some p) words s = finished (1, s)
    join_unless none [] s = finished (1, s)
    join_unless none (addr ∷ words) s =
        with_code
          (remember s.made (start_node (sock_addr (codes "0.0.0.0")) (sock_addr addr ∷ []) s))

    unfoldable pub join_cli : List Bytes → Sim Addr → Simulated (ℕ × Sim Addr)
    join_cli words s = join_unless s.mgr_node words s
