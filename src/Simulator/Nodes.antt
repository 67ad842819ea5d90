-- ===== src/Simulator/Nodes.antt =====
-- The pointers to nodes of kad_sim.cpp, and the invariant of its nodes.
use mathlib.Core.Option
use kad.Common.{map}
use kad.Common.{
  ℕ, zero, suc, ◌<◌, ◌≡◌, ◌≢◌, refl, ap, ◌∙◌, arith, false, Option, none, some, List, [], ◌∷◌, ◌++◌,
}
use kad.Common.{
  subst, All-zip, ◌==◌, ==_iff, All, All-append, All-imp, Bool-cases, Option-cases, inl, inr,
}
use kad.Manager.{Manager}
use kad.Manager.Invariant.{IsManager}
use kad.Simulator.{Sim, SimNode, dangling, pick, append_node, save_dot, at_pointer, moved}

some_eq {κ} : {A : Type κ} {a b : A} → ◌≡◌ {A = Option A} (some a) (some b) → a ≡ b
some_eq h = cc

module _ {ℓ} {Addr : Type ℓ} where
  -- There is a node at a pointer.
  abbrev pub Alive : (ℕ → Option (SimNode Addr)) → ℕ → Type ℓ
  Alive node_at p = (n : SimNode Addr) × (node_at p ≡ some n)

  -- Every node of `allNodes` was made and is there, and all nodes keep the invariant of a manager.
  pub record IsSim (s : Sim Addr) : Type ℓ where
    pub made_before : All (λ p. p < s.made) s.all_nodes
    pub alive : All (Alive s.node_at) s.all_nodes
    pub managers : (p : ℕ) (n : SimNode Addr) → s.node_at p ≡ some n → IsManager n.manager

  pub pick-Alive :
      (node_at : ℕ → Option (SimNode Addr)) (bsp : ℕ) (ps : List ℕ)
      → All (Alive node_at) ps
      → (addrs : List Addr) × (pick node_at bsp ps ≡ some addrs)
  unfolding pick
  pick-Alive node_at zero [] a = ([], refl)
  pick-Alive node_at (suc bsp) [] a = ([], refl)
  pick-Alive node_at zero (p ∷ ps) a = let (n, e) = a.0 in (n.bind_addr ∷ [], rw e refl)
  pick-Alive node_at (suc bsp) (p ∷ ps) a = pick-Alive node_at bsp ps a.1

  -- The addresses of the nodes at pointers.
  abbrev pub addresses : (ℕ → Option (SimNode Addr)) → List ℕ → List (Option Addr)
  addresses node_at ps =
      map (λ (p : ℕ). Option.map (λ (n : SimNode Addr). n.bind_addr) (node_at p)) ps

  addresses-append :
      (node_at : ℕ → Option (SimNode Addr)) (ps : List ℕ) (p : ℕ)
      → addresses node_at (ps ++ p ∷ []) ≡ addresses node_at ps ++ addresses node_at (p ∷ [])
  addresses-append node_at [] p = refl
  addresses-append node_at (q ∷ ps) p =
      ap
        (λ (t : List (Option Addr)). Option.map (λ (n : SimNode Addr). n.bind_addr) (node_at q) ∷ t)
        (addresses-append node_at ps p)

  module _ (p : ℕ) (a : Option (SimNode Addr)) (memory : ℕ → Option (SimNode Addr)) where
    pub at_pointer_self : at_pointer p a memory p ≡ a
    at_pointer_self = rw ((==_iff p p).1 refl) refl

    at_pointer_ne : (q : ℕ) → p ≢ q → at_pointer p a memory q ≡ memory q
    at_pointer_ne q ne =
        let differ : (p == q) ≡ false = ground (arith, ==_iff p q) in rw differ refl

  module _ (meanwhile : ℕ → Manager Addr → Manager Addr)
      (others : (p : ℕ) (m : Manager Addr) → IsManager m → IsManager (meanwhile p m)) where
    moved-IsManager :
        (node_at : ℕ → Option (SimNode Addr)) (p : ℕ) (n : SimNode Addr)
        → ((n' : SimNode Addr) → node_at p ≡ some n' → IsManager n'.manager)
        → moved meanwhile node_at p ≡ some n
        → IsManager n.manager
    moved-IsManager node_at p n v h = elim (Option-cases (node_at p)) [
      | inl e ↦ absurd (cc (rw e at h))
      | inr (n', e) ↦
          subst (λ (x : SimNode Addr). IsManager x.manager) (some_eq (rw e at h))
            (others p n'.manager (v n' e))
    ]

    append_node-Alive :
        (s : Sim Addr) (addr : Addr) (m : Manager Addr) (p : ℕ)
        → p < s.made
        → Alive s.node_at p
        → Alive (append_node meanwhile addr s m).node_at p
    append_node-Alive s addr m p h a =
        let (n, e) = a in
        (
          record n { manager = meanwhile p n.manager },
          at_pointer_ne s.made _ (moved meanwhile s.node_at) p
                (λ same. absurd (omega (arith, same)))
              ∙ rw e refl,
        )

    address_kept :
        (s : Sim Addr) (addr : Addr) (m : Manager Addr) (p : ℕ)
        → p < s.made
        → Option.map
            (λ (n : SimNode Addr). n.bind_addr)
            ((append_node meanwhile addr s m).node_at p)
          ≡ Option.map (λ (n : SimNode Addr). n.bind_addr) (s.node_at p)
    address_kept s addr m p h =
        let old =
          at_pointer_ne s.made (some (record { manager = m; bind_addr = addr }))
            (moved meanwhile s.node_at) p (λ same. absurd (omega (arith, same))) in
        elim (Option-cases (s.node_at p)) [
          | inl e ↦ rw (old, e) refl
          | inr (n, e) ↦ rw (old, e) refl
        ]

    addresses_kept :
        (s : Sim Addr) (addr : Addr) (m : Manager Addr) (ps : List ℕ)
        → All (λ p. p < s.made) ps
        → addresses (append_node meanwhile addr s m).node_at ps ≡ addresses s.node_at ps
    addresses_kept s addr m [] h = refl
    addresses_kept s addr m (p ∷ ps) h =
        rw (address_kept s addr m p h.0, addresses_kept s addr m ps h.1) refl

    -- A new node is bound to its address, and the others are bound as before.
    pub addresses-append_node :
        (addr : Addr) (s : Sim Addr) (m : Manager Addr)
        → IsSim s
        → addresses
            (append_node meanwhile addr s m).node_at
            (append_node meanwhile addr s m).all_nodes
          ≡ addresses s.node_at s.all_nodes ++ some addr ∷ []
    addresses-append_node addr s m i =
        let s' = append_node meanwhile addr s m in
        let new' : addresses s'.node_at (s.made ∷ []) ≡ some addr ∷ [] =
          rw
            (at_pointer_self s.made (some (record { manager = m; bind_addr = addr }))
              (moved meanwhile s.node_at))
            refl in
        addresses-append s'.node_at s.all_nodes s.made
        ∙ ap (λ (t : List (Option Addr)). t ++ addresses s'.node_at (s.made ∷ []))
            (addresses_kept s addr m s.all_nodes i.made_before)
        ∙ ap (λ (t : List (Option Addr)). addresses s.node_at s.all_nodes ++ t) new'

    pub append_node-IsSim :
        (addr : Addr) (s : Sim Addr) (m : Manager Addr)
        → IsManager m
        → IsSim s
        → IsSim (append_node meanwhile addr s m)
    append_node-IsSim addr s m v i = record {
      made_before =
          All-append (λ p. p < suc s.made) s.all_nodes (s.made ∷ [])
            (All-imp (λ p h. omega (arith, h)) s.all_nodes i.made_before) (omega arith, tt);
      alive =
          All-append (Alive (append_node meanwhile addr s m).node_at) s.all_nodes (s.made ∷ [])
            (All-zip (append_node-Alive s addr m) s.all_nodes i.made_before i.alive)
            ((_, at_pointer_self s.made _ (moved meanwhile s.node_at)), tt);
      managers = λ p n h. elim (Bool-cases (s.made == p)) [
        | inl same ↦ subst (λ (x : SimNode Addr). IsManager x.manager) (some_eq (rw same at h)) v
        | inr other ↦ moved-IsManager s.node_at p n (i.managers p) (rw other at h)
      ];
    }

  pub save_dot-dangling :
      (node_at : ℕ → Option (SimNode Addr)) (ps : List ℕ) (p : ℕ)
      → node_at p ≡ none
      → save_dot node_at (ps ++ p ∷ []) ≡ dangling
  unfolding save_dot
  save_dot-dangling node_at [] p gone = rw gone refl
  save_dot-dangling node_at (q ∷ ps) p gone = elim (Option-cases (node_at q)) [
    | inl e ↦ rw e refl
    | inr (n, e) ↦ rw (e, save_dot-dangling node_at ps p gone) refl
  ]
