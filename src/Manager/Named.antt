-- ===== src/Manager/Named.antt =====
-- `Find` and `Join` of src/KadOpMgr.h leave the node its id.
use kad.Common.{ℕ, zero, suc, ◌≡◌, refl, ◌∙◌, List, [], length, ◌==◌}
use kad.Common.{Bool-cases, Option-cases, inl, inr}
use kad.NodeId.{KadId}
use kad.Lookup.{new_find, start}
use kad.Lookup.Asked.{sent_to, send-some}
use kad.Lookup.Listed.{OnSome}
use kad.Routing.Query.{count_contacts}
use kad.Manager.{Manager, find_key}
use kad.Manager.Flying.{post-Posts}
use kad.Manager.Join.{first_delay}
use kad.Manager.Network.{Joining, join, join_loop, join_round, look_up_self}

module _ {ℓ} {Addr : Type ℓ} where
  -- The node has the same id after it.
  abbrev pub SameId : Manager Addr → Manager Addr → Type 0
  SameId m m' = m'.local ≡ m.local

  find_key-SameId :
      (random : ℕ → ℕ) (key : KadId) (m : Manager Addr) → OnSome (SameId m) (find_key random key m)
  unfolding find_key start
  find_key-SameId random key m =
      let op = new_find m.local m.store m.table key in
      rw (send-some m.store 2 op)
        ((post-Posts random (length m.lookups) (sent_to m.store 2 op) _).local)

  module _ (wait : ℕ → Manager Addr → Manager Addr) (bsp : List Addr)
      (keeps : (r : ℕ) (m : Manager Addr) → SameId m (wait r m)) where
    join_loop-SameId :
        (fuel r : ℕ) (j : Joining Addr)
        → OnSome (λ (j' : Joining Addr). SameId j.manager j'.manager) (join_loop wait bsp fuel r j)
    unfolding join_loop
    join_loop-SameId zero r j = elim (Bool-cases (count_contacts j.manager.table == 0)) [
      | inl alone ↦ rw alone tt
      | inr found ↦ rw found refl
    ]
    join_loop-SameId (suc fuel) r j = elim (Bool-cases (count_contacts j.manager.table == 0)) [
      | inr found ↦ rw found refl
      | inl alone ↦
          let good = join_loop-SameId fuel (suc r) (join_round wait bsp r j) in
          elim (Option-cases (join_loop wait bsp fuel (suc r) (join_round wait bsp r j))) [
            | inl e ↦ rw (alone, e) tt
            | inr (j', e) ↦ rw (alone, e) ((rw e at good) ∙ keeps r j.manager)
          ]
    ]

    look_up_self-SameId :
        (random : ℕ → ℕ) (j : Joining Addr)
        → OnSome
            (λ (j' : Joining Addr). SameId j.manager j'.manager)
            (look_up_self wait bsp random j)
    look_up_self-SameId random j =
        let good = find_key-SameId random j.manager.local j.manager in
        elim (Option-cases (find_key random j.manager.local j.manager)) [
          | inl e ↦ rw e tt
          | inr (m', e) ↦ rw e (rw e at good)
        ]

    pub join-SameId :
        (random : ℕ → ℕ) (fuel : ℕ) (m : Manager Addr)
        → OnSome (λ (j : Joining Addr). SameId m j.manager) (join wait bsp random fuel m)
    unfolding join
    join-SameId random fuel m = elim (Bool-cases (length bsp == 0)) [
      | inl no_address ↦ rw no_address refl
      | inr addresses ↦
          let j : Joining Addr = record {
            manager = m;
            pings = [];
            slept = 0;
            delay = first_delay;
          } in
          let good = join_loop-SameId fuel 0 j in
          elim (Option-cases (join_loop wait bsp fuel 0 j)) [
            | inl e ↦ rw (addresses, e) tt
            | inr (j', e) ↦
                let found = look_up_self-SameId random j' in
                elim (Option-cases (look_up_self wait bsp random j')) [
                  | inl e' ↦ rw (addresses, e) (rw e' tt)
                  | inr (j'', e') ↦ rw (addresses, e) (rw e' ((rw e' at found) ∙ (rw e at good)))
                ]
          ]
    ]
