-- ===== src/Routing/Remove.antt =====
-- `RemoveNode` on a whole table.
use kad.Common.{ℕ, ◌+◌, ◌-◌, ◌*◌, ◌<◌, ◌≡◌, refl}
use kad.Common.{Bool, true, false}
use kad.Common.{Bool-cases, inl, inr}
use kad.Config.{id_bits, id_size}
use kad.NodeId.{KadId, xor, get_bit}
use kad.NodeId.Value.{IsId}
use kad.NodeId.Metric.{xor_comm}
use kad.Routing.{Node, bucket, space}
use kad.Routing.Query.{find_node, remove_node, remove}
use kad.Routing.Place.{Under, IsPlace, Under-child}
use kad.Routing.Invariant.{IsTable}
use kad.Routing.Lookup.{bucket_of}
use kad.Routing.Insert.{Under-root}
use kad.Routing.Cut.{Removes, remove_in-Removes}

module _ {ℓ} {Addr : Type ℓ} (local : KadId) (l : IsId id_size local) where
  -- What was done to a child, seen from its parent.
  module _ (d i : ℕ) (id : KadId) (m0 m1 m : Node Addr) (done : Bool) (small : d < id_bits - 1)
      (place : IsPlace d i) (t0 : IsTable local (d + 1) (i * 2) m0)
      (t1 : IsTable local (d + 1) (i * 2 + 1) m1) where
    high-Removes :
        get_bit (xor local id) d ≡ true
        → Removes local (d + 1) (i * 2 + 1) id m1 m done
        → Removes local d i id (space d i m0 m1) (space d i m0 m) done
    unfolding find_node
    high-Removes one a = record {
      table = (refl, refl, small, place, t0, a.table);
      gone = rw (one, find_node) a.gone;
      told = rw (one, find_node, bucket_of) a.told;
      others = λ j ne w. elim (Bool-cases (get_bit (xor local j) d)) [
        | inl t ↦
            rw (t, find_node) (a.others j ne (rw t at (Under-child local d i j l place.deep w)))
        | inr f ↦ rw (f, find_node) refl
      ];
    }

    low-Removes :
        get_bit (xor local id) d ≡ false
        → Removes local (d + 1) (i * 2) id m0 m done
        → Removes local d i id (space d i m0 m1) (space d i m m1) done
    unfolding find_node
    low-Removes nil a = record {
      table = (refl, refl, small, place, a.table, t1);
      gone = rw (nil, find_node) a.gone;
      told = rw (nil, find_node, bucket_of) a.told;
      others = λ j ne w. elim (Bool-cases (get_bit (xor local j) d)) [
        | inl t ↦ rw (t, find_node) refl
        | inr f ↦
            rw (f, find_node) (a.others j ne (rw f at (Under-child local d i j l place.deep w)))
      ];
    }

  remove_node-Removes :
      (d i : ℕ) (id : KadId) (node : Node Addr)
      → IsTable local d i node
      → Under local d i id
      → Removes local d i id node
          (remove_node id (xor local id) node).0
          (remove_node id (xor local id) node).1
  unfolding remove_node
  remove_node-Removes d i id (bucket e j b) (ed, ji, v) u =
      rw (ed, ji) (remove_in-Removes local d i id b v u)
  remove_node-Removes d i id (space e j m0 m1) (ed, ji, small, place, t0, t1) u =
      rw (ed, ji)
        (elim (Bool-cases (get_bit (xor local id) d)) [
          | inl one ↦
              rw (one, remove_node)
                (high-Removes d i id m0 m1 _ _ small place t0 t1 one (
                  remove_node-Removes (d + 1) (i * 2 + 1) id m1 t1
                    (rw one at (Under-child local d i id l place.deep u))))
          | inr nil ↦
              rw (nil, remove_node)
                (low-Removes d i id m0 m1 _ _ small place t0 t1 nil (
                  remove_node-Removes (d + 1) (i * 2) id m0 t0
                    (rw nil at (Under-child local d i id l place.deep u))))
        ])

  -- `RemoveNode(id)` keeps the invariant; afterwards the id is not found; it returns true just if a
  -- contact of the id was found or stood in the cache; every other id is found as before.
  pub remove-Removes :
      (id : KadId) (node : Node Addr)
      → IsTable local 0 0 node
      → IsId id_size id
      → Removes local 0 0 id node (remove local id node).0 (remove local id node).1
  unfolding remove
  remove-Removes id node t v =
      rw (xor_comm id local) (remove_node-Removes 0 0 id node t (Under-root local id l v))
