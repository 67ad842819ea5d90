-- ===== src/Manager/Sorted.antt =====
-- In every state that a node of src/KadOpMgr.h reaches, the lists of its lookups are in order.
use kad.Common.{ℕ, ◌≤◌, ◌≡◌, sym, subst, some}
use kad.Common.{length, All}
use kad.Config.{id_size, bucket_size}
use kad.NodeId.{KadId}
use kad.NodeId.Value.{IsId}
use kad.Lookup.{FindOp}
use kad.Lookup.Ordered.{IsSorted}
use kad.Manager.{Manager, nth}
use kad.Manager.Steps.{Reachable}
use kad.Manager.Kept.{Kept, Reachable-Kept}
use kad.Manager.Listed.{
  Ordered, AllOrdered, All-nth, find_key-AllOrdered, handle_response-AllOrdered,
  handle_timeout-AllOrdered,
}

module _ {ℓ} {Addr : Type ℓ} where
  module _ (random : ℕ → ℕ) where
    Kept-AllOrdered : Kept {Addr = Addr} random AllOrdered
    Kept-AllOrdered = record {
      at_same = λ m m' s h. subst (All Ordered) (sym s.lookups) h;
      at_find = find_key-AllOrdered random;
      at_response = handle_response-AllOrdered random;
      at_timeout = handle_timeout-AllOrdered random;
    }

    -- In every state that a node with an id of 20 bytes can reach, the list of a lookup, of a key
    -- of 20 bytes, has each contact closer to the key than all that come after it, at most 16
    -- contacts, and ids of 20 bytes.
    pub Reachable-IsSorted :
        (local : KadId) (m : Manager Addr) (k : ℕ) (op : FindOp Addr)
        → IsId id_size local
        → Reachable random local m
        → nth m.lookups k ≡ some op
        → IsId id_size op.key
        → IsSorted op.key op.list
          × (length op.list ≤ bucket_size)
          × All (λ c. IsId id_size c.id) op.list
    Reachable-IsSorted local m k op l r q key =
        let v =
          All-nth Ordered m.lookups k op
            (Reachable-Kept random AllOrdered Kept-AllOrdered local m l tt r) q key in
        (v.sorted, v.fits, v.valid)
