-- ===== src/Routing/Table.antt =====
-- `AddNode` and `RemoveNode` as the users of the table see them: what they do to the invariant, and to
-- what `FindNode` finds.
use kad.Common.{length, Option, inl, inr, ◌≡◌, ◌≢◌, ◌⊎◌, sym, ap, ◌∙◌, some, none}
use kad.Config.{id_size, bucket_size}
use kad.NodeId.{KadId, xor}
use kad.NodeId.Value.{IsId}
use kad.NodeId.Metric.{xor_comm}
use kad.Contact.{Contact, Store}
use kad.Routing.{Bucket, Node, Added, add}
use kad.Routing.Query.{find, find_node, find_in, remove}
use kad.Routing.Invariant.{IsTable}
use kad.Routing.Lookup.{bucket_of}
use kad.Routing.Insert.{add-Adds, Under-root}
use kad.Routing.Remove.{remove-Removes}
use kad.Routing.Cut.{is_some}
use kad.Routing.Items.{or_else}

module _ {ℓ} {Addr : Type ℓ} (local : KadId) where
  -- The cached contact that `AddNode` and `RemoveNode` see for an id.
  abbrev pub find_cached : KadId → Node Addr → Option (Contact Addr)
  find_cached id node = find_in id (bucket_of (xor id local) node).cache

  -- The bucket in which an id belongs.
  abbrev pub bucket_for : KadId → Node Addr → Bucket Addr
  bucket_for id node = bucket_of (xor id local) node

module _ {ℓ} {Addr : Type ℓ} (local : KadId) (l : IsId id_size local) where
  find_lem : (id : KadId) (node : Node Addr) → find local id node ≡ find_node id (xor local id) node
  unfolding find
  find_lem id node = ap (λ (t : KadId). find_node id t node) (xor_comm id local)

  find_cached_lem :
      (id : KadId) (node : Node Addr)
      → find_cached local id node ≡ find_in id (bucket_of (xor local id) node).cache
  find_cached_lem id node =
      ap (λ (t : KadId). find_in id (bucket_of t node).cache) (xor_comm id local)

  bucket_lem :
      (id : KadId) (node : Node Addr)
      → length (bucket_for local id node).contacts ≡ length (bucket_of (xor local id) node).contacts
  bucket_lem id node = ap (λ (t : KadId). length (bucket_of t node).contacts) (xor_comm id local)

  module _ (s : Store) (id : KadId) (addr : Addr) (node : Node Addr) (t : IsTable local 0 0 node)
      (v : IsId id_size id) where
    -- For ids of 20 bytes, in a table that keeps the invariant, `AddNode(id, addr)` always returns
    -- (320 calls are enough); the table keeps the invariant; the contact returned has the id, and
    -- either `FindNode(id)` now finds it, or `FindNode(id)` found nothing before and finds nothing
    -- now, the contact is the one in the cache of the id's bucket, and that bucket has 16
    -- contacts.
    pub add-IsTable :
        (r : Added Addr) × (add local s id addr node ≡ some r)
        × IsTable local 0 0 r.node
        × (r.contact.id ≡ id)
        × ((find local id r.node ≡ some r.contact)
            ⊎ ((find local id node ≡ none)
                × (find local id r.node ≡ none)
                × (find_cached local id r.node ≡ some r.contact)
                × (length (bucket_for local id r.node).contacts ≡ bucket_size)))
    add-IsTable =
        let (r, e, a) = add-Adds local l s id addr node t v in
        (
          r,
          e,
          a.table,
          a.named,
          rw (find_lem id r.node, find_lem id node, find_cached_lem id r.node, bucket_lem id r.node)
              a.stored,
        )

    -- For ids of 20 bytes, in a table that keeps the invariant: if `FindNode(id)` finds a contact,
    -- then `AddNode(id, addr)` returns that contact, whatever its address, leaves the store of
    -- contacts as it is, and `FindNode(id)` finds the contact afterwards.
    pub add_known :
        (c : Contact Addr)
        → find local id node ≡ some c
        → (r : Added Addr) × (add local s id addr node ≡ some r)
          × (r.contact ≡ c)
          × (r.store ≡ s)
          × (find local id r.node ≡ some c)
    add_known c h =
        let (r, e, a) = add-Adds local l s id addr node t v in
        let before = sym (find_lem id node) ∙ h in
        let (same, kept) = a.known c before in
        (
          r,
          e,
          same,
          kept,
          find_lem id r.node ∙ elim a.stored [
            | inl now ↦ now ∙ ap some same
            | inr (nothing, _, _, _) ↦ absurd (cc (nothing, before))
          ],
        )

    -- For ids of 20 bytes, in a table that keeps the invariant, `AddNode(id, addr)` changes
    -- nothing that `FindNode` finds for another id.
    pub add_others :
        (j : KadId)
        → IsId id_size j
        → j ≢ id
        → (r : Added Addr) × (add local s id addr node ≡ some r)
          × (find local j r.node ≡ find local j node)
    add_others j w ne =
        let (r, e, a) = add-Adds local l s id addr node t v in
        (r, e, find_lem j r.node ∙ a.others j ne (Under-root local j l w) ∙ sym (find_lem j node))

  module _ (id : KadId) (node : Node Addr) (t : IsTable local 0 0 node) (v : IsId id_size id) where
    -- For ids of 20 bytes, in a table that keeps the invariant, `RemoveNode(id)` keeps the
    -- invariant; afterwards `FindNode(id)` finds nothing; it returns true just if `FindNode(id)`
    -- found a contact or one was cached for the id.
    pub remove-IsTable :
        IsTable local 0 0 (remove local id node).0
        × (find local id (remove local id node).0 ≡ none)
        × ((remove local id node).1
            ≡ is_some (or_else (find local id node) (find_cached local id node)))
    remove-IsTable =
        let a = remove-Removes local l id node t v in
        (
          a.table,
          find_lem id (remove local id node).0 ∙ a.gone,
          rw (find_lem id node, find_cached_lem id node) a.told,
        )

    -- For ids of 20 bytes, in a table that keeps the invariant, `RemoveNode(id)` changes nothing
    -- that `FindNode` finds for another id.
    pub remove_others :
        (j : KadId)
        → IsId id_size j
        → j ≢ id
        → find local j (remove local id node).0 ≡ find local j node
    remove_others j w ne =
        let a = remove-Removes local l id node t v in
        find_lem j (remove local id node).0
        ∙ a.others j ne (Under-root local j l w)
        ∙ sym (find_lem j node)
