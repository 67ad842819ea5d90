-- ===== src/Routing.antt =====
-- src/KadRtNode.h: the routing table, a binary tree over the bits of the distance to the local id.
-- A `TKadRtNode` has either two children and no contacts (`space`) or no child (`bucket`); `Split`
-- makes the one of the other. `mLocalId` is the same in every node and an argument here. An
-- `XList` is the list of its items, an iterator the place that it stands at: the items before it,
-- its own, and those after it.
use kad.Common.{ℕ, zero, suc, ◌+◌, ◌-◌, ◌*◌, ◌%◌, ◌^◌, Bool, true, false, ◌&&◌, ◌||◌}
pub mod Query
pub mod Items
pub mod Place
pub mod Invariant
pub mod Split
pub mod Lookup
pub mod Fill
pub mod Cached
pub mod Insert
pub mod Cut
pub mod Remove
pub mod Side
pub mod Select
pub mod Collect
pub mod Nearest
pub mod Counts
pub mod Table
use mathlib.Core.Option
use kad.Common.{Option, none, some, List, [], ◌∷◌, ◌++◌, ltb, leb, if◌then◌else◌, length}
use mathlib.Core.List.{tail}
use kad.Config.{id_bits, id_size, bucket_size, cache_size, log_base, rt_base}
use kad.NodeId.{KadId, xor, id_eq, id_lt, get_bit, from_num, power_of_two, closer}
use kad.Contact.{Contact, Store, made, made_store, is_stale}

pub record Bucket {ℓ} (Addr : Type ℓ) : Type ℓ where
  pub contacts : List (Contact Addr)
  pub cache : List (Contact Addr)

-- The first two arguments are `mDepth` and `mIndex`.
pub data Node {ℓ} (Addr : Type ℓ) : Type ℓ where
  bucket : ℕ → ℕ → Bucket Addr → Node Addr
  space : ℕ → ℕ → Node Addr → Node Addr → Node Addr

-- What `AddNode` leaves: the tree, the contacts, and the pointer that it returns.
pub record Added {ℓ} (Addr : Type ℓ) : Type ℓ where
  pub node : Node Addr
  pub store : Store
  pub contact : Contact Addr

-- `GetStats`.
pub record Stats : Type 0 where
  pub contacts : ℕ
  pub stale : ℕ
  pub cached : ℕ
  pub buckets : ℕ
  pub spaces : ℕ

-- The test of `IsSplittable` without the count of contacts.
unfoldable pub may_split : ℕ → ℕ → Bool
may_split depth index =
    ltb depth (id_bits - 1)
    && (ltb depth rt_base
        || id_lt (from_num id_size index) (power_of_two id_size (depth % log_base)))

-- `mIndex << 1` and `(mIndex << 1) + 1`, in 32 bits.
abbrev pub low_index : ℕ → ℕ
low_index index = index * 2 % 2 ^ 32

abbrev pub high_index : ℕ → ℕ
high_index index = (index * 2 % 2 ^ 32 + 1) % 2 ^ 32

-- The calls of `AddNode` on a tree of KADEMLIA_ID_BITS levels.
abbrev pub add_fuel : ℕ
add_fuel = 2 * id_bits

module _ {ℓ} {Addr : Type ℓ} where
  abbrev pub root : Node Addr
  root = bucket 0 0 (record { contacts = []; cache = [] })

  unfoldable pub is_splittable : ℕ → ℕ → Bucket Addr → Bool
  is_splittable depth index b = leb bucket_size (length b.contacts) && may_split depth index

  unfoldable pub append_contact : Contact Addr → Bucket Addr → Bucket Addr
  append_contact c b = record b { contacts = b.contacts ++ c ∷ [] }

  unfoldable pub append_cached : Contact Addr → Bucket Addr → Bucket Addr
  append_cached c b =
      if ltb (length b.contacts) bucket_size
      then record b { contacts = b.contacts ++ c ∷ [] }
      else if ltb (length b.cache) cache_size
      then record b { cache = b.cache ++ c ∷ [] }
      else b

  -- `Closest(d)` of the two children, changed by `f`.
  abbrev pub on_closest :
      Bool → (Bucket Addr → Bucket Addr) → Bucket Addr × Bucket Addr → Bucket Addr × Bucket Addr
  on_closest true f (m0, m1) = (m0, f m1)
  on_closest false f (m0, m1) = (f m0, m1)

  -- The two loops of `Split`.
  unfoldable pub split_contacts :
      KadId → ℕ → List (Contact Addr) → Bucket Addr × Bucket Addr → Bucket Addr × Bucket Addr
  split_contacts local depth [] m = m
  split_contacts local depth (c ∷ cs) m =
      split_contacts local depth cs
        (on_closest (get_bit (xor local c.id) depth) (append_contact c) m)

  unfoldable pub split_cache :
      KadId → ℕ → List (Contact Addr) → Bucket Addr × Bucket Addr → Bucket Addr × Bucket Addr
  split_cache local depth [] m = m
  split_cache local depth (c ∷ cs) m =
      split_cache local depth cs (on_closest (get_bit (xor local c.id) depth) (append_cached c) m)

  abbrev pub no_contacts : Bucket Addr
  no_contacts = record { contacts = []; cache = [] }

  unfoldable pub split_halves : KadId → ℕ → Bucket Addr → Bucket Addr × Bucket Addr
  split_halves local depth b =
      split_cache local depth b.cache
        (split_contacts local depth b.contacts (no_contacts, no_contacts))

  unfoldable pub split : KadId → ℕ → ℕ → Bucket Addr → Option (Node Addr)
  split local depth index b =
      if is_splittable depth index b
      then (let (m0, m1) = split_halves local depth b in
          some (
            space depth index (bucket (depth + 1) (low_index index) m0)
              (bucket (depth + 1) (high_index index) m1)))
      else none

  -- `FindNodeById` looks from the last item to the first.
  unfoldable pub find_node_by_id :
      List (Contact Addr)
      → KadId
      → Option (List (Contact Addr) × Contact Addr × List (Contact Addr))
  find_node_by_id [] id = none
  find_node_by_id (x ∷ xs) id = elim (find_node_by_id xs id) [
    | some (before, c, after) ↦ some (x ∷ before, c, after)
    | none ↦ if id_eq x.id id then some ([], x, xs) else none
  ]

  -- The end of `AddNode`, in a full bucket that does not split.
  unfoldable pub add_cached : Store → KadId → Addr → ℕ → ℕ → Bucket Addr → Added Addr
  add_cached s id addr depth index b = elim (find_node_by_id b.cache id) [
    | some (before, c, after) ↦ record {
      node = bucket depth index (record b { cache = (before ++ after) ++ c ∷ [] });
      store = s;
      contact = c;
    }
    | none ↦
        let c = made s id addr in
        let kept = if ltb (length b.cache) cache_size then b.cache else tail b.cache in
        record {
          node = bucket depth index (record b { cache = kept ++ c ∷ [] });
          store = made_store s;
          contact = c;
        }
  ]

  -- A child that changed, back in its parent.
  abbrev pub in_high : ℕ → ℕ → Node Addr → Added Addr → Added Addr
  in_high d i m0 r = record r { node = space d i m0 r.node }

  abbrev pub in_low : ℕ → ℕ → Node Addr → Added Addr → Added Addr
  in_low d i m1 r = record r { node = space d i r.node m1 }

  -- `AddNode(id, addr, dist)`. It calls itself on a child, and again on itself after a split, at
  -- most twice for each level; `none` means that the fuel ran out.
  unfoldable pub add_node :
      ℕ → KadId → Store → KadId → Addr → KadId → Node Addr → Option (Added Addr)
  add_node zero local s id addr dist node = none
  add_node (suc fuel) local s id addr dist (space d i m0 m1) = elim (get_bit dist d) [
    | true ↦ Option.map (in_high d i m0) (add_node fuel local s id addr dist m1)
    | false ↦ Option.map (in_low d i m1) (add_node fuel local s id addr dist m0)
  ]
  add_node (suc fuel) local s id addr dist (bucket d i b) = elim (find_node_by_id b.contacts id) [
    | some (before, c, after) ↦ some (record {
      node = bucket d i (record b { contacts = (before ++ after) ++ c ∷ [] });
      store = s;
      contact = c;
    })
    | none ↦ elim (ltb (length b.contacts) bucket_size) [
      | true ↦ some (record {
        node = bucket d i (append_contact (made s id addr) b);
        store = made_store s;
        contact = made s id addr;
      })
      | false ↦ elim (split local d i b) [
        | some node ↦ add_node fuel local s id addr dist node
        | none ↦ some (add_cached s id addr d i b)
      ]
    ]
  ]

  -- The public `AddNode(id, addr)`.
  unfoldable pub add : KadId → Store → KadId → Addr → Node Addr → Option (Added Addr)
  add local s id addr node = add_node add_fuel local s id addr (xor id local) node
