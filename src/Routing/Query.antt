-- ===== src/Routing/Query.antt =====
-- src/KadRtNode.h: `RemoveNode`, and the operations that only read the routing table.
use kad.Common.{ℕ, suc, ◌+◌, ◌-◌, Bool, true, false, not, Option, none, some, List, [], ◌∷◌, ◌++◌}
use kad.Common.{ltb, ◌==◌, if◌then◌else◌, length}
use kad.NodeId.{KadId, xor, id_eq, get_bit, closer}
use kad.Contact.{Contact, Store, is_stale}
use kad.Routing.{Bucket, Node, bucket, space, Stats, find_node_by_id}

module _ {ℓ} {Addr : Type ℓ} where
  -- `RemoveNode(id, dist)` in a bucket.
  unfoldable pub remove_in : KadId → Bucket Addr → Bucket Addr × Bool
  remove_in id b = elim (find_node_by_id b.contacts id) [
    | some (before, c, after) ↦ (record b { contacts = before ++ after }, true)
    | none ↦ elim (find_node_by_id b.cache id) [
      | some (before, c, after) ↦ (record b { cache = before ++ after }, true)
      | none ↦ (b, false)
    ]
  ]

  unfoldable pub remove_node : KadId → KadId → Node Addr → Node Addr × Bool
  remove_node id dist (bucket d i b) = let (b', done) = remove_in id b in (bucket d i b', done)
  remove_node id dist (space d i m0 m1) = elim (get_bit dist d) [
    | true ↦ let (m, done) = remove_node id dist m1 in (space d i m0 m, done)
    | false ↦ let (m, done) = remove_node id dist m0 in (space d i m m1, done)
  ]

  -- The loop of `FindNode`.
  unfoldable pub find_in : KadId → List (Contact Addr) → Option (Contact Addr)
  find_in id [] = none
  find_in id (c ∷ cs) = if id_eq c.id id then some c else find_in id cs

  unfoldable pub find_node : KadId → KadId → Node Addr → Option (Contact Addr)
  find_node id dist (bucket d i b) = find_in id b.contacts
  find_node id dist (space d i m0 m1) = elim (get_bit dist d) [
    | true ↦ find_node id dist m1
    | false ↦ find_node id dist m0
  ]

  -- The inner loop of `FindClosest`: the first kept contact that is farther gives way.
  unfoldable pub replace_first : KadId → Contact Addr → List (Contact Addr) → List (Contact Addr)
  replace_first id c [] = []
  replace_first id c (x ∷ xs) =
      let rest = replace_first id c xs in if closer id c.id x.id then c ∷ xs else x ∷ rest

  -- Its outer loop over the contacts of a bucket.
  unfoldable pub select :
      Store → KadId → ℕ → List (Contact Addr) → List (Contact Addr) → List (Contact Addr)
  select s id qty result [] = result
  select s id qty result (c ∷ cs) =
      select s id qty
        (if is_stale s c
          then result
          else if ltb (length result) qty
          then result ++ c ∷ []
          else replace_first id c result)
        cs

  unfoldable pub find_closest : Store → KadId → KadId → ℕ → Node Addr → List (Contact Addr)
  find_closest s id dist qty (bucket d i b) = if qty == 0 then [] else select s id qty [] b.contacts
  find_closest s id dist qty (space d i m0 m1) = if qty == 0 then [] else elim (get_bit dist d) [
    | true ↦
        let near = find_closest s id dist qty m1 in
        let far = find_closest s id dist (qty - length near) m0 in
        if ltb (length near) qty then near ++ far else near
    | false ↦
        let near = find_closest s id dist qty m0 in
        let far = find_closest s id dist (qty - length near) m1 in
        if ltb (length near) qty then near ++ far else near
  ]

  abbrev pub count_if : (Contact Addr → Bool) → List (Contact Addr) → ℕ
  count_if p [] = 0
  count_if p (c ∷ cs) = if p c then suc (count_if p cs) else count_if p cs

  abbrev pub keep_if : (Contact Addr → Bool) → List (Contact Addr) → List (Contact Addr)
  keep_if p [] = []
  keep_if p (c ∷ cs) = if p c then c ∷ keep_if p cs else keep_if p cs

  -- `GetStatsRec`.
  unfoldable pub stats_rec : Store → Node Addr → Stats → Stats
  stats_rec s (bucket d i b) t = record t {
    buckets = t.buckets + 1;
    contacts = t.contacts + length b.contacts;
    cached = t.cached + length b.cache;
    stale = t.stale + count_if (is_stale s) b.contacts;
  }
  stats_rec s (space d i m0 m1) t =
      stats_rec s m1 (stats_rec s m0 (record t { spaces = t.spaces + 1 }))

  unfoldable pub stats : Store → Node Addr → Stats
  stats s node =
      stats_rec s node (record { contacts = 0; stale = 0; cached = 0; buckets = 0; spaces = 0 })

  unfoldable pub count_contacts : Node Addr → ℕ
  count_contacts (bucket d i b) = length b.contacts
  count_contacts (space d i m0 m1) = count_contacts m0 + count_contacts m1

  unfoldable pub get_contacts : Store → Node Addr → List (Contact Addr)
  get_contacts s (bucket d i b) = keep_if (λ c. not (is_stale s c)) b.contacts
  get_contacts s (space d i m0 m1) = get_contacts s m0 ++ get_contacts s m1

  -- The public `RemoveNode(id)`, `FindNode(id)` and `FindClosest(id, qty)`.
  unfoldable pub remove : KadId → KadId → Node Addr → Node Addr × Bool
  remove local id node = remove_node id (xor id local) node

  unfoldable pub find : KadId → KadId → Node Addr → Option (Contact Addr)
  find local id node = find_node id (xor id local) node

  unfoldable pub closest : KadId → Store → KadId → ℕ → Node Addr → List (Contact Addr)
  closest local s id qty node = find_closest s id (xor id local) qty node
