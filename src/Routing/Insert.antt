-- ===== src/Routing/Insert.antt =====
-- `AddNode` on a whole table, by induction on the fuel.
use kad.Common.{ℕ, zero, suc, ◌+◌, ◌-◌, ◌*◌, ◌≤◌, ◌<◌, ◌≡◌, refl, sym, ap, ◌∙◌, arith}
use kad.Common.{Option, true, false, List, length, All}
use kad.Common.{some, Bool-cases, inl, inr, ltb}
use kad.Config.{id_bits, id_size, bucket_size}
use kad.NodeId.{KadId, xor, get_bit}
use kad.NodeId.Value.{IsId, value_bound}
use kad.NodeId.Metric.{xor_comm, xor-IsId}
use kad.Contact.{Contact, Store}
use kad.Routing.{Bucket, Node, bucket, space, Added, may_split, is_splittable}
use kad.Routing.{find_node_by_id, add_node, add, add_fuel, in_high, in_low}
use kad.Routing.Query.{find_node}
use kad.Routing.Items.{Valid, Search, found, missing, find_node_by_id-Search}
use kad.Routing.Place.{Under, IsPlace, Under-child}
use kad.Routing.Invariant.{IsBucket, IsTable, AllUnder-Valid}
use kad.Routing.Split.{halved, split_cases}
use kad.Routing.Lookup.{bucket_of, find_node-halved}
use kad.Routing.Fill.{Adds, move_to_end-Adds, append-Adds}
use kad.Routing.Cached.{add_cached-Adds}

-- The calls that are left in a node at depth d.
abbrev rounds {ℓ} : {Addr : Type ℓ} → ℕ → Node Addr → ℕ
rounds d (bucket e j b) = 2 * (id_bits - d)
rounds d (space e j m0 m1) = 2 * (id_bits - d) - 1

rounds-bounds {ℓ} : {Addr : Type ℓ} (d : ℕ) (node : Node Addr) → rounds d node ≤ 2 * (id_bits - d)
rounds-bounds d (bucket e j b) = omega arith
rounds-bounds d (space e j m0 m1) = omega arith

module _ {ℓ} {Addr : Type ℓ} (local : KadId) (l : IsId id_size local) (d i : ℕ) (s : Store)
    (id : KadId) (u : Under local d i id) where
  -- What was done to a child, seen from its parent.
  module _ (m0 m1 : Node Addr) (r : Added Addr) (deep : d < id_bits - 1) (place : IsPlace d i)
      (t0 : IsTable local (d + 1) (i * 2) m0) (t1 : IsTable local (d + 1) (i * 2 + 1) m1) where
    high-Adds :
        get_bit (xor local id) d ≡ true
        → Adds local (d + 1) (i * 2 + 1) s id m1 r
        → Adds local d i s id (space d i m0 m1) (in_high d i m0 r)
    unfolding find_node
    high-Adds one a = record {
      table = (refl, refl, deep, place, t0, a.table);
      named = a.named;
      known = λ c h. a.known c (rw (one, find_node) at h);
      stored = rw (one, find_node, bucket_of) a.stored;
      others = λ j ne w. elim (Bool-cases (get_bit (xor local j) d)) [
        | inl t ↦
            rw (t, find_node) (a.others j ne (rw t at (Under-child local d i j l place.deep w)))
        | inr f ↦ rw (f, find_node) refl
      ];
    }

    low-Adds :
        get_bit (xor local id) d ≡ false
        → Adds local (d + 1) (i * 2) s id m0 r
        → Adds local d i s id (space d i m0 m1) (in_low d i m1 r)
    unfolding find_node
    low-Adds nil a = record {
      table = (refl, refl, deep, place, a.table, t1);
      named = a.named;
      known = λ c h. a.known c (rw (nil, find_node) at h);
      stored = rw (nil, find_node, bucket_of) a.stored;
      others = λ j ne w. elim (Bool-cases (get_bit (xor local j) d)) [
        | inl t ↦ rw (t, find_node) refl
        | inr f ↦
            rw (f, find_node) (a.others j ne (rw f at (Under-child local d i j l place.deep w)))
      ];
    }

  -- What was done after a split, seen from before.
  split-Adds :
      (b : Bucket Addr) (r : Added Addr)
      → All Valid b.contacts
      → Adds local d i s id (halved local d i b) r
      → Adds local d i s id (bucket d i b) r
  unfolding find_node
  split-Adds b r v a =
      let same = λ (j : KadId) (w : IsId id_size j). find_node-halved local j d i b w v in
      record {
        table = a.table;
        named = a.named;
        known = λ c h. a.known c (same id u.0 ∙ h);
        stored = elim a.stored [
          | inl h ↦ inl h
          | inr (h0, h1, h2, h3) ↦ inr (sym (same id u.0) ∙ h0, h1, h2, h3)
        ];
        others = λ j ne w. a.others j ne w ∙ same j w.0;
      }

-- Every id is under the root.
pub Under-root : (local id : KadId) → IsId id_size local → IsId id_size id → Under local 0 0 id
Under-root local id l v =
    (v, omega (arith, value_bound id_size (xor local id) (xor-IsId id_size local id l v)))

module _ {ℓ} {Addr : Type ℓ} (local : KadId) (l : IsId id_size local) where
  module _ (s : Store) (id : KadId) (addr : Addr) where
    -- `AddNode` returns, and has done what `Adds` says.
    abbrev Returns : ℕ → ℕ → ℕ → Node Addr → Type ℓ
    Returns fuel d i node =
        (r : Added Addr) × (add_node fuel local s id addr (xor local id) node ≡ some r)
        × Adds local d i s id node r

    closed_of_full :
        (d i : ℕ) (b : Bucket Addr)
        → is_splittable d i b ≡ false
        → ltb (length b.contacts) bucket_size ≡ false
        → may_split d i ≡ false
    unfolding is_splittable
    closed_of_full d i b whole full = ground arith

    filled : (n : ℕ) → n ≤ bucket_size → ltb n bucket_size ≡ false → n ≡ bucket_size
    filled n h full = ground arith

    -- In a bucket, with what happens after a split.
    bucket-Adds :
        (fuel d i : ℕ) (b : Bucket Addr)
        → IsBucket local d i b
        → Under local d i id
        → (IsTable local d i (halved local d i b) → Returns fuel d i (halved local d i b))
        → Returns (suc fuel) d i (bucket d i b)
    unfolding add_node
    bucket-Adds fuel d i b v u again = by_search (find_node_by_id b.contacts id) refl (
        find_node_by_id-Search id b.contacts u.0
          (AllUnder-Valid local d i b.contacts v.contacts_under))
      where
        by_search :
            (o : Option (List (Contact Addr) × Contact Addr × List (Contact Addr)))
            → find_node_by_id b.contacts id ≡ o
            → Search id b.contacts o
            → Returns (suc fuel) d i (bucket d i b)
        by_search _ q (found {before} {after} {c} e n) = (
          _,
          rw (q, add_node) refl,
          move_to_end-Adds local d i s id addr b v u before c after e n,
        )
        by_search _ q (missing absent) = elim (Bool-cases (ltb (length b.contacts) bucket_size)) [
          | inl room ↦ (
            _,
            rw (q, room, add_node) refl,
            append-Adds local d i s id addr b v u absent (ground arith),
          )
          | inr full ↦ elim (split_cases local d i b l v) [
            | inl (same, whole) ↦ (
              _,
              rw (q, full, same, add_node) refl,
              add_cached-Adds local d i s id addr b v u absent (closed_of_full d i b whole full)
                  (filled (length b.contacts) v.contacts_fit full),
            )
            | inr (halves, m, t) ↦
                let (r, e, a) = again t in
                (
                  r,
                  rw (q, full, halves, add_node) e,
                  split-Adds local l d i s id u b r
                      (AllUnder-Valid local d i b.contacts v.contacts_under) a,
                )
          ]
        ]

    add_node-Adds :
        (fuel d i : ℕ) (node : Node Addr)
        → IsTable local d i node
        → Under local d i id
        → d < id_bits
        → rounds d node ≤ fuel
        → Returns fuel d i node
    unfolding add_node
    add_node-Adds zero d i (bucket e j b) t u deep enough = absurd (omega arith)
    add_node-Adds zero d i (space e j m0 m1) t u deep enough = absurd (omega arith)
    add_node-Adds (suc fuel) d i (space e j m0 m1) (ed, ji, small, place, t0, t1) u deep enough =
        rw (ed, ji)
          (elim (Bool-cases (get_bit (xor local id) d)) [
            | inl one ↦
                let w = rw one at (Under-child local d i id l deep u) in
                let fits = rounds-bounds (d + 1) m1 in
                let (r, e, a) =
                  add_node-Adds fuel (d + 1) (i * 2 + 1) m1 t1 w (omega arith)
                    (omega (arith, fits)) in
                (
                  in_high d i m0 r,
                  rw (one, add_node, e) refl,
                  high-Adds local l d i s id u m0 m1 r small place t0 t1 one a,
                )
            | inr nil ↦
                let w = rw nil at (Under-child local d i id l deep u) in
                let fits = rounds-bounds (d + 1) m0 in
                let (r, e, a) =
                  add_node-Adds fuel (d + 1) (i * 2) m0 t0 w (omega arith) (omega (arith, fits)) in
                (
                  in_low d i m1 r,
                  rw (nil, add_node, e) refl,
                  low-Adds local l d i s id u m0 m1 r small place t0 t1 nil a,
                )
          ])
    add_node-Adds (suc fuel) d i (bucket e j b) (ed, ji, v) u deep enough =
        rw (ed, ji)
          (bucket-Adds fuel d i b v u
            λ t. add_node-Adds fuel d i (halved local d i b) t u deep (omega arith))

  -- `AddNode(id, addr)` always returns: 320 calls are enough. The invariant holds again; the contact
  -- returned has the id and is the one that was there, if one was; it is found now, or, with the
  -- table full, stands in the cache; every other id is found as before.
  pub add-Adds :
      (s : Store) (id : KadId) (addr : Addr) (node : Node Addr)
      → IsTable local 0 0 node
      → IsId id_size id
      → (r : Added Addr) × (add local s id addr node ≡ some r) × Adds local 0 0 s id node r
  unfolding add
  add-Adds s id addr node t v =
      let (r, e, a) =
        add_node-Adds s id addr add_fuel 0 0 node t (Under-root local id l v) (omega arith)
          (omega (arith, rounds-bounds 0 node)) in
      (r, ap (λ (t : KadId). add_node add_fuel local s id addr t node) (xor_comm id local) ∙ e, a)
