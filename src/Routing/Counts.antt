-- ===== src/Routing/Counts.antt =====
-- `GetStats`, `CountContacts` and `GetContacts`.
use kad.Common.{ℕ, ◌+◌, ◌*◌, ◌≤◌, ◌≡◌, refl, ◌∙◌, arith, not}
use kad.Common.{List, [], ◌∷◌, length, length-append, Bool-cases, inl, inr}
use kad.Config.{bucket_size, cache_size}
use kad.NodeId.{KadId}
use kad.Contact.{Contact, Store, is_stale}
use kad.Routing.{Node, bucket, space, Stats}
use kad.Routing.Query.{stats, stats_rec, count_contacts, get_contacts, count_if, keep_if}
use kad.Routing.Invariant.{IsTable}

module _ {ℓ} {Addr : Type ℓ} (s : Store) where
  count_if-keep_if :
      (cs : List (Contact Addr))
      → count_if (is_stale s) cs + length (keep_if (λ c. not (is_stale s c)) cs) ≡ length cs
  count_if-keep_if [] = omega arith
  count_if-keep_if (c ∷ cs) = elim (Bool-cases (is_stale s c)) [
    | inl old ↦ rw old (omega (arith, count_if-keep_if cs))
    | inr new ↦ rw new (omega (arith, count_if-keep_if cs))
  ]

  -- What the recursion adds to the counts so far.
  module _ (t u : Stats) (node : Node Addr) where
    record Counts : Type 0 where
      nodes : u.buckets + t.spaces ≡ u.spaces + t.buckets + 1
      contacts : u.contacts ≡ t.contacts + count_contacts node
      stale : u.stale + length (get_contacts s node) ≡ t.stale + count_contacts node

  stats_rec-Counts : (node : Node Addr) (t : Stats) → Counts t (stats_rec s node t) node
  unfolding stats_rec count_contacts get_contacts
  stats_rec-Counts (bucket d i b) t = record {
    nodes = omega arith;
    contacts = refl;
    stale = omega (arith, count_if-keep_if b.contacts);
  }
  stats_rec-Counts (space d i m0 m1) t =
      let t' : Stats = record t { spaces = t.spaces + 1 } in
      let k0 = stats_rec-Counts m0 t' in
      let k1 = stats_rec-Counts m1 (stats_rec s m0 t') in
      record {
        nodes = omega (arith, k0.nodes, k1.nodes);
        contacts = omega (arith, k0.contacts, k1.contacts);
        stale =
            omega
              (arith, k0.stale, k1.stale, length-append (get_contacts s m0) (get_contacts s m1));
      }

  -- In a table, the limits of its buckets.
  stats_rec-limits :
      (local : List ℕ) (d i : ℕ) (node : Node Addr) (t : Stats)
      → IsTable local d i node
      → ((stats_rec s node t).contacts + bucket_size * t.buckets
          ≤ t.contacts + bucket_size * (stats_rec s node t).buckets)
        × ((stats_rec s node t).cached + cache_size * t.buckets
            ≤ t.cached + cache_size * (stats_rec s node t).buckets)
  unfolding stats_rec
  stats_rec-limits local d i (bucket e j b) t (_, _, v) =
      (omega (arith, v.contacts_fit), omega (arith, v.cache_fits))
  stats_rec-limits local d i (space e j m0 m1) t (_, _, _, _, t0, t1) =
      let t' : Stats = record t { spaces = t.spaces + 1 } in
      let k0 = stats_rec-limits local (d + 1) (i * 2) m0 t' t0 in
      let k1 = stats_rec-limits local (d + 1) (i * 2 + 1) m1 (stats_rec s m0 t') t1 in
      (omega (arith, k0.0, k1.0), omega (arith, k0.1, k1.1))

  -- In a table that keeps the invariant `GetStats` counts one bucket more than inner nodes, as
  -- many contacts as `CountContacts`, and as stale those that `GetContacts` leaves out; there are
  -- at most 16 contacts and 8 cached ones to a bucket.
  pub stats_lem :
      (local : KadId) (node : Node Addr)
      → IsTable local 0 0 node
      → let u = stats s node in
        (u.buckets ≡ u.spaces + 1)
        × (u.contacts ≡ count_contacts node)
        × (u.stale + length (get_contacts s node) ≡ u.contacts)
        × (u.contacts ≤ bucket_size * u.buckets)
        × (u.cached ≤ cache_size * u.buckets)
  unfolding stats
  stats_lem local node t =
      let zeros : Stats = record { contacts = 0; stale = 0; cached = 0; buckets = 0; spaces = 0 } in
      let k = stats_rec-Counts node zeros in
      let (fit, cached) = stats_rec-limits local 0 0 node zeros t in
      (
        omega (arith, k.nodes),
        k.contacts ∙ omega arith,
        omega (arith, k.stale, k.contacts),
        omega (arith, fit),
        omega (arith, cached),
      )
