-- ===== src/Routing/Cut.antt =====
-- What `RemoveNode` does, and that it does it in a bucket.
use kad.Common.{ℕ, ◌<◌, ◌≡◌, ◌≢◌, refl, sym, ap, subst, ◌∙◌, arith}
use kad.Common.{Option, Bool, true, false, List, ◌∷◌, ◌++◌, length}
use kad.Common.{some, none, inl, inr, All-removed, All-left, All-right, length-append}
use kad.Config.{id_size}
use kad.NodeId.{KadId, xor}
use kad.NodeId.Value.{IsId}
use kad.Contact.{Contact}
use kad.Routing.{Bucket, Node, bucket, find_node_by_id}
use kad.Routing.Query.{find_in, find_node, remove_in}
use kad.Routing.Items.{Valid, Absent, Distinct, Search, found, missing, find_node_by_id-Search}
use kad.Routing.Items.{Distinct-middle, find_in-Absent, find_in-middle, find_in-removed, or_else}
use kad.Routing.Place.{Under}
use kad.Routing.Invariant.{AllUnder, IsBucket, IsTable, AllUnder-Valid}
use kad.Routing.Lookup.{bucket_of}

abbrev pub is_some {ℓ} : {A : Type ℓ} → Option A → Bool
is_some (some a) = true
is_some none = false

-- What `RemoveNode(id)` has done when the node is `node'` and it returns `done`.
pub record Removes {ℓ} {Addr : Type ℓ} (local : KadId) (d i : ℕ) (id : KadId)
    (node node' : Node Addr) (done : Bool) : Type ℓ where
  pub table : IsTable local d i node'
  pub gone : find_node id (xor local id) node' ≡ none
  -- It has removed a contact if there was one, here or in the cache.
  pub told :
      done
      ≡ is_some (
          or_else
            (find_node id (xor local id) node)
            (find_in id (bucket_of (xor local id) node).cache))
  pub others :
      (j : KadId)
      → j ≢ id
      → Under local d i j
      → find_node j (xor local j) node' ≡ find_node j (xor local j) node

module _ {ℓ} {Addr : Type ℓ} (local : KadId) (d i : ℕ) (id : KadId) where
  -- A list of contacts without the one at a place of it.
  record Cut (cs cs' : List (Contact Addr)) (c : Contact Addr) : Type ℓ where
    under : AllUnder local d i cs'
    distinct : Distinct cs'
    absent : Absent id cs'
    shorter : length cs' < length cs
    here : find_in id cs ≡ some c
    others : (j : KadId) → j ≢ id → IsId id_size j → find_in j cs' ≡ find_in j cs

  cut :
      (cs before : List (Contact Addr)) (c : Contact Addr) (after : List (Contact Addr))
      → AllUnder local d i cs
      → Distinct cs
      → IsId id_size id
      → cs ≡ before ++ c ∷ after
      → c.id ≡ id
      → Cut cs (before ++ after) c
  cut cs before c after u v w e n =
      let P = λ (x : Contact Addr). Under local d i x.id in
      let under : AllUnder local d i (before ++ c ∷ after) = subst (AllUnder local d i) e u in
      let (fresh, distinct) = Distinct-middle before c after (subst Distinct e v) in
      let absent : Absent id (before ++ after) =
        subst (λ (t : KadId). Absent t (before ++ after)) n fresh in
      let under' : AllUnder local d i (before ++ after) = All-removed P before c after under in
      let valid = AllUnder-Valid local d i (before ++ after) under' in
      record {
        under = under';
        distinct = distinct;
        absent = absent;
        shorter = omega (
          arith,
          ap (λ (t : List (Contact Addr)). length t) e,
          length-append before (c ∷ after),
          length-append before after,
        );
        here =
            ap (find_in id) e
            ∙ find_in-middle id before c after w (All-left Valid before after valid)
                (All-left (λ (x : Contact Addr). x.id ≢ id) before after absent) n;
        others = λ j ne h.
            sym (
              find_in-removed j before c after h (All-right P before (c ∷ after) under).0.0
                (λ q. ne (sym q ∙ n)))
            ∙ ap (find_in j) (sym e);
      }

  module _ (b : Bucket Addr) (v : IsBucket local d i b) (u : Under local d i id) where
    -- The contact is in the list, and leaves it.
    contacts-Removes :
        (cs : List (Contact Addr)) (c : Contact Addr)
        → Cut b.contacts cs c
        → Removes local d i id (bucket d i b) (bucket d i (record b { contacts = cs })) true
    unfolding find_node
    contacts-Removes cs c k = record {
      table = (
        refl,
        refl,
        record {
          place = v.place;
          contacts_fit = omega (arith, k.shorter, v.contacts_fit);
          cache_fits = v.cache_fits;
          contacts_under = k.under;
          cache_under = v.cache_under;
          distinct = k.distinct;
          cache_distinct = v.cache_distinct;
          closed = v.closed;
        },
      );
      gone = find_in-Absent id cs u.0 (AllUnder-Valid local d i cs k.under) k.absent;
      told = rw k.here refl;
      others = λ j ne w. k.others j ne w.0;
    }

    module _ (absent : Absent id b.contacts) where
      nothing : find_in id b.contacts ≡ none
      nothing =
          find_in-Absent id b.contacts u.0 (AllUnder-Valid local d i b.contacts v.contacts_under)
            absent

      -- It is only in the cache, and leaves it.
      cache-Removes :
          (cs : List (Contact Addr)) (c : Contact Addr)
          → Cut b.cache cs c
          → Removes local d i id (bucket d i b) (bucket d i (record b { cache = cs })) true
      unfolding find_node
      cache-Removes cs c k = record {
        table = (
          refl,
          refl,
          record {
            place = v.place;
            contacts_fit = v.contacts_fit;
            cache_fits = omega (arith, k.shorter, v.cache_fits);
            contacts_under = v.contacts_under;
            cache_under = k.under;
            distinct = v.distinct;
            cache_distinct = k.distinct;
            closed = elim v.closed [
              | inl none_left ↦ absurd (omega (arith, k.shorter, none_left))
              | inr whole ↦ inr whole
            ];
          },
        );
        gone = nothing;
        told = rw (nothing, k.here) refl;
        others = λ j ne w. refl;
      }

      -- It is in neither.
      same-Removes : Absent id b.cache → Removes local d i id (bucket d i b) (bucket d i b) false
      unfolding find_node
      same-Removes none_cached = record {
        table = (refl, refl, v);
        gone = nothing;
        told =
            rw
              (
                nothing,
                find_in-Absent id b.cache u.0 (AllUnder-Valid local d i b.cache v.cache_under)
                    none_cached,
              )
              refl;
        others = λ j ne w. refl;
      }

    -- What `remove_in` does, as an operation on nodes.
    abbrev Removed : Type ℓ
    Removed = Removes local d i id (bucket d i b) (bucket d i (remove_in id b).0) (remove_in id b).1

    pub remove_in-Removes : Removed
    unfolding remove_in
    remove_in-Removes =
        by_contacts (find_node_by_id b.contacts id) refl
          (find_node_by_id-Search id b.contacts u.0
            (AllUnder-Valid local d i b.contacts v.contacts_under))
          (find_node_by_id b.cache id) refl
          (find_node_by_id-Search id b.cache u.0 (AllUnder-Valid local d i b.cache v.cache_under))
      where
        by_contacts :
            (o : Option (List (Contact Addr) × Contact Addr × List (Contact Addr)))
            → find_node_by_id b.contacts id ≡ o
            → Search id b.contacts o
            → (o' : Option (List (Contact Addr) × Contact Addr × List (Contact Addr)))
            → find_node_by_id b.cache id ≡ o'
            → Search id b.cache o'
            → Removed
        by_contacts _ q (found {before} {after} {c} e n) _ q' _ =
            rw (q, remove_in)
              (contacts-Removes (before ++ after) c
                (cut b.contacts before c after v.contacts_under v.distinct u.0 e n))
        by_contacts _ q (missing absent) _ q' (found {before} {after} {c} e n) =
            rw (q, q', remove_in)
              (cache-Removes absent (before ++ after) c
                (cut b.cache before c after v.cache_under v.cache_distinct u.0 e n))
        by_contacts _ q (missing absent) _ q' (missing absent') =
            rw (q, q', remove_in) (same-Removes absent absent')
