-- ===== src/Routing/Fill.antt =====
-- What `AddNode` does to the bucket that it ends in, in each of its branches.
use kad.Common.{ℕ, ◌<◌, ◌≡◌, ◌≢◌, ◌⊎◌, refl, sym, ap, subst, ◌∙◌, arith}
use kad.Common.{List, [], ◌∷◌, ◌++◌, length, All, All-append, All-moved, All-removed, All-left}
use kad.Common.{All-right, some, none, inl, length-append}
use kad.Config.{bucket_size}
use kad.NodeId.{KadId, xor}
use kad.Contact.{Contact, Store, made, made_store}
use kad.Routing.{Bucket, Node, bucket, Added, append_contact}
use kad.Routing.Query.{find_in, find_node}
use kad.Routing.Items.{Valid, Absent, Distinct}
use kad.Routing.Items.{Distinct-middle, Distinct-end, find_in-removed, find_in-added, find_in-end}
use kad.Routing.Items.{find_in-Absent, find_in-middle, length-moved}
use kad.Routing.Place.{Under}
use kad.Routing.Invariant.{AllUnder, IsBucket, IsTable, AllUnder-Valid}
use kad.Routing.Lookup.{bucket_of}

-- What `AddNode(id, addr)` has done when it returns `r`, in the node at depth `d` and index `i`.
pub record Adds {ℓ} {Addr : Type ℓ} (local : KadId) (d i : ℕ) (s : Store) (id : KadId)
    (node : Node Addr) (r : Added Addr) : Type ℓ where
  -- The invariant holds again.
  pub table : IsTable local d i r.node
  -- The contact returned has the id,
  pub named : r.contact.id ≡ id
  -- it is the one that was found before, if one was, and then no contact is made,
  pub known :
      (c : Contact Addr)
      → find_node id (xor local id) node ≡ some c
      → (r.contact ≡ c) × (r.store ≡ s)
  -- and it is found now, or its bucket is full and keeps it in the cache.
  pub stored :
      (find_node id (xor local id) r.node ≡ some r.contact)
      ⊎ ((find_node id (xor local id) node ≡ none)
          × (find_node id (xor local id) r.node ≡ none)
          × (find_in id (bucket_of (xor local id) r.node).cache ≡ some r.contact)
          × (length (bucket_of (xor local id) r.node).contacts ≡ bucket_size))
  -- Every other id is found as before.
  pub others :
      (j : KadId)
      → j ≢ id
      → Under local d i j
      → find_node j (xor local j) r.node ≡ find_node j (xor local j) node

module _ {ℓ} {Addr : Type ℓ} (local : KadId) (d i : ℕ) (s : Store) (id : KadId) (addr : Addr)
    (b : Bucket Addr) (v : IsBucket local d i b) (u : Under local d i id) where
  pub valid : All Valid b.contacts
  valid = AllUnder-Valid local d i b.contacts v.contacts_under

  -- The contact is there, and moves to the end.
  pub move_to_end-Adds :
      (before : List (Contact Addr)) (c : Contact Addr) (after : List (Contact Addr))
      → b.contacts ≡ before ++ c ∷ after
      → c.id ≡ id
      → Adds local d i s id (bucket d i b) (record {
        node = bucket d i (record b { contacts = (before ++ after) ++ c ∷ [] });
        store = s;
        contact = c;
      })
  unfolding find_node
  move_to_end-Adds before c after e n =
      let P = λ (x : Contact Addr). Under local d i x.id in
      let under : AllUnder local d i (before ++ c ∷ after) =
        subst (AllUnder local d i) e v.contacts_under in
      let (absent, distinct) = Distinct-middle before c after (subst Distinct e v.distinct) in
      let absent' : Absent id (before ++ after) =
        subst (λ (t : KadId). Absent t (before ++ after)) n absent in
      let valid' =
        AllUnder-Valid local d i (before ++ after) (All-removed P before c after under) in
      let cv : Valid c = (All-right P before (c ∷ after) under).0.0 in
      let here : find_in id b.contacts ≡ some c =
        ap (find_in id) e
        ∙ find_in-middle id before c after u.0 (All-left Valid before after valid')
            (All-left (λ (x : Contact Addr). x.id ≢ id) before after absent') n in
      record {
        table = (
          refl,
          refl,
          record {
            place = v.place;
            contacts_fit = omega (
              arith,
              length-moved before c after,
              ap (λ (t : List (Contact Addr)). length t) e,
              v.contacts_fit,
            );
            cache_fits = v.cache_fits;
            contacts_under = All-moved P before c after under;
            cache_under = v.cache_under;
            distinct = Distinct-end (before ++ after) c distinct absent;
            cache_distinct = v.cache_distinct;
            closed = v.closed;
          },
        );
        named = n;
        known = λ c' h. (cc (here, h), refl);
        stored = inl (find_in-end id (before ++ after) c u.0 valid' absent' n);
        others = λ j ne w.
            let cne : c.id ≢ j = λ q. ne (sym q ∙ n) in
            find_in-added j (before ++ after) c w.0 cv cne
            ∙ sym (find_in-removed j before c after w.0 cv cne)
            ∙ ap (find_in j) (sym e);
      }

  -- There is room, and a new contact goes to the end.
  pub append-Adds :
      Absent id b.contacts
      → length b.contacts < bucket_size
      → Adds local d i s id (bucket d i b) (record {
        node = bucket d i (append_contact (made s id addr) b);
        store = made_store s;
        contact = made s id addr;
      })
  unfolding find_node append_contact
  append-Adds absent room =
      let c = made s id addr in
      let P = λ (x : Contact Addr). Under local d i x.id in
      let nothing = find_in-Absent id b.contacts u.0 valid absent in
      record {
        table = (
          refl,
          refl,
          record {
            place = v.place;
            contacts_fit = rw (length-append b.contacts (c ∷ [])) (omega arith);
            cache_fits = v.cache_fits;
            contacts_under = All-append P b.contacts (c ∷ []) v.contacts_under (u, tt);
            cache_under = v.cache_under;
            distinct = Distinct-end b.contacts c v.distinct absent;
            cache_distinct = v.cache_distinct;
            closed = v.closed;
          },
        );
        named = refl;
        known = λ c' h. absurd (cc (nothing, h));
        stored = inl (find_in-end id b.contacts c u.0 valid absent refl);
        others = λ j ne w. find_in-added j b.contacts c w.0 u.0 (λ q. ne (sym q));
      }
