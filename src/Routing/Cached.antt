-- ===== src/Routing/Cached.antt =====
-- The end of `AddNode`: what it does to the cache of a full bucket that does not split.
use kad.Common.{ℕ, ◌-◌, ◌≤◌, ◌≡◌, ◌≢◌, refl, sym, ap, subst, arith}
use kad.Common.{Option, false, List, [], ◌∷◌, ◌++◌, length, All, All-append}
use kad.Common.{All-removed, none, Bool-cases, inl, inr, ltb, length-append}
use mathlib.Core.List.{tail}
use kad.Config.{bucket_size, cache_size}
use kad.NodeId.{KadId}
use kad.Contact.{Contact, Store, made, made_store}
use kad.Routing.{Bucket, bucket, may_split, add_cached, find_node_by_id}
use kad.Routing.Query.{find_in, find_node}
use kad.Routing.Items.{Absent, Distinct, Search, found, missing, find_node_by_id-Search}
use kad.Routing.Items.{Distinct-middle, Distinct-end, find_in-end, find_in-Absent, length-moved}
use kad.Routing.Place.{Under}
use kad.Routing.Invariant.{AllUnder, IsBucket, AllUnder-Valid}
use kad.Routing.Fill.{Adds, valid}

module _ {ℓ} {Addr : Type ℓ} (local : KadId) (d i : ℕ) (s : Store) (id : KadId) (addr : Addr)
    (b : Bucket Addr) (v : IsBucket local d i b) (u : Under local d i id) where
  -- Neither there nor room: the contact goes to the end of the cache.
  module _ (absent : Absent id b.contacts) (closed : may_split d i ≡ false)
      (no_room : length b.contacts ≡ bucket_size) where
    nothing : find_in id b.contacts ≡ none
    nothing = find_in-Absent id b.contacts u.0 (valid local d i s id addr b v u) absent

    cached-Adds :
        (cache : List (Contact Addr)) (c : Contact Addr) (s' : Store)
        → length (cache ++ c ∷ []) ≤ cache_size
        → AllUnder local d i cache
        → Distinct cache
        → Absent id cache
        → c.id ≡ id
        → Adds local d i s id (bucket d i b) (record {
          node = bucket d i (record b { cache = cache ++ c ∷ [] });
          store = s';
          contact = c;
        })
    unfolding find_node
    cached-Adds cache c s' fits under distinct fresh n =
        let P = λ (x : Contact Addr). Under local d i x.id in
        let cu : Under local d i c.id = subst (Under local d i) (sym n) u in
        record {
          table = (
            refl,
            refl,
            record {
              place = v.place;
              contacts_fit = v.contacts_fit;
              cache_fits = fits;
              contacts_under = v.contacts_under;
              cache_under = All-append P cache (c ∷ []) under (cu, tt);
              distinct = v.distinct;
              cache_distinct =
                  Distinct-end cache c distinct
                    (subst (λ (t : KadId). Absent t cache) (sym n) fresh);
              closed = inr closed;
            },
          );
          named = n;
          known = λ c' h. absurd (cc (nothing, h));
          stored = inr (
            nothing,
            nothing,
            find_in-end id cache c u.0 (AllUnder-Valid local d i cache under) fresh n,
            no_room,
          );
          others = λ j ne w. refl;
        }

    tail-keeps : (P : Contact Addr → Type 0) (cs : List (Contact Addr)) → All P cs → All P (tail cs)
    tail-keeps P [] h = tt
    tail-keeps P (c ∷ cs) h = h.1

    Distinct-tail : (cs : List (Contact Addr)) → Distinct cs → Distinct (tail cs)
    Distinct-tail [] h = tt
    Distinct-tail (c ∷ cs) h = h.1

    length-tail : (cs : List (Contact Addr)) → length (tail cs) ≡ length cs - 1
    length-tail [] = omega arith
    length-tail (c ∷ cs) = omega arith

    pub add_cached-Adds : Adds local d i s id (bucket d i b) (add_cached s id addr d i b)
    unfolding add_cached
    add_cached-Adds =
        by_search (find_node_by_id b.cache id) refl
          (find_node_by_id-Search id b.cache u.0 (AllUnder-Valid local d i b.cache v.cache_under))
      where
        by_search :
            (r : Option (List (Contact Addr) × Contact Addr × List (Contact Addr)))
            → find_node_by_id b.cache id ≡ r
            → Search id b.cache r
            → Adds local d i s id (bucket d i b) (add_cached s id addr d i b)
        by_search _ q (found {before} {after} {c} e n) =
            let P = λ (x : Contact Addr). Under local d i x.id in
            let under : AllUnder local d i (before ++ c ∷ after) =
              subst (AllUnder local d i) e v.cache_under in
            let (fresh, distinct) =
              Distinct-middle before c after (subst Distinct e v.cache_distinct) in
            rw (q, add_cached)
              (cached-Adds (before ++ after) c s
                (omega (
                  arith,
                  length-moved before c after,
                  ap (λ (t : List (Contact Addr)). length t) e,
                  v.cache_fits,
                ))
                (All-removed P before c after under) distinct
                (subst (λ (t : KadId). Absent t (before ++ after)) n fresh) n)
        by_search _ q (missing fresh) = elim (Bool-cases (ltb (length b.cache) cache_size)) [
          | inl room ↦
              rw (q, room, add_cached)
                (cached-Adds b.cache (made s id addr) (made_store s)
                  (rw (length-append b.cache (made s id addr ∷ [])) (ground arith)) v.cache_under
                  v.cache_distinct fresh refl)
          | inr full ↦
              rw (q, full, add_cached)
                (cached-Adds (tail b.cache) (made s id addr) (made_store s)
                  (rw (length-append (tail b.cache) (made s id addr ∷ []), length-tail b.cache)
                    (omega (arith, v.cache_fits)))
                  (tail-keeps (λ (x : Contact Addr). Under local d i x.id) b.cache v.cache_under)
                  (Distinct-tail b.cache v.cache_distinct)
                  (tail-keeps (λ (x : Contact Addr). x.id ≢ id) b.cache fresh) refl)
        ]
