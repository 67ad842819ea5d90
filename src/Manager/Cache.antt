-- ===== src/Manager/Cache.antt =====
-- src/KadOpMgr.h, `CheckInCache`: the cache of contacts, the one used last at the end.
use kad.Common.{suc, ◌≤◌, ◌≡◌, ◌≢◌, refl, sym, ap, subst, arith, Bool, true, false}
use kad.Common.{Option, some, none, List, [], ◌∷◌, ◌++◌, length, length-append, All, All-append}
use kad.Common.{All-removed, Bool-cases, inl, inr, ltb, if◌then◌else◌}
use mathlib.Core.List.{append-nil}
use kad.Config.{id_size}
use kad.NodeId.{KadId, id_eq}
use kad.NodeId.Value.{IsId, id_eq_iff}
use kad.Contact.{Contact, Store, made, made_store}
use kad.Routing.Query.{find_in}
use kad.Routing.Items.{Valid, Absent, Distinct, Search, found, missing, ne_of_id_eq, length-moved}
use kad.Routing.Items.{Distinct-middle, Distinct-end, find_in-end}

pub record Cached {ℓ} (Addr : Type ℓ) : Type ℓ where
  pub cache : List (Contact Addr)
  pub store : Store
  pub contact : Contact Addr
  pub hit : Bool

module _ {ℓ} {Addr : Type ℓ} where
  -- The loop that looks for the id.
  unfoldable pub find_place :
      List (Contact Addr)
      → KadId
      → Option (List (Contact Addr) × Contact Addr × List (Contact Addr))
  find_place [] id = none
  find_place (x ∷ xs) id =
      let rest = find_place xs id in
      if id_eq id x.id
      then some ([], x, xs)
      else elim rest [ some (before, c, after) ↦ some (x ∷ before, c, after) | none ↦ none ]

  -- The oldest are dropped while there are more than 64.
  unfoldable pub forget : List (Contact Addr) → List (Contact Addr)
  forget [] = []
  forget (c ∷ cs) = let rest = forget cs in if ltb 64 (suc (length cs)) then rest else c ∷ cs

  abbrev pub touched :
      List (Contact Addr) → Contact Addr → List (Contact Addr) → List (Contact Addr)
  touched before c [] = before ++ c ∷ []
  touched before c (d ∷ after) = (before ++ d ∷ after) ++ c ∷ []

  unfoldable pub check_in_cache : KadId → Addr → Store → List (Contact Addr) → Cached Addr
  check_in_cache id addr s cache = elim (find_place cache id) [
    | some (before, c, after) ↦ record {
      cache = touched before c after;
      store = s;
      contact = c;
      hit = true;
    }
    | none ↦ record {
      cache = forget (cache ++ made s id addr ∷ []);
      store = made_store s;
      contact = made s id addr;
      hit = false;
    }
  ]

  find_place-Search :
      (id : KadId) (cs : List (Contact Addr))
      → IsId id_size id
      → All Valid cs
      → Search id cs (find_place cs id)
  unfolding find_place
  find_place-Search id [] p v = missing tt
  find_place-Search id (x ∷ xs) p v = elim (Bool-cases (id_eq id x.id)) [
    | inl here ↦ rw here (found refl (sym ((id_eq_iff id_size id x.id p v.0).0 here)))
    | inr other ↦
        rw other (
          later (ne_of_id_eq id x.id p v.0 other) (find_place xs id)
            (find_place-Search id xs p v.1))
  ]
    where
      later :
          id ≢ x.id
          → (o : Option (List (Contact Addr) × Contact Addr × List (Contact Addr))) → Search id xs o
          → Search id
              (x ∷ xs)
              (elim o [ some (before, c, after) ↦ some (x ∷ before, c, after) | none ↦ none ])
      later ne _ (found e h) = found (ap (λ (t : List (Contact Addr)). x ∷ t) e) h
      later ne _ (missing a) = missing ((λ e. ne (sym e), a))

  touched_lem :
      (before : List (Contact Addr)) (c : Contact Addr) (after : List (Contact Addr))
      → touched before c after ≡ (before ++ after) ++ c ∷ []
  touched_lem before c [] = ap (λ (t : List (Contact Addr)). t ++ c ∷ []) (sym (append-nil before))
  touched_lem before c (d ∷ after) = refl

  forget_small : (cs : List (Contact Addr)) → length cs ≤ 64 → forget cs ≡ cs
  unfolding forget
  forget_small [] h = refl
  forget_small (c ∷ cs) h = let few : ltb 64 (suc (length cs)) ≡ false = ground arith in rw few refl

  -- A list of at most 64 contacts, and one more: the first of 65 goes.
  data Kept (cs : List (Contact Addr)) (c : Contact Addr) : List (Contact Addr) → Type ℓ where
    all_kept : length (cs ++ c ∷ []) ≤ 64 → Kept cs c (cs ++ c ∷ [])
    first_dropped :
        (d : Contact Addr) (ds : List (Contact Addr))
        → cs ≡ d ∷ ds
        → length (ds ++ c ∷ []) ≤ 64
        → Kept cs c (ds ++ c ∷ [])

  forget-Kept :
      (cs : List (Contact Addr)) (c : Contact Addr)
      → length cs ≤ 64
      → Kept cs c (forget (cs ++ c ∷ []))
  unfolding forget
  forget-Kept [] c h = all_kept (omega arith)
  forget-Kept (d ∷ ds) c h =
      let more = length-append ds (c ∷ []) in
      elim (Bool-cases (ltb 64 (suc (length (ds ++ c ∷ []))))) [
        | inl full ↦
            let fits : length (ds ++ c ∷ []) ≤ 64 = omega (arith, more, h) in
            rw (full, forget_small (ds ++ c ∷ []) fits) (first_dropped d ds refl fits)
        | inr few ↦ rw few (all_kept (ground arith))
      ]

  -- A cache of at most 64 contacts with different ids of 20 bytes.
  pub record IsCache (cs : List (Contact Addr)) : Type 0 where
    pub fits : length cs ≤ 64
    pub valid : All Valid cs
    pub distinct : Distinct cs

  -- A contact at the end of a cache.
  end-IsCache :
      (id : KadId) (cs : List (Contact Addr)) (c : Contact Addr)
      → length (cs ++ c ∷ []) ≤ 64
      → IsId id_size id
      → c.id ≡ id
      → All Valid cs
      → Distinct cs
      → Absent id cs
      → IsCache (cs ++ c ∷ []) × (find_in id (cs ++ c ∷ []) ≡ some c)
  end-IsCache id cs c fits w n v d a = (
    record {
      fits = fits;
      valid = All-append Valid cs (c ∷ []) v (subst (IsId id_size) (sym n) w, tt);
      distinct = Distinct-end cs c d (subst (λ (t : KadId). Absent t cs) (sym n) a);
    },
    find_in-end id cs c w v a n,
  )

  missed :
      (id : KadId) (cs : List (Contact Addr)) (c : Contact Addr)
      → IsCache cs
      → IsId id_size id
      → c.id ≡ id
      → Absent id cs
      → (cs' : List (Contact Addr)) → Kept cs c cs'
      → IsCache cs' × (find_in id cs' ≡ some c)
  missed id cs c k w n a _ (all_kept fits) = end-IsCache id cs c fits w n k.valid k.distinct a
  missed id cs c k w n a _ (first_dropped d ds e fits) =
      end-IsCache id ds c fits w n (subst (λ (t : List (Contact Addr)). All Valid t) e k.valid).1
        (subst (λ (t : List (Contact Addr)). Distinct t) e k.distinct).1
        (subst (λ (t : List (Contact Addr)). Absent id t) e a).1

  -- For an id of 20 bytes and a cache of at most 64 contacts with different ids of 20 bytes,
  -- `CheckInCache` leaves such a cache; the contact that it returns has the id, and is the one
  -- that the cache now has for it.
  pub check_in_cache-IsCache :
      (id : KadId) (addr : Addr) (s : Store) (cache : List (Contact Addr))
      → IsCache cache
      → IsId id_size id
      → let r = check_in_cache id addr s cache in
        IsCache r.cache × (r.contact.id ≡ id) × (find_in id r.cache ≡ some r.contact)
  unfolding check_in_cache
  check_in_cache-IsCache id addr s cache k w =
      by_place (find_place cache id) refl (find_place-Search id cache w k.valid)
    where
      by_place :
          (o : Option (List (Contact Addr) × Contact Addr × List (Contact Addr)))
          → find_place cache id ≡ o
          → Search id cache o
          → let r = check_in_cache id addr s cache in
            IsCache r.cache × (r.contact.id ≡ id) × (find_in id r.cache ≡ some r.contact)
      by_place _ q (found {before} {after} {c} e n) =
          let (fresh, distinct) =
            Distinct-middle before c after
              (subst (λ (t : List (Contact Addr)). Distinct t) e k.distinct) in
          let absent : Absent id (before ++ after) =
            subst (λ (t : KadId). Absent t (before ++ after)) n fresh in
          let valid =
            All-removed Valid before c after
              (subst (λ (t : List (Contact Addr)). All Valid t) e k.valid) in
          let fits : length ((before ++ after) ++ c ∷ []) ≤ 64 = omega (
            arith,
            length-moved before c after,
            ap (λ (t : List (Contact Addr)). length t) e,
            k.fits,
          ) in
          let (whole, here) = end-IsCache id (before ++ after) c fits w n valid distinct absent in
          rw (q, check_in_cache, touched_lem before c after) (whole, n, here)
      by_place _ q (missing a) =
          let c = made s id addr in
          let (whole, here) =
            missed id cache c k w refl a (forget (cache ++ c ∷ [])) (forget-Kept cache c k.fits) in
          rw (q, check_in_cache) (whole, refl, here)
