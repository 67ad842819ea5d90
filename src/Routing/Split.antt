-- ===== src/Routing/Split.antt =====
-- `Split` of a bucket that keeps the invariant.
use mathlib.Core.List.{append_assoc, append-nil}
use kad.Common.{
  ℕ, ◌+◌, ◌*◌, ◌≤◌, ◌≡◌, ◌≢◌, ◌⊎◌, refl, sym, ap, ap₂, ◌∙◌, arith, Bool, true, false, not,
}
use kad.Common.{List, [], ◌∷◌, ◌++◌, length, All, some, none, Bool-cases, inl, inr}
use kad.Config.{id_size}
use kad.NodeId.{KadId, xor, get_bit}
use kad.NodeId.Value.{IsId}
use kad.Contact.{Contact}
use kad.Routing.{Bucket, Node, bucket, space, may_split, is_splittable, split, split_contacts}
use kad.Routing.{split_cache, split_halves, append_contact, no_contacts}
use kad.Routing.Query.{keep_if}
use kad.Routing.Items.{Distinct}
use kad.Routing.Place.{Under, IsPlace, Under-child, split-IsPlace}
use kad.Routing.Invariant.{IsBucket, IsTable}

false_of_not : (x : Bool) → not x ≡ true → x ≡ false
false_of_not x h = ground arith

module _ {ℓ} {Addr : Type ℓ} where
  abbrev pub high : KadId → ℕ → Contact Addr → Bool
  high local d c = get_bit (xor local c.id) d

  abbrev pub low : KadId → ℕ → Contact Addr → Bool
  low local d c = not (get_bit (xor local c.id) d)

  abbrev extended : Bucket Addr → List (Contact Addr) → Bucket Addr
  extended b cs = record b { contacts = b.contacts ++ cs }

  extended-append_contact :
      (c : Contact Addr) (b : Bucket Addr) (cs : List (Contact Addr))
      → extended (append_contact c b) cs ≡ extended b (c ∷ cs)
  unfolding append_contact
  extended-append_contact c b cs =
      ap (λ (t : List (Contact Addr)). record b { contacts = t })
        (append_assoc b.contacts (c ∷ []) cs)

  split_contacts_lem :
      (local : KadId) (d : ℕ) (cs : List (Contact Addr)) (m0 m1 : Bucket Addr)
      → split_contacts local d cs (m0, m1)
        ≡ (extended m0 (keep_if (low local d) cs), extended m1 (keep_if (high local d) cs))
  unfolding split_contacts
  split_contacts_lem local d [] m0 m1 =
      ap₂
        (λ (x y : List (Contact Addr)).
          let r : Bucket Addr × Bucket Addr =
            (record m0 { contacts = x }, record m1 { contacts = y }) in
          r)
        (sym (append-nil m0.contacts)) (sym (append-nil m1.contacts))
  split_contacts_lem local d (c ∷ cs) m0 m1 = elim (Bool-cases (get_bit (xor local c.id) d)) [
    | inl one ↦ rw one (
        split_contacts_lem local d cs m0 (append_contact c m1)
        ∙ ap (λ (t : Bucket Addr). (extended m0 (keep_if (low local d) cs), t))
            (extended-append_contact c m1 _))
    | inr nil ↦ rw nil (
        split_contacts_lem local d cs (append_contact c m0) m1
        ∙ ap (λ (t : Bucket Addr). (t, extended m1 (keep_if (high local d) cs)))
            (extended-append_contact c m0 _))
  ]

  module _ (p : Contact Addr → Bool) where
    length-keep_if : (cs : List (Contact Addr)) → length (keep_if p cs) ≤ length cs
    length-keep_if [] = omega arith
    length-keep_if (c ∷ cs) = ground (arith, length-keep_if cs)

    pub All-keep_if {κ} :
        (P : Contact Addr → Type κ) (cs : List (Contact Addr)) → All P cs → All P (keep_if p cs)
    All-keep_if P [] h = tt
    All-keep_if P (c ∷ cs) h = elim (Bool-cases (p c)) [
      | inl t ↦ rw t (h.0, All-keep_if P cs h.1)
      | inr f ↦ rw f (All-keep_if P cs h.1)
    ]

    -- What is kept satisfies the test.
    All-kept {κ} :
        (P : Contact Addr → Type κ) (Q : Contact Addr → Type κ)
        (f : (c : Contact Addr) → P c → p c ≡ true → Q c) (cs : List (Contact Addr))
        → All P cs
        → All Q (keep_if p cs)
    All-kept P Q f [] h = tt
    All-kept P Q f (c ∷ cs) h = elim (Bool-cases (p c)) [
      | inl t ↦ rw t (f c h.0 t, All-kept P Q f cs h.1)
      | inr e ↦ rw e (All-kept P Q f cs h.1)
    ]

    Distinct-keep_if : (cs : List (Contact Addr)) → Distinct cs → Distinct (keep_if p cs)
    Distinct-keep_if [] h = tt
    Distinct-keep_if (c ∷ cs) h = elim (Bool-cases (p c)) [
      | inl t ↦
          rw t (All-keep_if (λ (x : Contact Addr). x.id ≢ c.id) cs h.0, Distinct-keep_if cs h.1)
      | inr f ↦ rw f (Distinct-keep_if cs h.1)
    ]

  -- The two buckets that `Split` makes of a bucket with an empty cache.
  abbrev pub half : (Contact Addr → Bool) → Bucket Addr → Bucket Addr
  half p b = record { contacts = keep_if p b.contacts; cache = [] }

  abbrev pub halved : KadId → ℕ → ℕ → Bucket Addr → Node Addr
  halved local d i b =
      space d i (bucket (d + 1) (i * 2) (half (low local d) b))
        (bucket (d + 1) (i * 2 + 1) (half (high local d) b))

  nil_of_length : (cs : List (Contact Addr)) → length cs ≡ 0 → cs ≡ []
  nil_of_length [] h = refl
  nil_of_length (c ∷ cs) h = absurd (omega (arith, h))

  -- A bucket that can split caches nothing: the second loop of `Split` has nothing to do.
  pub cache_empty :
      (local : KadId) (d i : ℕ) (b : Bucket Addr)
      → IsBucket local d i b
      → may_split d i ≡ true
      → b.cache ≡ []
  cache_empty local d i b v m = elim v.closed [
    | inl nothing ↦ nil_of_length b.cache nothing
    | inr whole ↦ absurd (cc (m, whole))
  ]

  half-IsBucket :
      (local : KadId) (d i j : ℕ) (p : Contact Addr → Bool) (b : Bucket Addr)
      → IsBucket local d i b
      → IsPlace (d + 1) j
      → ((c : Contact Addr) → Under local d i c.id → p c ≡ true → Under local (d + 1) j c.id)
      → IsBucket local (d + 1) j (half p b)
  half-IsBucket local d i j p b v place down = record {
    place = place;
    contacts_fit = omega (arith, length-keep_if p b.contacts, v.contacts_fit);
    cache_fits = omega arith;
    contacts_under =
        All-kept p (λ (c : Contact Addr). Under local d i c.id)
          (λ (c : Contact Addr). Under local (d + 1) j c.id) down b.contacts v.contacts_under;
    cache_under = tt;
    distinct = Distinct-keep_if p b.contacts v.distinct;
    cache_distinct = tt;
    closed = inl refl;
  }

  halved-IsTable :
      (local : KadId) (d i : ℕ) (b : Bucket Addr)
      → IsId id_size local
      → IsBucket local d i b
      → may_split d i ≡ true
      → IsTable local d i (halved local d i b)
  halved-IsTable local d i b l v m =
      let (deep, place0, place1, _, _) = split-IsPlace d i v.place m in
      let down = λ (c : Contact Addr) (u : Under local d i c.id).
        Under-child local d i c.id l v.place.deep u in
      (
        refl,
        refl,
        deep,
        v.place,
        (
          refl,
          refl,
          half-IsBucket local d i (i * 2) (low local d) b v place0
              λ c u e. rw (false_of_not _ e) at (down c u),
        ),
        (
          refl,
          refl,
          half-IsBucket local d i (i * 2 + 1) (high local d) b v place1 λ c u e. rw e at (down c u),
        ),
      )

  split_halves_lem :
      (local : KadId) (d : ℕ) (b : Bucket Addr)
      → b.cache ≡ []
      → split_halves local d b ≡ (half (low local d) b, half (high local d) b)
  unfolding split_halves split_cache
  split_halves_lem local d b e =
      rw e (split_contacts_lem local d b.contacts no_contacts no_contacts)

  may_of_splittable :
      (d i : ℕ) (b : Bucket Addr) → is_splittable d i b ≡ true → may_split d i ≡ true
  unfolding is_splittable
  may_of_splittable d i b h = ground arith

  -- For a local id of 20 bytes and a bucket that keeps the invariant, `Split` either refuses, and
  -- the bucket is not splittable, or the bucket may split and becomes a node with two buckets:
  -- each has the contacts whose distance has its next bit, in their old order, and an empty cache,
  -- and the node keeps the invariant.
  pub split_cases :
      (local : KadId) (d i : ℕ) (b : Bucket Addr)
      → IsId id_size local
      → IsBucket local d i b
      → ((split local d i b ≡ none) × (is_splittable d i b ≡ false))
        ⊎ ((split local d i b ≡ some (halved local d i b))
            × (may_split d i ≡ true)
            × IsTable local d i (halved local d i b))
  unfolding split
  split_cases local d i b l v = elim (Bool-cases (is_splittable d i b)) [
    | inl ok ↦
        let m = may_of_splittable d i b ok in
        let (_, _, _, e0, e1) = split-IsPlace d i v.place m in
        let halves = split_halves_lem local d b (cache_empty local d i b v m) in
        inr (
          rw (ok, halves)
              (ap₂
                (λ (x y : ℕ). some (
                  space d i (bucket (d + 1) x (half (low local d) b))
                    (bucket (d + 1) y (half (high local d) b))))
                e0 e1),
          m,
          halved-IsTable local d i b l v m,
        )
    | inr full ↦ inl (rw full refl, full)
  ]
