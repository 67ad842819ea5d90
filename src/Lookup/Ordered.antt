-- ===== src/Lookup/Ordered.antt =====
-- `Insert` and an ordered insertion by the distance to the key, cut to the size of a bucket.
use kad.Common.{ℕ, zero, suc, ◌≤◌, ◌<◌, ◌≡◌, refl, sym, ap, ◌∙◌, arith, true, false}
use kad.Common.{List, [], ◌∷◌, ◌++◌, ltb, ◌==◌, if◌then◌else◌, length, take, All, ==_iff}
use kad.Common.{Bool-cases, inl, inr, length-append, take_all, take-append, length-take, All-take}
use kad.Config.{bucket_size, id_size}
use kad.NodeId.{KadId, xor, id_eq, closer}
use kad.NodeId.Value.{IsId, value, id_eq_iff, id_of_value}
use kad.NodeId.Metric.{closer_iff, xor_cancel, xor-IsId}
use kad.Contact.{Contact}
use kad.Routing.Items.{Valid}
use kad.Lookup.{Spot, existing, at_end, in_front, after_first, find_spot, insert, pop_back}

module _ {ℓ} {Addr : Type ℓ} where
  pop_back_lem : (n : ℕ) (cs : List (Contact Addr)) → length cs ≡ suc n → pop_back cs ≡ take n cs
  pop_back_lem n [] h = absurd (omega arith)
  pop_back_lem zero (c ∷ []) h = refl
  pop_back_lem (suc n) (c ∷ []) h = absurd (omega arith)
  pop_back_lem zero (c ∷ d ∷ cs) h = absurd (omega arith)
  pop_back_lem (suc n) (c ∷ d ∷ cs) h =
      ap (λ (t : List (Contact Addr)). c ∷ t) (pop_back_lem n (d ∷ cs) (omega arith))

module _ {ℓ} {Addr : Type ℓ} (key : KadId) where
  abbrev pub distance : Contact Addr → ℕ
  distance c = value (xor key c.id)

  -- Each contact is closer to the key than all that come after it.
  abbrev pub IsSorted : List (Contact Addr) → Type 0
  IsSorted [] = Unit {0}
  IsSorted (c ∷ cs) = All (λ x. distance c < distance x) cs × IsSorted cs

  -- Ordered insertion, of a distance that is not there yet.
  abbrev pub ranked : Contact Addr → List (Contact Addr) → List (Contact Addr)
  ranked c [] = c ∷ []
  ranked c (x ∷ xs) =
      if distance c == distance x
      then x ∷ xs
      else if ltb (distance c) (distance x)
      then c ∷ x ∷ xs
      else x ∷ ranked c xs

  All-ranked :
      (P : Contact Addr → Type 0) (c : Contact Addr) (xs : List (Contact Addr))
      → P c
      → All P xs
      → All P (ranked c xs)
  All-ranked P c [] p h = (p, tt)
  All-ranked P c (x ∷ xs) p h = elim (Bool-cases (distance c == distance x)) [
    | inl same ↦ rw same h
    | inr other ↦ elim (Bool-cases (ltb (distance c) (distance x))) [
      | inl less ↦ rw (other, less) (p, h)
      | inr more ↦ rw (other, more) (h.0, All-ranked P c xs p h.1)
    ]
  ]

  All_farther :
      (n m : ℕ) (xs : List (Contact Addr))
      → n < m
      → All (λ x. m < distance x) xs
      → All (λ x. n < distance x) xs
  All_farther n m [] h a = tt
  All_farther n m (x ∷ xs) h a = (omega (arith, a.0), All_farther n m xs h a.1)

  ranked-IsSorted :
      (c : Contact Addr) (xs : List (Contact Addr)) → IsSorted xs → IsSorted (ranked c xs)
  ranked-IsSorted c [] s = (tt, tt)
  ranked-IsSorted c (x ∷ xs) s = elim (Bool-cases (distance c == distance x)) [
    | inl same ↦ rw same s
    | inr other ↦ elim (Bool-cases (ltb (distance c) (distance x))) [
      | inl less ↦
          let h : distance c < distance x = ground arith in
          rw (other, less) ((h, All_farther (distance c) (distance x) xs h s.0), s)
      | inr more ↦
          rw (other, more)
            (
              All-ranked (λ y. distance x < distance y) c xs (ground arith) s.0,
              ranked-IsSorted c xs s.1,
            )
    ]
  ]

  take-IsSorted : (n : ℕ) (xs : List (Contact Addr)) → IsSorted xs → IsSorted (take n xs)
  take-IsSorted zero xs s = tt
  take-IsSorted (suc n) [] s = tt
  take-IsSorted (suc n) (x ∷ xs) s =
      (All-take (λ y. distance x < distance y) n xs s.0, take-IsSorted n xs s.1)

  -- A place in the list, as a place in the ordered insertion.
  abbrev Placed : Contact Addr → List (Contact Addr) → Spot Addr → Type ℓ
  Placed c list existing = ranked c list ≡ list
  Placed c list at_end = ranked c list ≡ list ++ c ∷ []
  Placed c list (in_front xs ys) = (list ≡ xs ++ ys) × (ranked c list ≡ xs ++ c ∷ ys)

  after_first-Placed :
      (c x : Contact Addr) (xs : List (Contact Addr)) (spot : Spot Addr)
      → ranked c (x ∷ xs) ≡ x ∷ ranked c xs
      → Placed c xs spot
      → Placed c (x ∷ xs) (after_first x spot)
  after_first-Placed c x xs existing e h = e ∙ ap (λ (t : List (Contact Addr)). x ∷ t) h
  after_first-Placed c x xs at_end e h = e ∙ ap (λ (t : List (Contact Addr)). x ∷ t) h
  after_first-Placed c x xs (in_front us ws) e (split, h) =
      (ap (λ (t : List (Contact Addr)). x ∷ t) split, e ∙ ap (λ (t : List (Contact Addr)). x ∷ t) h)

  module _ (v : IsId id_size key) (c : Contact Addr) (vc : Valid c) where
    distance_ne :
        (x : Contact Addr) → Valid x → id_eq c.id x.id ≡ false → (distance c == distance x) ≡ false
    distance_ne x vx ne = elim (Bool-cases (distance c == distance x)) [
      | inl same ↦
          let e : xor key c.id ≡ xor key x.id =
            id_of_value id_size _ _ (xor-IsId id_size key c.id v vc)
              (xor-IsId id_size key x.id v vx) ((==_iff (distance c) (distance x)).0 same) in
          let ids : c.id ≡ x.id =
            sym (xor_cancel id_size key c.id v vc)
            ∙ ap (xor key) e
            ∙ xor_cancel id_size key x.id v vx in
          absurd (cc ((id_eq_iff id_size c.id x.id vc vx).1 ids, ne))
      | inr other ↦ other
    ]

    find_spot-Placed :
        (list : List (Contact Addr)) → All Valid list → Placed c list (find_spot key c list)
    unfolding find_spot
    find_spot-Placed [] h = refl
    find_spot-Placed (x ∷ xs) h = elim (Bool-cases (id_eq c.id x.id)) [
      | inl same ↦
          let ids = (id_eq_iff id_size c.id x.id vc h.0).0 same in
          let equal : (distance c == distance x) ≡ true =
            (==_iff (distance c) (distance x)).1 (ap (λ (t : KadId). value (xor key t)) ids) in
          rw (same, equal) refl
      | inr other ↦
          let ne = distance_ne x h.0 other in
          let order = closer_iff id_size key c.id x.id v vc h.0 in
          elim (Bool-cases (closer key c.id x.id)) [
            | inl near ↦
                let less : ltb (distance c) (distance x) ≡ true = ground (arith, order) in
                rw (other, near, ne, less) (refl, refl)
            | inr far ↦
                let more : ltb (distance c) (distance x) ≡ false = ground (arith, order) in
                rw (other, far)
                  (after_first-Placed c x xs (find_spot key c xs) (rw (ne, more) refl)
                    (find_spot-Placed xs h.1))
          ]
    ]

    -- For ids of 20 bytes and a list of at most 16 contacts, the list after `Insert` is the first
    -- 16 of the ordered insertion by the distance to the key.
    pub insert_lem :
        (list : List (Contact Addr))
        → All Valid list
        → length list ≤ bucket_size
        → (insert key c list).0 ≡ take bucket_size (ranked c list)
    unfolding insert
    insert_lem list h fits = by_spot (find_spot key c list) refl (find_spot-Placed list h)
      where
        by_spot :
            (spot : Spot Addr)
            → find_spot key c list ≡ spot
            → Placed c list spot
            → (insert key c list).0 ≡ take bucket_size (ranked c list)
        by_spot existing q p = rw (q, insert, p) (sym (take_all bucket_size list fits))
        by_spot at_end q p = elim (Bool-cases (ltb (length list) bucket_size)) [
          | inl room ↦
              rw (q, room, insert, p)
                (sym (
                  take_all bucket_size (list ++ c ∷ [])
                    (rw (length-append list (c ∷ [])) (ground arith))))
          | inr full ↦
              rw (q, full, insert, p) (sym (take-append bucket_size list (c ∷ []) (ground arith)))
        ]
        by_spot (in_front xs ys) q (split, p) =
            let more : length (xs ++ c ∷ ys) ≡ suc (length list) = omega (
              arith,
              length-append xs (c ∷ ys),
              length-append xs ys,
              ap (λ (t : List (Contact Addr)). length t) split,
            ) in
            elim (Bool-cases (ltb (length list) bucket_size)) [
              | inl room ↦
                  rw (q, room, insert, p)
                    (sym (take_all bucket_size (xs ++ c ∷ ys) (ground (arith, more))))
              | inr full ↦
                  rw (q, full, insert, p)
                    (pop_back_lem bucket_size (xs ++ c ∷ ys) (ground (arith, more)))
            ]

    -- For ids of 20 bytes and a list of at most 16 contacts in which each is closer to the key
    -- than all after it, the list after `Insert` is so again: ordered, at most 16, of ids of 20
    -- bytes.
    pub insert-IsSorted :
        (list : List (Contact Addr))
        → All Valid list
        → length list ≤ bucket_size
        → IsSorted list
        → IsSorted (insert key c list).0
          × (length (insert key c list).0 ≤ bucket_size)
          × All Valid (insert key c list).0
    insert-IsSorted list h fits s = rw (insert_lem list h fits) (
      take-IsSorted bucket_size (ranked c list) (ranked-IsSorted c list s),
      length-take bucket_size (ranked c list),
      All-take Valid bucket_size (ranked c list) (All-ranked Valid c list vc h),
    )
