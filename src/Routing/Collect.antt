-- ===== src/Routing/Collect.antt =====
-- `FindClosest` in each case: how many contacts it collects from the two children, and which.
use kad.Common.{ℕ, suc, ◌+◌, ◌-◌, ◌≤◌, ◌<◌, ◌≡◌, refl, ap, ◌∙◌, arith, min}
use kad.Common.{true, false, List, [], ◌++◌, length, length-append, All, All-append}
use kad.Common.{Bool-cases, inl, inr, if◌then◌else◌, ltb, ◌==◌}
use native.Mathlib.Nat.{zero-add}
use kad.Common.{zero, add_comm, All-left, All-right}
use kad.NodeId.{xor, KadId, get_bit}
use kad.Contact.{Contact, Store}
use kad.Routing.{Bucket, Node, bucket, space}
use kad.Routing.Query.{closest, find_closest, get_contacts, select}
use kad.Routing.Select.{live, length-select, All-select}

module _ {ℓ} {Addr : Type ℓ} (s : Store) (id : KadId) where
  -- The two calls on the children: the near one, and the far one for what is still wanted.
  abbrev pub both : ℕ → List (Contact Addr) → List (Contact Addr) → List (Contact Addr)
  both qty near far = if ltb (length near) qty then near ++ far else near

  length-both :
      (qty n m : ℕ) (near far : List (Contact Addr))
      → length near ≡ min qty n
      → length far ≡ min (qty - length near) m
      → length (both qty near far) ≡ min qty (n + m)
  length-both qty n m near far e e' = elim (Bool-cases (ltb (length near) qty)) [
    | inl less ↦
        let h : length near < qty = ground arith in
        rw (less, length-append near far) (omega (arith, e, e', h))
    | inr full ↦ let h : qty ≤ length near = ground arith in rw full (omega (arith, e, h))
  ]

  All-both {κ} :
      (P : Contact Addr → Type κ) (qty : ℕ) (near far : List (Contact Addr))
      → All P near
      → All P far
      → All P (both qty near far)
  All-both P qty near far h h' = elim (Bool-cases (ltb (length near) qty)) [
    | inl less ↦ rw less (All-append P near far h h')
    | inr full ↦ rw full h
  ]

  -- `FindClosest` in each case.
  pub find_closest_none : (dist : KadId) (node : Node Addr) → find_closest s id dist 0 node ≡ []
  unfolding find_closest
  find_closest_none dist (bucket d i b) = refl
  find_closest_none dist (space d i m0 m1) = refl

  pub find_closest_bucket :
      (dist : KadId) (n d i : ℕ) (b : Bucket Addr)
      → find_closest s id dist (suc n) (bucket d i b) ≡ select s id (suc n) [] b.contacts
  unfolding find_closest
  find_closest_bucket dist n d i b =
      let something : (suc n == 0) ≡ false = ground arith in rw something refl

  module _ (dist : KadId) (n d i : ℕ) (m0 m1 : Node Addr) where
    pub find_closest_high :
        get_bit dist d ≡ true
        → find_closest s id dist (suc n) (space d i m0 m1)
          ≡ both
              (suc n)
              (find_closest s id dist (suc n) m1)
              (find_closest s id dist (suc n - length (find_closest s id dist (suc n) m1)) m0)
    unfolding find_closest
    find_closest_high one =
        let something : (suc n == 0) ≡ false = ground arith in rw (something, one) refl

    pub find_closest_low :
        get_bit dist d ≡ false
        → find_closest s id dist (suc n) (space d i m0 m1)
          ≡ both
              (suc n)
              (find_closest s id dist (suc n) m0)
              (find_closest s id dist (suc n - length (find_closest s id dist (suc n) m0)) m1)
    unfolding find_closest
    find_closest_low nil =
        let something : (suc n == 0) ≡ false = ground arith in rw (something, nil) refl

  pub length-find_closest :
      (dist : KadId) (node : Node Addr) (qty : ℕ)
      → length (find_closest s id dist qty node) ≡ min qty (length (get_contacts s node))
  unfolding get_contacts
  length-find_closest dist node zero = rw (find_closest_none dist node) (omega arith)
  length-find_closest dist (bucket d i b) (suc n) = rw (find_closest_bucket dist n d i b) (
      length-select s id (suc n) [] b.contacts (omega arith)
      ∙ ap (min (suc n)) (zero-add (length (live s id b.contacts))))
  length-find_closest dist (space d i m0 m1) (suc n) =
      let all = length-append (get_contacts s m0) (get_contacts s m1) in
      elim (Bool-cases (get_bit dist d)) [
        | inl one ↦
            rw (find_closest_high dist n d i m0 m1 one, all)
              (length-both (suc n) (length (get_contacts s m1)) (length (get_contacts s m0)) _ _
                  (length-find_closest dist m1 (suc n)) (length-find_closest dist m0 _)
                ∙ ap (min (suc n)) (add_comm _ (length (get_contacts s m0))))
        | inr nil ↦
            rw (find_closest_low dist n d i m0 m1 nil, all)
              (length-both (suc n) (length (get_contacts s m0)) (length (get_contacts s m1)) _ _
                (length-find_closest dist m0 (suc n)) (length-find_closest dist m1 _))
      ]

  pub All-find_closest {κ} :
      (P : Contact Addr → Type κ) (dist : KadId) (node : Node Addr) (qty : ℕ)
      → All P (get_contacts s node)
      → All P (find_closest s id dist qty node)
  unfolding get_contacts
  All-find_closest P dist node zero h = rw (find_closest_none dist node) tt
  All-find_closest P dist (bucket d i b) (suc n) h =
      rw (find_closest_bucket dist n d i b) (All-select s id P (suc n) [] b.contacts tt h)
  All-find_closest P dist (space d i m0 m1) (suc n) h =
      let h0 = All-left P (get_contacts s m0) (get_contacts s m1) h in
      let h1 = All-right P (get_contacts s m0) (get_contacts s m1) h in
      elim (Bool-cases (get_bit dist d)) [
        | inl one ↦ rw (find_closest_high dist n d i m0 m1 one) (
            All-both P (suc n) _ _ (All-find_closest P dist m1 (suc n) h1)
              (All-find_closest P dist m0 _ h0))
        | inr nil ↦ rw (find_closest_low dist n d i m0 m1 nil) (
            All-both P (suc n) _ _ (All-find_closest P dist m0 (suc n) h0)
              (All-find_closest P dist m1 _ h1))
      ]

  -- `FindClosest(id, qty)` returns min(qty, n) contacts, where n is the number of contacts that
  -- `GetContacts` returns, those that are not stale.
  pub length-closest :
      (local : KadId) (qty : ℕ) (node : Node Addr)
      → length (closest local s id qty node) ≡ min qty (length (get_contacts s node))
  unfolding closest
  length-closest local qty node = length-find_closest (xor id local) node qty

  -- What holds of all contacts that `GetContacts` returns holds of all that `FindClosest` returns.
  pub All-closest {κ} :
      (P : Contact Addr → Type κ) (local : KadId) (qty : ℕ) (node : Node Addr)
      → All P (get_contacts s node)
      → All P (closest local s id qty node)
  unfolding closest
  All-closest P local qty node h = All-find_closest P (xor id local) node qty h
