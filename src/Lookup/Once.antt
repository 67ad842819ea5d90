-- ===== src/Lookup/Once.antt =====
-- Lists without the same contact twice: joined, split, and with a contact taken out.
use kad.Common.{ℕ, ◌≡◌, ◌≢◌, refl, sym, ap, ap₂, ◌∙◌, arith, Bool, true, false}
use kad.Common.{List, [], ◌∷◌, ◌++◌, ◌==◌, All, ==_iff, ◌||◌}
use kad.Common.{Bool-cases, inl, inr}
use kad.Contact.{Contact}
use kad.Lookup.{holds, without}
use kad.Lookup.Sent.{holds-append, Once}

module _ {ℓ} {Addr : Type ℓ} where
  -- Only the number of a contact matters.
  holds_same :
      (cs : List (Contact Addr)) (c d : Contact Addr) → c.ref ≡ d.ref → holds cs c ≡ holds cs d
  unfolding holds
  holds_same [] c d e = refl
  holds_same (x ∷ xs) c d e = ap₂ (λ (r : ℕ) (b : Bool). (x.ref == r) || b) e (holds_same xs c d e)

  away_all :
      (c : Contact Addr) (cs : List (Contact Addr))
      → holds cs c ≡ false
      → All (λ y. y.ref ≢ c.ref) cs
  unfolding holds
  away_all c [] h = tt
  away_all c (x ∷ xs) h =
      let other : (x.ref == c.ref) ≡ false = ground arith in
      (λ e. cc ((==_iff x.ref c.ref).1 e, other), away_all c xs (ground arith))

  holds_removed :
      (x c : Contact Addr) (xs ys : List (Contact Addr))
      → holds (xs ++ c ∷ ys) x ≡ false
      → (holds (xs ++ ys) x ≡ false) × (c.ref ≢ x.ref)
  unfolding holds
  holds_removed x c xs ys h =
      let parts = holds-append xs (c ∷ ys) x in
      let other : (c.ref == x.ref) ≡ false = ground arith in
      (rw (holds-append xs ys x) (ground arith), λ e. cc ((==_iff c.ref x.ref).1 e, other))

  pub Once-middle :
      (xs : List (Contact Addr)) (c : Contact Addr) (ys : List (Contact Addr))
      → Once (xs ++ c ∷ ys)
      → All (λ y. y.ref ≢ c.ref) (xs ++ ys) × Once (xs ++ ys)
  Once-middle [] c ys o = (away_all c ys o.0, o.1)
  Once-middle (x ∷ xs) c ys o =
      let (apart, once) = Once-middle xs c ys o.1 in
      let (away, ne) = holds_removed x c xs ys o.0 in ((λ e. ne (sym e), apart), (away, once))

  pub Once-append_right : (xs ys : List (Contact Addr)) → Once (xs ++ ys) → Once ys
  Once-append_right [] ys o = o
  Once-append_right (x ∷ xs) ys o = Once-append_right xs ys o.1

  pub Once-append :
      (xs ys : List (Contact Addr))
      → Once xs
      → Once ys
      → All (λ x. holds ys x ≡ false) xs
      → Once (xs ++ ys)
  Once-append [] ys o p h = p
  Once-append (x ∷ xs) ys o p h =
      (rw (holds-append xs ys x, o.0, h.0) refl, Once-append xs ys o.1 p h.1)

  -- What is in the first part is not in the second.
  pub Once-apart :
      (xs ys : List (Contact Addr)) (c : Contact Addr)
      → Once (xs ++ ys)
      → holds xs c ≡ true
      → holds ys c ≡ false
  unfolding holds
  Once-apart [] ys c o h = absurd (cc h)
  Once-apart (x ∷ xs) ys c o h = elim (Bool-cases (x.ref == c.ref)) [
    | inl same ↦
        let e = (==_iff x.ref c.ref).0 same in
        let away : (holds xs x || holds ys x) ≡ false = sym (holds-append xs ys x) ∙ o.0 in
        sym (holds_same ys x c e) ∙ ground arith
    | inr other ↦ Once-apart xs ys c o.1 (rw other at h)
  ]

  -- Taking a contact out.
  pub holds-without :
      (c y : Contact Addr) (xs : List (Contact Addr))
      → y.ref ≢ c.ref
      → holds (without xs c) y ≡ holds xs y
  unfolding holds without
  holds-without c y [] ne = refl
  holds-without c y (x ∷ xs) ne = elim (Bool-cases (x.ref == c.ref)) [
    | inl same ↦
        let other : (x.ref == y.ref) ≡ false =
          ground (arith, ==_iff x.ref y.ref, ==_iff x.ref c.ref) in
        rw (same, other) refl
    | inr apart ↦ rw apart (ap (λ (t : Bool). (x.ref == y.ref) || t) (holds-without c y xs ne))
  ]

  holds-without-false :
      (c y : Contact Addr) (xs : List (Contact Addr))
      → holds xs y ≡ false
      → holds (without xs c) y ≡ false
  unfolding holds without
  holds-without-false c y [] h = refl
  holds-without-false c y (x ∷ xs) h = elim (Bool-cases (x.ref == c.ref)) [
    | inl same ↦ rw same (ground arith)
    | inr apart ↦
        let other : (x.ref == y.ref) ≡ false = ground arith in
        rw (apart, other) (holds-without-false c y xs (rw other at h))
  ]

  pub without-Once : (c : Contact Addr) (xs : List (Contact Addr)) → Once xs → Once (without xs c)
  unfolding without
  without-Once c [] o = tt
  without-Once c (x ∷ xs) o = elim (Bool-cases (x.ref == c.ref)) [
    | inl same ↦ rw same o.1
    | inr apart ↦ rw apart (holds-without-false c x xs o.0, without-Once c xs o.1)
  ]
