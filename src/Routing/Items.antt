-- ===== src/Routing/Items.antt =====
-- Lists of contacts: distinct ids, what `FindNodeById` finds, and what `FindNode` reads from a
-- list after a contact is moved, taken out or added.
use kad.Common.{◌≡◌, ◌≢◌, refl, sym, ap, subst, ◌∙◌, inl, inr, false, arith}
use kad.Common.{Option, none, some, List, [], ◌∷◌, ◌++◌, Bool-cases, length, length-append}
use mathlib.Core.List.{append-nil}
use kad.Common.{All-removed, All, All-append, All-left, All-right, if◌then◌else◌}
use kad.Config.{id_size}
use kad.NodeId.{KadId, id_eq}
use kad.NodeId.Value.{IsId, id_eq_iff}
use kad.Contact.{Contact}
use kad.Routing.{find_node_by_id}
use kad.Routing.Query.{find_in}

pub id_eq-false : (a b : KadId) → IsId id_size a → IsId id_size b → a ≢ b → id_eq a b ≡ false
id_eq-false a b p q ne = ground (arith, id_eq_iff id_size a b p q)

pub ne_of_id_eq : (a b : KadId) → IsId id_size a → IsId id_size b → id_eq a b ≡ false → a ≢ b
ne_of_id_eq a b p q h e = ground (arith, (id_eq_iff id_size a b p q).1 e)

-- The rest of a search, if the first part finds nothing.
abbrev pub or_else {ℓ} : {A : Type ℓ} → Option A → Option A → Option A
or_else (some a) o = some a
or_else none o = o

module _ {ℓ} {Addr : Type ℓ} where
  abbrev pub Valid : Contact Addr → Type 0
  Valid c = IsId id_size c.id

  abbrev pub Absent : KadId → List (Contact Addr) → Type 0
  Absent id cs = All (λ c. c.id ≢ id) cs

  -- No id twice.
  abbrev pub Distinct : List (Contact Addr) → Type 0
  Distinct [] = Unit {0}
  Distinct (c ∷ cs) = Absent c.id cs × Distinct cs

  -- What `FindNodeById` returns: a place in the list where the id stands, or that there is none.
  pub data Search (id : KadId) (cs : List (Contact Addr))
      : Option (List (Contact Addr) × Contact Addr × List (Contact Addr)) → Type ℓ where
    found :
        {before after : List (Contact Addr)} {c : Contact Addr}
        → cs ≡ before ++ c ∷ after
        → c.id ≡ id
        → Search id cs (some (before, c, after))
    missing : Absent id cs → Search id cs none

  pub find_node_by_id-Search :
      (id : KadId) (cs : List (Contact Addr))
      → IsId id_size id
      → All Valid cs
      → Search id cs (find_node_by_id cs id)
  unfolding find_node_by_id
  find_node_by_id-Search id [] p v = missing tt
  find_node_by_id-Search id (x ∷ xs) p v =
      step (find_node_by_id xs id) (find_node_by_id-Search id xs p v.1)
    where
      step :
          (r : Option (List (Contact Addr) × Contact Addr × List (Contact Addr)))
          → Search id xs r
          → Search id (x ∷ xs) (elim r [
            | some (before, c, after) ↦ some (x ∷ before, c, after)
            | none ↦ if id_eq x.id id then some ([], x, xs) else none
          ])
      step _ (found e h) = found (ap (λ (t : List (Contact Addr)). x ∷ t) e) h
      step _ (missing a) = elim (Bool-cases (id_eq x.id id)) [
        | inl eq ↦ rw eq (found refl ((id_eq_iff id_size x.id id v.0 p).0 eq))
        | inr ne ↦ rw ne (missing (ne_of_id_eq x.id id v.0 p ne, a))
      ]

  -- `FindNode` on a list.
  pub find_in-append :
      (id : KadId) (xs ys : List (Contact Addr))
      → find_in id (xs ++ ys) ≡ or_else (find_in id xs) (find_in id ys)
  unfolding find_in
  find_in-append id [] ys = refl
  find_in-append id (x ∷ xs) ys = elim (Bool-cases (id_eq x.id id)) [
    | inl eq ↦ rw eq refl
    | inr ne ↦ rw ne (find_in-append id xs ys)
  ]

  pub find_in-Absent :
      (id : KadId) (cs : List (Contact Addr))
      → IsId id_size id
      → All Valid cs
      → Absent id cs
      → find_in id cs ≡ none
  unfolding find_in
  find_in-Absent id [] p v a = refl
  find_in-Absent id (x ∷ xs) p v a =
      rw (id_eq-false x.id id v.0 p a.0) (find_in-Absent id xs p v.1 a.1)

  -- A contact under another id does not matter.
  pub find_in-other :
      (id : KadId) (c : Contact Addr) (cs : List (Contact Addr))
      → IsId id_size id
      → Valid c
      → c.id ≢ id
      → find_in id (c ∷ cs) ≡ find_in id cs
  unfolding find_in
  find_in-other id c cs p v ne = rw (id_eq-false c.id id v p ne) refl

  pub find_in-same :
      (id : KadId) (c : Contact Addr) (cs : List (Contact Addr))
      → IsId id_size id
      → c.id ≡ id
      → find_in id (c ∷ cs) ≡ some c
  unfolding find_in
  find_in-same id c cs p e =
      let q : IsId id_size c.id = subst (IsId id_size) (sym e) p in
      rw ((id_eq_iff id_size c.id id q p).1 e) refl

  pub find_in-removed :
      (id : KadId) (xs : List (Contact Addr)) (c : Contact Addr) (ys : List (Contact Addr))
      → IsId id_size id
      → Valid c
      → c.id ≢ id
      → find_in id (xs ++ c ∷ ys) ≡ find_in id (xs ++ ys)
  find_in-removed id xs c ys p v ne =
      find_in-append id xs (c ∷ ys)
      ∙ ap (or_else (find_in id xs)) (find_in-other id c ys p v ne)
      ∙ sym (find_in-append id xs ys)

  pub find_in-added :
      (id : KadId) (xs : List (Contact Addr)) (c : Contact Addr)
      → IsId id_size id
      → Valid c
      → c.id ≢ id
      → find_in id (xs ++ c ∷ []) ≡ find_in id xs
  find_in-added id xs c p v ne = find_in-removed id xs c [] p v ne ∙ ap (find_in id) (append-nil xs)

  -- An id that stands nowhere before the end is found at the end.
  pub find_in-end :
      (id : KadId) (xs : List (Contact Addr)) (c : Contact Addr)
      → IsId id_size id
      → All Valid xs
      → Absent id xs
      → c.id ≡ id
      → find_in id (xs ++ c ∷ []) ≡ some c
  find_in-end id xs c p v a e =
      rw (find_in-append id xs (c ∷ []), find_in-Absent id xs p v a, find_in-same id c [] p e) refl

  pub Distinct-append-left : (xs ys : List (Contact Addr)) → Distinct (xs ++ ys) → Distinct xs
  Distinct-append-left [] ys d = tt
  Distinct-append-left (x ∷ xs) ys d =
      (All-left (λ (c : Contact Addr). c.id ≢ x.id) xs ys d.0, Distinct-append-left xs ys d.1)

  -- The item between two halves of a list of distinct ids is in neither.
  pub Distinct-middle :
      (xs : List (Contact Addr)) (c : Contact Addr) (ys : List (Contact Addr))
      → Distinct (xs ++ c ∷ ys)
      → Absent c.id (xs ++ ys) × Distinct (xs ++ ys)
  Distinct-middle [] c ys d = (d.0, d.1)
  Distinct-middle (x ∷ xs) c ys d =
      let P = λ (y : Contact Addr). y.id ≢ x.id in
      let (absent, distinct) = Distinct-middle xs c ys d.1 in
      let ne : c.id ≢ x.id = (All-right P xs (c ∷ ys) d.0).0 in
      ((λ e. ne (sym e), absent), (All-removed P xs c ys d.0, distinct))

  pub Distinct-end :
      (xs : List (Contact Addr)) (c : Contact Addr)
      → Distinct xs
      → Absent c.id xs
      → Distinct (xs ++ c ∷ [])
  Distinct-end [] c d a = (tt, tt)
  Distinct-end (x ∷ xs) c d a = (
    All-append (λ (y : Contact Addr). y.id ≢ x.id) xs (c ∷ []) d.0 ((λ e. a.0 (sym e)), tt),
    Distinct-end xs c d.1 a.1,
  )

  pub find_in-middle :
      (id : KadId) (xs : List (Contact Addr)) (c : Contact Addr) (ys : List (Contact Addr))
      → IsId id_size id
      → All Valid xs
      → Absent id xs
      → c.id ≡ id
      → find_in id (xs ++ c ∷ ys) ≡ some c
  find_in-middle id xs c ys p v a e =
      rw (find_in-append id xs (c ∷ ys), find_in-Absent id xs p v a, find_in-same id c ys p e) refl

  pub length-moved :
      (xs : List (Contact Addr)) (c : Contact Addr) (ys : List (Contact Addr))
      → length ((xs ++ ys) ++ c ∷ []) ≡ length (xs ++ c ∷ ys)
  length-moved xs c ys =
      rw (length-append (xs ++ ys) (c ∷ []), length-append xs ys, length-append xs (c ∷ ys))
        (omega arith)
