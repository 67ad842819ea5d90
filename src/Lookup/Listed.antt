-- ===== src/Lookup/Listed.antt =====
-- The list of a lookup in order: `Insert`, `Remove` and the constructor (src/KadOpMgr.h).
use kad.Common.{◌≤◌, ◌<◌, arith, Option, some, none, List, [], ◌∷◌}
use kad.Common.{length, ◌==◌, All, All-imp, Bool-cases, inl, inr}
use kad.Config.{id_size, bucket_size}
use kad.NodeId.{KadId}
use kad.NodeId.Value.{IsId}
use kad.Contact.{Contact, Store}
use kad.Routing.{Node}
use kad.Routing.Query.{get_contacts, closest}
use kad.Routing.Items.{Valid}
use kad.Routing.Invariant.{IsTable}
use kad.Routing.Collect.{All-closest}
use kad.Routing.Nearest.{live_under}
use kad.Lookup.{insert, insert_all, new_find, without}
use kad.Lookup.Ordered.{IsSorted, distance, insert-IsSorted}

-- What holds of a result, if there is one.
abbrev pub OnSome {ℓ κ} : {A : Type ℓ} → (A → Type κ) → Option A → Type κ
OnSome P none = Unit
OnSome P (some a) = P a

module _ {ℓ} {Addr : Type ℓ} where
  -- The list is in order, holds at most 16 contacts, and their ids have 20 bytes.
  pub record IsListed (key : KadId) (list : List (Contact Addr)) : Type ℓ where
    pub sorted : IsSorted key list
    pub fits : length list ≤ bucket_size
    pub valid : All Valid list

  module _ (key : KadId) (k : IsId id_size key) where
    pub insert-IsListed :
        (c : Contact Addr) (list : List (Contact Addr))
        → Valid c
        → IsListed key list
        → IsListed key (insert key c list).0
    insert-IsListed c list vc v =
        let (s, f, a) = insert-IsSorted key k c vc list v.valid v.fits v.sorted in
        record { sorted = s; fits = f; valid = a }

    insert_all-IsListed :
        (cs list : List (Contact Addr))
        → All Valid cs
        → IsListed key list
        → IsListed key (insert_all key cs list)
    unfolding insert_all
    insert_all-IsListed [] list vs v = v
    insert_all-IsListed (c ∷ cs) list vs v =
        insert_all-IsListed cs (insert key c list).0 vs.1 (insert-IsListed c list vs.0 v)

  All-without :
      (P : Contact Addr → Type 0) (xs : List (Contact Addr)) (c : Contact Addr)
      → All P xs
      → All P (without xs c)
  unfolding without
  All-without P [] c h = tt
  All-without P (x ∷ xs) c h = elim (Bool-cases (x.ref == c.ref)) [
    | inl same ↦ rw same h.1
    | inr other ↦ rw other (h.0, All-without P xs c h.1)
  ]

  length-without : (xs : List (Contact Addr)) (c : Contact Addr) → length (without xs c) ≤ length xs
  unfolding without
  length-without [] c = omega arith
  length-without (x ∷ xs) c = elim (Bool-cases (x.ref == c.ref)) [
    | inl same ↦ rw same (omega arith)
    | inr other ↦ rw other (omega (arith, length-without xs c))
  ]

  without-IsSorted :
      (key : KadId) (xs : List (Contact Addr)) (c : Contact Addr)
      → IsSorted key xs
      → IsSorted key (without xs c)
  unfolding without
  without-IsSorted key [] c h = tt
  without-IsSorted key (x ∷ xs) c h = elim (Bool-cases (x.ref == c.ref)) [
    | inl same ↦ rw same h.1
    | inr other ↦
        rw other (
          All-without (λ y. distance key x < distance key y) xs c h.0,
          without-IsSorted key xs c h.1,
        )
  ]

  pub without-IsListed :
      (key : KadId) (xs : List (Contact Addr)) (c : Contact Addr)
      → IsListed key xs
      → IsListed key (without xs c)
  without-IsListed key xs c v = record {
    sorted = without-IsSorted key xs c v.sorted;
    fits = omega (arith, length-without xs c, v.fits);
    valid = All-without Valid xs c v.valid;
  }

  module _ (local key : KadId) (l : IsId id_size local) (k : IsId id_size key) where
    pub new_find-IsListed :
        (s : Store) (table : Node Addr)
        → IsTable local 0 0 table
        → IsListed key (new_find local s table key).list
    unfolding new_find
    new_find-IsListed s table h =
        insert_all-IsListed key k (closest local s key bucket_size table) []
          (All-closest s key Valid local bucket_size table (
            All-imp (λ (c : Contact Addr) u. u.0) (get_contacts s table)
              (live_under s local key l k 0 0 table h)))
          (record { sorted = tt; fits = omega arith; valid = tt })
