-- ===== src/Routing/Lookup.antt =====
-- The bucket in which an id is looked for, and `FindNode` as a search in it.
use kad.Common.{ℕ, ◌≡◌, refl, ap, ◌∙◌, Bool, true, false, not, All}
use kad.Common.{List, [], ◌∷◌, Bool-cases, inl, inr}
use kad.Config.{id_size}
use kad.NodeId.{KadId, xor, get_bit, id_eq}
use kad.NodeId.Value.{IsId, id_eq_iff}
use kad.Contact.{Contact}
use kad.Routing.{Bucket, Node, bucket, space}
use kad.Routing.Query.{keep_if, find_in, find_node}
use kad.Routing.Items.{Valid}
use kad.Routing.Split.{high, low, halved}

module _ {ℓ} {Addr : Type ℓ} where
  abbrev pub bucket_of : KadId → Node Addr → Bucket Addr
  bucket_of dist (bucket d i b) = b
  bucket_of dist (space d i m0 m1) = elim (get_bit dist d) [
    | true ↦ bucket_of dist m1
    | false ↦ bucket_of dist m0
  ]

  pub find_node-bucket_of :
      (id dist : KadId) (node : Node Addr)
      → find_node id dist node ≡ find_in id (bucket_of dist node).contacts
  unfolding find_node
  find_node-bucket_of id dist (bucket d i b) = refl
  find_node-bucket_of id dist (space d i m0 m1) = elim (Bool-cases (get_bit dist d)) [
    | inl one ↦ rw (one, find_node, bucket_of) (find_node-bucket_of id dist m1)
    | inr nil ↦ rw (nil, find_node, bucket_of) (find_node-bucket_of id dist m0)
  ]

  -- Only the contacts under the id itself matter to a search.
  find_in-keep_if :
      (id : KadId) (p : Contact Addr → Bool) (cs : List (Contact Addr))
      → IsId id_size id
      → All Valid cs
      → ((c : Contact Addr) → c.id ≡ id → p c ≡ true)
      → find_in id (keep_if p cs) ≡ find_in id cs
  unfolding find_in
  find_in-keep_if id p [] h v k = refl
  find_in-keep_if id p (c ∷ cs) h v k = elim (Bool-cases (id_eq c.id id)) [
    | inl eq ↦ rw (k c ((id_eq_iff id_size c.id id v.0 h).0 eq), eq) refl
    | inr ne ↦ elim (Bool-cases (p c)) [
      | inl t ↦ rw (t, ne) (find_in-keep_if id p cs h v.1 k)
      | inr f ↦ rw (f, ne) (find_in-keep_if id p cs h v.1 k)
    ]
  ]

  -- Splitting a bucket changes no search.
  pub find_node-halved :
      (local id : KadId) (d i : ℕ) (b : Bucket Addr)
      → IsId id_size id
      → All Valid b.contacts
      → find_node id (xor local id) (halved local d i b) ≡ find_in id b.contacts
  unfolding find_node
  find_node-halved local id d i b h v = elim (Bool-cases (get_bit (xor local id) d)) [
    | inl one ↦
        rw (one, find_node)
          (find_in-keep_if id (high local d) b.contacts h v
            λ c e. ap (λ (t : KadId). get_bit (xor local t) d) e ∙ one)
    | inr nil ↦
        rw (nil, find_node)
          (find_in-keep_if id (low local d) b.contacts h v
            λ c e. ap (λ (t : KadId). not (get_bit (xor local t) d)) e ∙ ap not nil)
  ]
