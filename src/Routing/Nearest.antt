-- ===== src/Routing/Nearest.antt =====
-- `FindClosest` on a whole table: the closest of the contacts that it returns.
use kad.Common.{ℕ, suc, ◌+◌, ◌-◌, ◌*◌, ◌<◌, ◌≡◌, ap, subst, arith}
use kad.Common.{true, false, List, [], ◌∷◌, length, All, All-append}
use kad.Common.{Bool-cases, inl, inr, ltb, Any-left}
use kad.Common.{zero, All-imp}
use kad.Config.{id_bits, id_size}
use kad.NodeId.{KadId, xor, get_bit}
use kad.NodeId.Value.{IsId, value}
use kad.NodeId.Metric.{xor_comm}
use kad.NodeId.Byte.{bit_value}
use kad.Contact.{Contact, Store}
use kad.Routing.{Node, bucket, space}
use kad.Routing.Query.{find_closest, get_contacts, closest}
use kad.Routing.Place.{Under}
use kad.Routing.Invariant.{AllUnder, IsTable, AllUnder-Valid}
use kad.Routing.Side.{Under-parent, near_child}
use kad.Routing.Split.{All-keep_if}
use kad.Routing.Select.{Near, Near-select}
use kad.Routing.Collect.{both, find_closest_bucket, find_closest_high, find_closest_low}
use kad.Routing.Collect.{All-find_closest}

module _ {ℓ} {Addr : Type ℓ} (s : Store) (local id : KadId) (l : IsId id_size local)
    (v : IsId id_size id) where
  -- The contacts that are not stale are under the node.
  pub live_under :
      (d i : ℕ) (node : Node Addr)
      → IsTable local d i node
      → AllUnder local d i (get_contacts s node)
  unfolding get_contacts
  live_under d i (bucket e j b) (_, _, t) =
      All-keep_if _ (λ (c : Contact Addr). Under local d i c.id) b.contacts t.contacts_under
  live_under d i (space e j m0 m1) (_, _, small, place, t0, t1) =
      let even : i * 2 ≡ i * 2 + 0 = omega arith in
      All-append _ (get_contacts s m0) (get_contacts s m1)
        (All-imp
          (λ (c : Contact Addr) u.
            Under-parent local d i 0 c.id place.deep (omega arith)
              (subst (λ (t : ℕ). Under local (d + 1) t c.id) even u))
          (get_contacts s m0) (live_under (d + 1) (i * 2) m0 t0))
        (All-imp (λ (c : Contact Addr) u. Under-parent local d i 1 c.id place.deep (omega arith) u)
          (get_contacts s m1) (live_under (d + 1) (i * 2 + 1) m1 t1))

  Near-left :
      (qty : ℕ) (near far : List (Contact Addr)) (y : Contact Addr)
      → Near s id near y
      → Near s id (both s id qty near far) y
  Near-left qty near far y n = elim (Bool-cases (ltb (length near) qty)) [
    | inl less ↦ rw less (Any-left _ near far n)
    | inr full ↦ rw full n
  ]

  -- The far contacts: one of the near ones is closer, or there is none and the far call looks for
  -- as many.
  Near-far :
      (qty : ℕ) (near ys : List (Contact Addr)) (far : ℕ → List (Contact Addr))
      → 0 < qty
      → All (Near s id (far qty)) ys
      → All (λ r. All (λ y. value (xor id r.id) < value (xor id y.id)) ys) near
      → All (Near s id (both s id qty near (far (qty - length near)))) ys
  Near-far qty [] ys far h covered less =
      let more : ltb (length {A = Contact Addr} []) qty ≡ true = ground arith in
      let wanted : qty - length {A = Contact Addr} [] ≡ qty = omega arith in
      rw (more, wanted) covered
  Near-far qty (r ∷ rs) ys far h covered less =
      All-imp (λ (y : Contact Addr) less. Near-left qty (r ∷ rs) _ y (inl (omega (arith, less)))) ys
        less.0

  module _ (d i : ℕ) (small : d < id_bits) (m0 m1 : Node Addr)
      (t0 : IsTable local (d + 1) (i * 2) m0) (t1 : IsTable local (d + 1) (i * 2 + 1) m1) where
    abbrev Nearer : Contact Addr → Contact Addr → Type 0
    Nearer r y = value (xor id r.id) < value (xor id y.id)

    high-Nearer :
        get_bit (xor local id) d ≡ true
        → All (λ r. All (Nearer r) (get_contacts s m0)) (get_contacts s m1)
    high-Nearer one =
        All-imp
          (λ (r : Contact Addr) u.
            All-imp
              (λ (y : Contact Addr) w.
                near_child local id l v d i small r.id y.id 1 (omega arith) (ap bit_value one) u
                  (subst (λ (t : ℕ). Under local (d + 1) t y.id) (omega arith) w))
              (get_contacts s m0) (live_under (d + 1) (i * 2) m0 t0))
          (get_contacts s m1) (live_under (d + 1) (i * 2 + 1) m1 t1)

    low-Nearer :
        get_bit (xor local id) d ≡ false
        → All (λ r. All (Nearer r) (get_contacts s m1)) (get_contacts s m0)
    low-Nearer nil =
        All-imp
          (λ (r : Contact Addr) u.
            All-imp
              (λ (y : Contact Addr) w.
                near_child local id l v d i small r.id y.id 0 (omega arith) (ap bit_value nil)
                  (subst (λ (t : ℕ). Under local (d + 1) t r.id) (omega arith) u) w)
              (get_contacts s m1) (live_under (d + 1) (i * 2 + 1) m1 t1))
          (get_contacts s m0) (live_under (d + 1) (i * 2) m0 t0)

  find_closest-Near :
      (d i : ℕ) (node : Node Addr) (qty : ℕ)
      → IsTable local d i node
      → 0 < qty
      → All (Near s id (find_closest s id (xor local id) qty node)) (get_contacts s node)
  unfolding get_contacts
  find_closest-Near d i node zero t h = absurd (omega arith)
  find_closest-Near d i (bucket e j b) (suc n) (_, _, t) h =
      rw (find_closest_bucket s id (xor local id) n e j b) (
        Near-select s id v (suc n) [] b.contacts h tt
          (AllUnder-Valid local d i b.contacts t.contacts_under))
  find_closest-Near d i (space e j m0 m1) (suc n) (ed, ji, small, place, t0, t1) h =
      let dist = xor local id in
      let IH0 = λ (q : ℕ) (p : 0 < q). find_closest-Near (d + 1) (i * 2) m0 q t0 p in
      let IH1 = λ (q : ℕ) (p : 0 < q). find_closest-Near (d + 1) (i * 2 + 1) m1 q t1 p in
      rw (ed, ji)
        (elim (Bool-cases (get_bit dist d)) [
          | inl one ↦ rw (find_closest_high s id dist n d i m0 m1 one) (
              All-append _ (get_contacts s m0) (get_contacts s m1)
                (Near-far (suc n) (find_closest s id dist (suc n) m1) (get_contacts s m0)
                  (λ q. find_closest s id dist q m0) h (IH0 (suc n) h)
                  (All-find_closest s id _ dist m1 (suc n)
                    (high-Nearer d i place.deep m0 m1 t0 t1 one)))
                (All-imp (λ (y : Contact Addr) a. Near-left (suc n) _ _ y a) (get_contacts s m1)
                  (IH1 (suc n) h)))
          | inr nil ↦ rw (find_closest_low s id dist n d i m0 m1 nil) (
              All-append _ (get_contacts s m0) (get_contacts s m1)
                (All-imp (λ (y : Contact Addr) a. Near-left (suc n) _ _ y a) (get_contacts s m0)
                  (IH0 (suc n) h))
                (Near-far (suc n) (find_closest s id dist (suc n) m0) (get_contacts s m1)
                  (λ q. find_closest s id dist q m1) h (IH1 (suc n) h)
                  (All-find_closest s id _ dist m0 (suc n)
                    (low-Nearer d i place.deep m0 m1 t0 t1 nil))))
        ])

  -- For ids of 20 bytes, in a table that keeps the invariant: if `FindClosest(id, qty)` is asked
  -- for at least one contact, then for every contact that is not stale it returns one whose
  -- distance to the id is at most as large.
  pub closest-Near :
      (qty : ℕ) (node : Node Addr)
      → IsTable local 0 0 node
      → 0 < qty
      → All (Near s id (closest local s id qty node)) (get_contacts s node)
  unfolding closest
  closest-Near qty node t h = rw (xor_comm id local) (find_closest-Near 0 0 node qty t h)
