-- ===== src/Routing/Select.antt =====
-- The selection that `FindClosest` makes in a bucket.
use kad.Common.{ℕ, suc, ◌+◌, ◌≤◌, ◌<◌, ◌≡◌, refl, ap, arith, min}
use kad.Common.{true, false, not, List, [], ◌∷◌, ◌++◌, length, length-append, All, All-append}
use kad.Common.{Bool-cases, inl, inr, ltb, Any, Any-left, Any-right}
use kad.Config.{id_size}
use kad.NodeId.{KadId, xor, closer}
use kad.NodeId.Value.{IsId, value}
use kad.NodeId.Metric.{closer_iff}
use kad.Contact.{Contact, Store, is_stale}
use kad.Routing.Query.{replace_first, select, keep_if}
use kad.Routing.Items.{Valid}

module _ {ℓ} {Addr : Type ℓ} (s : Store) (id : KadId) where
  abbrev pub live : List (Contact Addr) → List (Contact Addr)
  live cs = keep_if (λ c. not (is_stale s c)) cs

  pub length-replace_first :
      (c : Contact Addr) (xs : List (Contact Addr)) → length (replace_first id c xs) ≡ length xs
  unfolding replace_first
  length-replace_first c [] = refl
  length-replace_first c (x ∷ xs) = elim (Bool-cases (closer id c.id x.id)) [
    | inl t ↦ rw t refl
    | inr f ↦ rw f (ap suc (length-replace_first c xs))
  ]

  All-replace_first {κ} :
      (P : Contact Addr → Type κ) (c : Contact Addr) (xs : List (Contact Addr))
      → P c
      → All P xs
      → All P (replace_first id c xs)
  unfolding replace_first
  All-replace_first P c [] p h = tt
  All-replace_first P c (x ∷ xs) p h = elim (Bool-cases (closer id c.id x.id)) [
    | inl t ↦ rw t (p, h.1)
    | inr f ↦ rw f (h.0, All-replace_first P c xs p h.1)
  ]

  -- It takes as many contacts as there are, up to `qty`.
  pub length-select :
      (qty : ℕ) (result cs : List (Contact Addr))
      → length result ≤ qty
      → length (select s id qty result cs) ≡ min qty (length result + length (live cs))
  unfolding select
  length-select qty result [] h = omega arith
  length-select qty result (c ∷ cs) h = elim (Bool-cases (is_stale s c)) [
    | inl old ↦ rw old (length-select qty result cs h)
    | inr new ↦ elim (Bool-cases (ltb (length result) qty)) [
      | inl room ↦
          let l = length-append result (c ∷ []) in
          let more : length (result ++ c ∷ []) ≤ qty = rw l (ground arith) in
          rw (new, room) (omega (arith, l, length-select qty (result ++ c ∷ []) cs more))
      | inr full ↦
          let l = length-replace_first c result in
          let rest = length-select qty (replace_first id c result) cs (omega (arith, l, h)) in
          let most : qty ≤ length result = ground arith in
          rw (new, full) (omega (arith, l, rest, most))
    ]
  ]

  -- What holds of the contacts at hand, and of those that are not stale, holds of all that it takes.
  pub All-select {κ} :
      (P : Contact Addr → Type κ) (qty : ℕ) (result cs : List (Contact Addr))
      → All P result
      → All P (live cs)
      → All P (select s id qty result cs)
  unfolding select
  All-select P qty result [] p h = p
  All-select P qty result (c ∷ cs) p h = elim (Bool-cases (is_stale s c)) [
    | inl old ↦ rw old (All-select P qty result cs p (rw old at h))
    | inr new ↦
        let q : P c × All P (live cs) = rw new at h in
        elim (Bool-cases (ltb (length result) qty)) [
          | inl room ↦
              rw (new, room)
                (All-select P qty (result ++ c ∷ []) cs (All-append P result (c ∷ []) p (q.0, tt))
                  q.1)
          | inr full ↦
              rw (new, full)
                (All-select P qty (replace_first id c result) cs
                  (All-replace_first P c result q.0 p) q.1)
        ]
  ]

  -- One of the contacts is at least as close to `id` as another contact.
  abbrev pub Near : List (Contact Addr) → Contact Addr → Type 0
  Near rs y = Any (λ r. value (xor id r.id) ≤ value (xor id y.id)) rs

  module _ (v : IsId id_size id) where
    Near-replace_first :
        (c y : Contact Addr) (xs : List (Contact Addr))
        → Valid c
        → All Valid xs
        → Near xs y
        → Near (replace_first id c xs) y
    unfolding replace_first
    Near-replace_first c y [] vc vx n = elim n [ ]
    Near-replace_first c y (x ∷ xs) vc vx n = elim (Bool-cases (closer id c.id x.id)) [
      | inl t ↦
          let less = (closer_iff id_size id c.id x.id v vc vx.0).0 t in
          rw t (elim n [ inl m ↦ inl (omega (arith, less, m)) | inr m ↦ inr m ])
      | inr f ↦ rw f (elim n [ inl m ↦ inl m | inr m ↦ inr (Near-replace_first c y xs vc vx.1 m) ])
    ]

    Near-new :
        (c : Contact Addr) (xs : List (Contact Addr))
        → Valid c
        → All Valid xs
        → 0 < length xs
        → Near (replace_first id c xs) c
    unfolding replace_first
    Near-new c [] vc vx h = absurd (omega arith)
    Near-new c (x ∷ xs) vc vx h = elim (Bool-cases (closer id c.id x.id)) [
      | inl t ↦ rw t (inl (omega arith))
      | inr f ↦ rw f (inl (ground (arith, closer_iff id_size id c.id x.id v vc vx.0)))
    ]

    Near-select_kept :
        (qty : ℕ) (y : Contact Addr) (result cs : List (Contact Addr))
        → All Valid result
        → All Valid cs
        → Near result y
        → Near (select s id qty result cs) y
    unfolding select
    Near-select_kept qty y result [] vr vs n = n
    Near-select_kept qty y result (c ∷ cs) vr vs n = elim (Bool-cases (is_stale s c)) [
      | inl old ↦ rw old (Near-select_kept qty y result cs vr vs.1 n)
      | inr new ↦ elim (Bool-cases (ltb (length result) qty)) [
        | inl room ↦
            rw (new, room)
              (Near-select_kept qty y (result ++ c ∷ []) cs
                (All-append Valid result (c ∷ []) vr (vs.0, tt)) vs.1
                (Any-left _ result (c ∷ []) n))
        | inr full ↦
            rw (new, full)
              (Near-select_kept qty y (replace_first id c result) cs
                (All-replace_first Valid c result vs.0 vr) vs.1
                (Near-replace_first c y result vs.0 vr n))
      ]
    ]

    -- One turn of the loop.
    module _ (qty : ℕ) (result : List (Contact Addr)) (c : Contact Addr)
        (cs : List (Contact Addr)) where
      select_old : is_stale s c ≡ true → select s id qty result (c ∷ cs) ≡ select s id qty result cs
      unfolding select
      select_old old = rw old refl

      select_room :
          is_stale s c ≡ false
          → ltb (length result) qty ≡ true
          → select s id qty result (c ∷ cs) ≡ select s id qty (result ++ c ∷ []) cs
      unfolding select
      select_room new room = rw (new, room) refl

      select_full :
          is_stale s c ≡ false
          → ltb (length result) qty ≡ false
          → select s id qty result (c ∷ cs) ≡ select s id qty (replace_first id c result) cs
      unfolding select
      select_full new full = rw (new, full) refl

    -- Every contact that is not stale has one at least as close among those taken.
    pub Near-select :
        (qty : ℕ) (result cs : List (Contact Addr))
        → 0 < qty
        → All Valid result
        → All Valid cs
        → All (Near (select s id qty result cs)) (live cs)
    Near-select qty result [] h vr vs = tt
    Near-select qty result (c ∷ cs) h vr vs = elim (Bool-cases (is_stale s c)) [
      | inl old ↦ rw (select_old qty result c cs old, old) (Near-select qty result cs h vr vs.1)
      | inr new ↦ elim (Bool-cases (ltb (length result) qty)) [
        | inl room ↦
            let vr' = All-append Valid result (c ∷ []) vr (vs.0, tt) in
            rw (select_room qty result c cs new room, new)
              (
                Near-select_kept qty c (result ++ c ∷ []) cs vr' vs.1
                    (Any-right _ result (c ∷ []) (inl (omega arith))),
                Near-select qty (result ++ c ∷ []) cs h vr' vs.1,
              )
        | inr full ↦
            let vr' = All-replace_first Valid c result vs.0 vr in
            rw (select_full qty result c cs new full, new)
              (
                Near-select_kept qty c (replace_first id c result) cs vr' vs.1
                    (Near-new c result vs.0 vr (ground arith)),
                Near-select qty (replace_first id c result) cs h vr' vs.1,
              )
      ]
    ]
