-- ===== src/Manager/Flying.antt =====
-- The requests of each lookup among those of the manager.
use mathlib.Core.Option
use mathlib.Core.List.{append_assoc, append-nil}
use kad.Common.{ℕ, suc, ◌<◌, ◌≡◌, ◌≢◌, refl, sym, ap, ◌∙◌, arith, Bool, true, false}
use kad.Common.{List, [], ◌∷◌, ◌++◌, ◌==◌, ==_iff, if◌then◌else◌, All, All-append}
use kad.Common.{Bool-cases, inl, inr, Option, some, none}
use kad.Contact.{Contact}
use kad.Manager.{Request, Manager, take_out, post}

module _ {ℓ} {Addr : Type ℓ} where
  -- The destinations of the requests of lookup `k`.
  abbrev pub flying : ℕ → List (Request Addr) → List (Contact Addr)
  flying k [] = []
  flying k (r ∷ rs) = if r.lookup == k then r.dst ∷ flying k rs else flying k rs

  pub flying-append :
      (k : ℕ) (rs ts : List (Request Addr)) → flying k (rs ++ ts) ≡ flying k rs ++ flying k ts
  flying-append k [] ts = refl
  flying-append k (r ∷ rs) ts = elim (Bool-cases (r.lookup == k)) [
    | inl mine ↦ rw mine (ap (λ (t : List (Contact Addr)). r.dst ∷ t) (flying-append k rs ts))
    | inr other ↦ rw other (flying-append k rs ts)
  ]

  pub flying_none :
      (k : ℕ) (rs : List (Request Addr)) → All (λ r. r.lookup < k) rs → flying k rs ≡ []
  flying_none k [] h = refl
  flying_none k (r ∷ rs) h =
      let other : (r.lookup == k) ≡ false = ground (arith, h.0) in rw other (flying_none k rs h.1)

  -- What `take_out` finds stands in the list, and leaves the rest in order.
  pub data Taken (rs : List (Request Addr))
      : Option (Request Addr × List (Request Addr)) → Type ℓ where
    taken :
        (xs ys : List (Request Addr)) (r : Request Addr)
        → rs ≡ xs ++ r ∷ ys
        → Taken rs (some (r, xs ++ ys))
    not_there : Taken rs none

  pub take_out-Taken :
      (p : Request Addr → Bool) (rs : List (Request Addr)) → Taken rs (take_out p rs)
  unfolding take_out
  take_out-Taken p [] = not_there
  take_out-Taken p (x ∷ rs) = elim (Bool-cases (p x)) [
    | inl yes_here ↦ rw yes_here (taken [] rs x refl)
    | inr no_here ↦ rw no_here (step (take_out p rs) (take_out-Taken p rs))
  ]
    where
      step :
          (o : Option (Request Addr × List (Request Addr)))
          → Taken rs o
          → Taken
              (x ∷ rs)
              (Option.map (λ (t : Request Addr × List (Request Addr)). (t.0, x ∷ t.1)) o)
      step _ (taken xs ys r e) = taken (x ∷ xs) ys r (ap (λ (t : List (Request Addr)). x ∷ t) e)
      step _ not_there = not_there

  -- A request taken out, for its own lookup and for the others.
  pub flying_own :
      (xs : List (Request Addr)) (r : Request Addr) (ys : List (Request Addr))
      → flying r.lookup (xs ++ r ∷ ys) ≡ flying r.lookup xs ++ r.dst ∷ flying r.lookup ys
  flying_own xs r ys =
      let own : (r.lookup == r.lookup) ≡ true = (==_iff r.lookup r.lookup).1 refl in
      flying-append r.lookup xs (r ∷ ys) ∙ rw own refl

  pub flying_other :
      (k : ℕ) (xs : List (Request Addr)) (r : Request Addr) (ys : List (Request Addr))
      → r.lookup ≢ k
      → flying k (xs ++ r ∷ ys) ≡ flying k (xs ++ ys)
  flying_other k xs r ys ne =
      let other : (r.lookup == k) ≡ false = ground (arith, ==_iff r.lookup k) in
      flying-append k xs (r ∷ ys) ∙ rw other (sym (flying-append k xs ys))

  module _ (random : ℕ → ℕ) where
    -- `SendRequest` adds the destinations to the requests of its lookup, and to no other.
    pub flying-post :
        (k : ℕ) (cs : List (Contact Addr)) (m : Manager Addr)
        → flying k (post random k cs m).requests ≡ flying k m.requests ++ cs
    unfolding post
    flying-post k [] m = sym (append-nil (flying k m.requests))
    flying-post k (c ∷ cs) m =
        let r : Request Addr = record {
          serial = m.issued;
          msg_id = random m.issued;
          dst = c;
          lookup = k;
        } in
        let own : (k == k) ≡ true = (==_iff k k).1 refl in
        flying-post k cs (record m { requests = m.requests ++ r ∷ []; issued = suc m.issued })
        ∙ ap (λ (t : List (Contact Addr)). t ++ cs)
            (flying-append k m.requests (r ∷ []) ∙ rw own refl)
        ∙ append_assoc (flying k m.requests) (c ∷ []) cs

    pub flying-post_other :
        (k j : ℕ) (cs : List (Contact Addr)) (m : Manager Addr)
        → k ≢ j
        → flying j (post random k cs m).requests ≡ flying j m.requests
    unfolding post
    flying-post_other k j [] m ne = refl
    flying-post_other k j (c ∷ cs) m ne =
        let r : Request Addr = record {
          serial = m.issued;
          msg_id = random m.issued;
          dst = c;
          lookup = k;
        } in
        let other : (k == j) ≡ false = ground (arith, ==_iff k j) in
        flying-post_other k j cs
          (record m { requests = m.requests ++ r ∷ []; issued = suc m.issued }) ne
        ∙ flying-append j m.requests (r ∷ [])
        ∙ rw other (append-nil (flying j m.requests))

    -- It changes only the requests and their count.
    pub record Posts (k : ℕ) (m m' : Manager Addr) : Type ℓ where
      pub local : m'.local ≡ m.local
      pub table : m'.table ≡ m.table
      pub lookups : m'.lookups ≡ m.lookups
      pub known :
          (n : ℕ) → k < n → All (λ r. r.lookup < n) m.requests → All (λ r. r.lookup < n) m'.requests

    pub post-Posts :
        (k : ℕ) (cs : List (Contact Addr)) (m : Manager Addr) → Posts k m (post random k cs m)
    unfolding post
    post-Posts k [] m = record { local = refl; table = refl; lookups = refl; known = λ n h a. a }
    post-Posts k (c ∷ cs) m =
        let r : Request Addr = record {
          serial = m.issued;
          msg_id = random m.issued;
          dst = c;
          lookup = k;
        } in
        let p =
          post-Posts k cs (record m { requests = m.requests ++ r ∷ []; issued = suc m.issued }) in
        record {
          local = p.local;
          table = p.table;
          lookups = p.lookups;
          known = λ n h a. p.known n h (All-append _ m.requests (r ∷ []) a (h, tt));
        }
