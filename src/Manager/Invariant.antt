-- ===== src/Manager/Invariant.antt =====
-- The invariant of the manager: of its table, and of the requests of each lookup.
use kad.Common.{ℕ, zero, suc, ◌+◌, ◌<◌, ◌≤◌, ◌≡◌, ◌≢◌, refl, sym, subst, arith}
use kad.Common.{List, [], ◌∷◌, ◌++◌, length, set, All, some}
use kad.Config.{id_size}
use kad.NodeId.Value.{IsId}
use kad.Routing.Invariant.{IsTable}
use kad.Lookup.{FindOp}
use kad.Lookup.Pending.{Tracks}
use kad.Manager.{Request, Manager, nth}
use kad.Manager.Flying.{flying}

module _ {ℓ} {Addr : Type ℓ} where
  -- The lookups, from number `k` on, track their requests.
  abbrev pub AllTrack : ℕ → List (FindOp Addr) → List (Request Addr) → Type 0
  AllTrack k [] rs = Unit {0}
  AllTrack k (op ∷ ops) rs = Tracks op (flying k rs) × AllTrack (suc k) ops rs

  pub record IsManager (m : Manager Addr) : Type 0 where
    pub local_id : IsId id_size m.local
    pub table : IsTable m.local 0 0 m.table
    pub known : All (λ r. r.lookup < length m.lookups) m.requests
    pub tracks : AllTrack 0 m.lookups m.requests

  pub nth-some :
      (ops : List (FindOp Addr)) (k : ℕ)
      → k < length ops
      → (op : FindOp Addr) × (nth ops k ≡ some op)
  nth-some [] k h = absurd (omega arith)
  nth-some (op ∷ ops) zero h = (op, refl)
  nth-some (op ∷ ops) (suc k) h = nth-some ops k (omega arith)

  pub AllTrack-nth :
      (j : ℕ) (ops : List (FindOp Addr)) (rs : List (Request Addr)) (k : ℕ) (op : FindOp Addr)
      → AllTrack j ops rs
      → nth ops k ≡ some op
      → Tracks op (flying (j + k) rs)
  AllTrack-nth j [] rs k op a e = absurd (cc e)
  AllTrack-nth j (x ∷ ops) rs zero op a e =
      let same : j + 0 ≡ j = omega arith in
      rw same (subst (λ (t : FindOp Addr). Tracks t (flying j rs)) (cc e) a.0)
  AllTrack-nth j (x ∷ ops) rs (suc k) op a e =
      let next : j + suc k ≡ suc j + k = omega arith in
      rw next (AllTrack-nth (suc j) ops rs k op a.1 e)

  -- The requests changed only for lookups before `j`.
  AllTrack-same :
      (j : ℕ) (ops : List (FindOp Addr)) (rs rs' : List (Request Addr))
      → ((i : ℕ) → j ≤ i → flying i rs' ≡ flying i rs)
      → AllTrack j ops rs
      → AllTrack j ops rs'
  AllTrack-same j [] rs rs' e a = tt
  AllTrack-same j (op ∷ ops) rs rs' e a = (
    subst (Tracks op) (sym (e j (omega arith))) a.0,
    AllTrack-same (suc j) ops rs rs' (λ i h. e i (omega arith)) a.1,
  )

  -- A lookup changed, and its requests.
  pub AllTrack-set :
      (j : ℕ) (ops : List (FindOp Addr)) (rs rs' : List (Request Addr)) (k : ℕ) (op : FindOp Addr)
      → AllTrack j ops rs
      → ((i : ℕ) → j + k ≢ i → flying i rs' ≡ flying i rs)
      → Tracks op (flying (j + k) rs')
      → AllTrack j (set ops k op) rs'
  AllTrack-set j [] rs rs' k op a e t = tt
  AllTrack-set j (x ∷ ops) rs rs' zero op a e t =
      let same : j + 0 ≡ j = omega arith in
      (rw same at t, AllTrack-same (suc j) ops rs rs' (λ i h. e i (omega arith)) a.1)
  AllTrack-set j (x ∷ ops) rs rs' (suc k) op a e t =
      let next : j + suc k ≡ suc j + k = omega arith in
      (
        subst (Tracks x) (sym (e j (omega arith))) a.0,
        AllTrack-set (suc j) ops rs rs' k op a.1 (λ i h. e i (omega arith)) (rw next at t),
      )

  -- A lookup added, with its requests.
  pub AllTrack-append :
      (j : ℕ) (ops : List (FindOp Addr)) (rs rs' : List (Request Addr)) (op : FindOp Addr)
      → AllTrack j ops rs
      → ((i : ℕ) → j + length ops ≢ i → flying i rs' ≡ flying i rs)
      → Tracks op (flying (j + length ops) rs')
      → AllTrack j (ops ++ op ∷ []) rs'
  AllTrack-append j [] rs rs' op a e t = let same : j + 0 ≡ j = omega arith in (rw same at t, tt)
  AllTrack-append j (x ∷ ops) rs rs' op a e t =
      let next : j + suc (length ops) ≡ suc j + length ops = omega arith in
      (
        subst (Tracks x) (sym (e j (omega arith))) a.0,
        AllTrack-append (suc j) ops rs rs' op a.1 (λ i h. e i (omega arith)) (rw next at t),
      )
