-- ===== src/Lookup/Reach.antt =====
-- `Send`: what it leaves, when it asks fewer contacts than it may, and its result as a whole.
use kad.Common.{
  ℕ, zero, suc, ◌+◌, ◌≤◌, ◌<◌, ◌≡◌, ◌≢◌, ◌⊎◌, refl, sym, ap, subst, ◌∙◌, arith, Bool, true, false,
}
use kad.Common.{List, [], ◌∷◌, ◌++◌, ltb, leb, ◌==◌, if◌then◌else◌, length, All, ==_iff}
use kad.Common.{Bool-cases, inl, inr, not, ◌||◌, All-zip}
use kad.Contact.{Contact, Store}
use kad.Lookup.{Sending, holds, send_pass, send_passes}
use kad.Lookup.Sent.{holds-append, holds_end}

module _ {ℓ} {Addr : Type ℓ} (s : Store) (qty : ℕ) where
  -- One turn of the inner loop: the contact is passed over, or asked.
  abbrev skips : ℕ → Sending Addr → Contact Addr → Bool
  skips stale t c = t.done || (not (stale == s.fail_qty c.ref) || holds t.block c)

  abbrev asking : Sending Addr → Contact Addr → Sending Addr
  asking t c = record {
    block = t.block ++ c ∷ [];
    sent = t.sent ++ c ∷ [];
    done = leb qty (suc (length t.sent));
  }

  nothing_left :
      (stale : ℕ) (t : Sending Addr) (P : Sending Addr → Type 0)
      → P t
      → P (send_pass s qty stale [] t)
  unfolding send_pass
  nothing_left stale t P h = h

  turn_skip :
      (stale : ℕ) (c : Contact Addr) (cs : List (Contact Addr)) (t : Sending Addr)
      → skips stale t c ≡ true
      → send_pass s qty stale (c ∷ cs) t ≡ send_pass s qty stale cs t
  unfolding send_pass
  turn_skip stale c cs t h =
      ap (λ (b : Bool). send_pass s qty stale cs (if b then t else asking t c)) h

  turn_ask :
      (stale : ℕ) (c : Contact Addr) (cs : List (Contact Addr)) (t : Sending Addr)
      → skips stale t c ≡ false
      → send_pass s qty stale (c ∷ cs) t ≡ send_pass s qty stale cs (asking t c)
  unfolding send_pass
  turn_ask stale c cs t h =
      ap (λ (b : Bool). send_pass s qty stale cs (if b then t else asking t c)) h

  -- Once enough contacts are asked nothing changes, and no contact leaves the block.
  send_pass_done :
      (stale : ℕ) (cs : List (Contact Addr)) (t : Sending Addr)
      → t.done ≡ true
      → (send_pass s qty stale cs t).done ≡ true
  send_pass_done stale [] t h = nothing_left stale t (λ u. u.done ≡ true) h
  send_pass_done stale (c ∷ cs) t h =
      ap (λ (u : Sending Addr). u.done) (turn_skip stale c cs t (ground arith))
      ∙ send_pass_done stale cs t h

  send_passes_done :
      (count stale : ℕ) (cs : List (Contact Addr)) (t : Sending Addr)
      → t.done ≡ true
      → (send_passes s qty count stale cs t).done ≡ true
  unfolding send_passes
  send_passes_done zero stale cs t h = h
  send_passes_done (suc count) stale cs t h =
      send_passes_done count (suc stale) cs _ (send_pass_done stale cs t h)

  send_pass_kept :
      (stale : ℕ) (y : Contact Addr) (cs : List (Contact Addr)) (t : Sending Addr)
      → holds t.block y ≡ true
      → holds (send_pass s qty stale cs t).block y ≡ true
  send_pass_kept stale y [] t h = nothing_left stale t (λ u. holds u.block y ≡ true) h
  send_pass_kept stale y (c ∷ cs) t h = elim (Bool-cases (skips stale t c)) [
    | inl skip ↦ rw (turn_skip stale c cs t skip) (send_pass_kept stale y cs t h)
    | inr ask ↦
        rw (turn_ask stale c cs t ask)
          (send_pass_kept stale y cs _ (rw (holds-append t.block (c ∷ []) y, h) refl))
  ]

  send_passes_kept :
      (count stale : ℕ) (y : Contact Addr) (cs : List (Contact Addr)) (t : Sending Addr)
      → holds t.block y ≡ true
      → holds (send_passes s qty count stale cs t).block y ≡ true
  unfolding send_passes
  send_passes_kept zero stale y cs t h = h
  send_passes_kept (suc count) stale y cs t h =
      send_passes_kept count (suc stale) y cs _ (send_pass_kept stale y cs t h)

  -- One pass blocks the contacts with its number of failures, unless it stops.
  abbrev Passed : ℕ → List (Contact Addr) → Contact Addr → Type 0
  Passed stale block c = (stale ≢ s.fail_qty c.ref) ⊎ (holds block c ≡ true)

  abbrev Outcome : ℕ → List (Contact Addr) → Sending Addr → Type 0
  Outcome stale cs u = (u.done ≡ true) ⊎ All (Passed stale u.block) cs

  send_pass-Passed :
      (stale : ℕ) (cs : List (Contact Addr)) (t : Sending Addr)
      → ((send_pass s qty stale cs t).done ≡ true)
        ⊎ All (Passed stale (send_pass s qty stale cs t).block) cs
  send_pass-Passed stale [] t = inr tt
  send_pass-Passed stale (c ∷ cs) t = elim (Bool-cases (skips stale t c)) [
    | inl skip ↦
        subst (Outcome stale (c ∷ cs)) (sym (turn_skip stale c cs t skip))
          (elim (Bool-cases t.done) [
            | inl over ↦ inl (send_pass_done stale cs t over)
            | inr going ↦ elim (send_pass-Passed stale cs t) [
              | inl over ↦ inl over
              | inr rest ↦ inr (
                elim (Bool-cases (holds t.block c)) [
                  | inl there ↦ inr (send_pass_kept stale c cs t there)
                  | inr away ↦ inl (ground (arith, ==_iff stale (s.fail_qty c.ref)))
                ],
                rest,
              )
            ]
          ])
    | inr ask ↦
        subst (Outcome stale (c ∷ cs)) (sym (turn_ask stale c cs t ask))
          (elim (send_pass-Passed stale cs _) [
            | inl over ↦ inl over
            | inr rest ↦ inr (inr (send_pass_kept stale c cs _ (holds_end t.block c)), rest)
          ])
  ]

  -- The passes together.
  abbrev pub Reached : ℕ → ℕ → List (Contact Addr) → Contact Addr → Type 0
  Reached from to block c =
      (s.fail_qty c.ref < from) ⊎ (to ≤ s.fail_qty c.ref) ⊎ (holds block c ≡ true)

  before_all :
      (stale : ℕ) (cs block : List (Contact Addr)) → All (Reached stale (stale + 0) block) cs
  before_all stale [] block = tt
  before_all stale (c ∷ cs) block = (level, before_all stale cs block)
    where
      level : Reached stale (stale + 0) block c
      level = elim (Bool-cases (ltb (s.fail_qty c.ref) stale)) [
        | inl less ↦ inl (ground arith)
        | inr more ↦ inr (inl (ground arith))
      ]

  widen :
      (count stale : ℕ) (block : List (Contact Addr)) (c : Contact Addr)
      → Passed stale block c
      → Reached (suc stale) (suc stale + count) block c
      → Reached stale (stale + suc count) block c
  widen count stale block c (inr there) r = inr (inr there)
  widen count stale block c (inl other) (inl less) = inl (omega (arith, other, less))
  widen count stale block c (inl other) (inr (inl more)) = inr (inl (omega (arith, more)))
  widen count stale block c (inl other) (inr (inr there)) = inr (inr there)

  pub send_passes-Reached :
      (count stale : ℕ) (cs : List (Contact Addr)) (t : Sending Addr)
      → ((send_passes s qty count stale cs t).done ≡ true)
        ⊎ All (Reached stale (stale + count) (send_passes s qty count stale cs t).block) cs
  unfolding send_passes
  send_passes-Reached zero stale cs t = inr (before_all stale cs t.block)
  send_passes-Reached (suc count) stale cs t = elim (send_pass-Passed stale cs t) [
    | inl over ↦ inl (send_passes_done count (suc stale) cs _ over)
    | inr here ↦ elim (send_passes-Reached count (suc stale) cs (send_pass s qty stale cs t)) [
      | inl over ↦ inl over
      | inr rest ↦ inr (
          All-zip
            (λ (c : Contact Addr) p r.
              widen count stale _ c
                (elim p [
                  | inl other ↦ inl other
                  | inr there ↦ inr (send_passes_kept count (suc stale) c cs _ there)
                ])
                r)
            cs here rest)
    ]
  ]
