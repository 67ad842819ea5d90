-- ===== src/Lookup/Sent.antt =====
-- `Send`: which contacts it asks, and how many.
use kad.Common.{ℕ, zero, suc, ◌+◌, ◌≤◌, ◌<◌, ◌≡◌, refl, sym, ap, ◌∙◌, arith, true, false}
use kad.Common.{List, [], ◌∷◌, ◌++◌, leb, ◌==◌, length, All, All-append, ==_iff}
use kad.Common.{Bool-cases, inl, inr, length-append, not, ◌||◌}
use mathlib.Core.List.{append_assoc}
use kad.Config.{stale_limit}
use kad.Contact.{Contact, Store}
use kad.Lookup.{Sending, holds, send_pass, send_passes}

module _ {ℓ} {Addr : Type ℓ} where
  pub holds-append :
      (xs ys : List (Contact Addr)) (c : Contact Addr)
      → holds (xs ++ ys) c ≡ (holds xs c || holds ys c)
  unfolding holds
  holds-append [] ys c = refl
  holds-append (x ∷ xs) ys c = elim (Bool-cases (x.ref == c.ref)) [
    | inl here ↦ rw here refl
    | inr other ↦ rw other (holds-append xs ys c)
  ]

  pub holds_end : (xs : List (Contact Addr)) (c : Contact Addr) → holds (xs ++ c ∷ []) c ≡ true
  unfolding holds
  holds_end xs c =
      let here : (c.ref == c.ref) ≡ true = (==_iff c.ref c.ref).1 refl in
      rw (holds-append xs (c ∷ []) c, here) (ground arith)

  -- No contact twice.
  abbrev pub Once : List (Contact Addr) → Type 0
  Once [] = Unit {0}
  Once (c ∷ cs) = (holds cs c ≡ false) × Once cs

  pub Once-end :
      (xs : List (Contact Addr)) (c : Contact Addr)
      → Once xs
      → holds xs c ≡ false
      → Once (xs ++ c ∷ [])
  unfolding holds
  Once-end [] c o h = (refl, tt)
  Once-end (x ∷ xs) c o h =
      let away : (c.ref == x.ref) ≡ false =
        ground (arith, ==_iff c.ref x.ref, ==_iff x.ref c.ref) in
      (rw (holds-append xs (c ∷ []) x, o.0, away) refl, Once-end xs c o.1 (ground arith))

module _ {ℓ} {Addr : Type ℓ} (s : Store) (qty : ℕ) (asked : List (Contact Addr)) where
  -- What the loops of `Send` keep, if they begin with `asked` as the contacts that are blocked.
  pub record Sent (t : Sending Addr) : Type ℓ where
    pub block : t.block ≡ asked ++ t.sent
    pub fits : length t.sent ≤ qty
    pub flag : t.done ≡ leb qty (length t.sent)
    pub new : All (λ c. (holds asked c ≡ false) × (s.fail_qty c.ref < stale_limit)) t.sent
    pub once : (Once asked → Once t.block)

  sent_one :
      (t : Sending Addr) (c : Contact Addr)
      → Sent t
      → t.done ≡ false
      → s.fail_qty c.ref < stale_limit
      → holds t.block c ≡ false
      → Sent (record {
        block = t.block ++ c ∷ [];
        sent = t.sent ++ c ∷ [];
        done = leb qty (suc (length t.sent));
      })
  sent_one t c k going live fresh =
      let more = length-append t.sent (c ∷ []) in
      let longer : length (t.sent ++ c ∷ []) ≡ suc (length t.sent) = omega (arith, more) in
      let apart : (holds asked c || holds t.sent c) ≡ false =
        sym (holds-append asked t.sent c)
        ∙ ap (λ (b : List (Contact Addr)). holds b c) (sym k.block)
        ∙ fresh in
      let short : leb qty (length t.sent) ≡ false = sym k.flag ∙ going in
      record {
        block =
            ap (λ (b : List (Contact Addr)). b ++ c ∷ []) k.block
            ∙ append_assoc asked t.sent (c ∷ []);
        fits = ground (arith, longer, short);
        flag = ap (leb qty) (sym longer);
        new = All-append _ t.sent (c ∷ []) k.new ((ground arith, live), tt);
        once = λ o. Once-end t.block c (k.once o) fresh;
      }

  send_pass-Sent :
      (stale : ℕ)
      → stale < stale_limit
      → (cs : List (Contact Addr)) (t : Sending Addr) → Sent t
      → Sent (send_pass s qty stale cs t)
  unfolding send_pass
  send_pass-Sent stale low [] t k = k
  send_pass-Sent stale low (c ∷ cs) t k =
      elim (Bool-cases (t.done || (not (stale == s.fail_qty c.ref) || holds t.block c))) [
        | inl skip ↦ rw skip (send_pass-Sent stale low cs t k)
        | inr ask ↦
            let level : (stale == s.fail_qty c.ref) ≡ true = ground arith in
            let same = (==_iff stale (s.fail_qty c.ref)).0 level in
            rw ask (
              send_pass-Sent stale low cs _
                (sent_one t c k (ground arith) (omega (arith, same)) (ground arith)))
      ]

  pub send_passes-Sent :
      (count stale : ℕ)
      → stale + count ≤ stale_limit
      → (cs : List (Contact Addr)) (t : Sending Addr) → Sent t
      → Sent (send_passes s qty count stale cs t)
  unfolding send_passes
  send_passes-Sent zero stale low cs t k = k
  send_passes-Sent (suc count) stale low cs t k =
      send_passes-Sent count (suc stale) (omega arith) cs (send_pass s qty stale cs t)
        (send_pass-Sent stale (omega arith) cs t k)
