-- ===== src/Lookup/Pending.antt =====
-- The requests of a lookup that have no answer yet, through `Send` and `OnResponce`.
use kad.Common.{ℕ, suc, ◌+◌, ◌≤◌, ◌≡◌, refl, sym, subst, ◌∙◌, arith, true}
use kad.Common.{List, [], ◌∷◌, ◌++◌, ◌==◌, ==_iff, length, length-append, All, All-append, All-imp}
use kad.Common.{All-right, All-removed, All-zip}
use kad.Config.{alpha}
use kad.Contact.{Contact, Store}
use kad.Lookup.{FindOp, holds, without}
use kad.Lookup.Sent.{Once, holds-append}
use kad.Lookup.Asked.{sent_op, sent_to, send-Once, after_send-Sent}
use kad.Lookup.Once.{
  Once-middle, Once-append, Once-append_right, Once-apart, holds-without, without-Once,
}

module _ {ℓ} {Addr : Type ℓ} where
  -- `flying` are the destinations of the requests of the lookup without an answer: they are counted
  -- in `mPendingQty`, at most ALPHA, blocked, and different from each other.
  pub record Tracks (op : FindOp Addr) (flying : List (Contact Addr)) : Type 0 where
    pub counted : op.pending ≡ length flying
    pub few : length flying ≤ alpha
    pub block_once : Once op.block
    pub blocked : All (λ c. holds op.block c ≡ true) flying
    pub once : Once flying

  holds_own : (cs : List (Contact Addr)) → All (λ c. holds cs c ≡ true) cs
  unfolding holds
  holds_own [] = tt
  holds_own (x ∷ xs) =
      let here : (x.ref == x.ref) ≡ true = (==_iff x.ref x.ref).1 refl in
      (rw here refl, All-imp (λ (c : Contact Addr) h. rw h (ground arith)) xs (holds_own xs))

  sent_blocked : (block cs : List (Contact Addr)) → All (λ c. holds (block ++ cs) c ≡ true) cs
  sent_blocked block cs =
      All-imp (λ (c : Contact Addr) h. rw (holds-append block cs c, h) (ground arith)) cs
        (holds_own cs)

  pub send-Tracks :
      (s : Store) (n : ℕ) (op : FindOp Addr) (flying : List (Contact Addr))
      → Tracks op flying
      → length flying + suc n ≤ alpha
      → Tracks (sent_op s n op) (flying ++ sent_to s n op)
  send-Tracks s n op flying t room =
      let k = after_send-Sent s n op in
      let new = sent_to s n op in
      let more = length-append flying new in
      let once = t.block_once in
      let joined : Once (op.block ++ new) =
        subst (λ (b : List (Contact Addr)). Once b) k.block (send-Once s n op once) in
      record {
        counted = omega (arith, t.counted, more);
        few = omega (arith, more, k.fits);
        block_once = send-Once s n op once;
        blocked =
            subst (λ (b : List (Contact Addr)). All (λ c. holds b c ≡ true) (flying ++ new))
              (sym k.block)
              (All-append _ flying new
                (All-imp (λ (c : Contact Addr) h. rw (holds-append op.block new c, h) refl) flying
                  t.blocked)
                (sent_blocked op.block new));
        once =
            Once-append flying new t.once (Once-append_right op.block new joined) (
              All-imp (λ (c : Contact Addr) h. Once-apart op.block new c joined h) flying
                t.blocked);
      }

  -- The answer to one of the requests, `c`.
  module _ (op : FindOp Addr) (xs : List (Contact Addr)) (c : Contact Addr)
      (ys : List (Contact Addr)) (t : Tracks op (xs ++ c ∷ ys)) where
    abbrev others : List (Contact Addr)
    others = xs ++ ys

    one_less : length (xs ++ c ∷ ys) ≡ suc (length others)
    one_less = omega (arith, length-append xs (c ∷ ys), length-append xs ys)

    blocked_rest : All (λ y. holds op.block y ≡ true) others
    blocked_rest = All-removed (λ (y : Contact Addr). holds op.block y ≡ true) xs c ys t.blocked

    -- It is counted and blocked.
    pub answered_holds : holds op.block c ≡ true
    answered_holds =
        (All-right (λ (y : Contact Addr). holds op.block y ≡ true) xs (c ∷ ys) t.blocked).0

    pub answered_counted : op.pending ≡ suc (length others)
    answered_counted = t.counted ∙ one_less

    -- Without it the others are tracked,
    pub answered-Tracks :
        (list : List (Contact Addr))
        → Tracks (record op { list = list; pending = length others }) others
    answered-Tracks list = record {
      counted = refl;
      few = omega (arith, one_less, t.few);
      block_once = t.block_once;
      blocked = blocked_rest;
      once = (Once-middle xs c ys t.once).1;
    }

    -- also when it is no longer blocked.
    pub freed-Tracks :
        Tracks (record op { block = without op.block c; pending = length others }) others
    freed-Tracks =
        let (apart, once) = Once-middle xs c ys t.once in
        record {
          counted = refl;
          few = omega (arith, one_less, t.few);
          block_once = without-Once c op.block t.block_once;
          blocked =
              All-zip (λ (y : Contact Addr) ne h. holds-without c y op.block ne ∙ h) others apart
                blocked_rest;
          once = once;
        }

    pub room_left : suc (length others) ≤ alpha
    room_left = omega (arith, one_less, t.few)
