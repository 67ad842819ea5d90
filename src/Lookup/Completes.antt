-- ===== src/Lookup/Completes.antt =====
-- When `OnResponce` of src/KadOpMgr.h calls `Complete`, no request of the lookup is pending.
use mathlib.Core.Option
use kad.Common.{
  length, ◌≤◌, ℕ, zero, suc, ◌-◌, ◌≡◌, arith, Bool, true, false, ◌&&◌, Option, some, none, List,
}
use kad.Common.{leb, ◌==◌, ==_iff, Bool-cases, Option-cases, inl, inr}
use kad.Config.{alpha}
use kad.NodeId.{KadId}
use kad.Contact.{Contact, Store, is_stale}
use kad.Routing.{Node}
use kad.Lookup.{FindOp, Turn, Merging, send, holds, without}
use kad.Lookup.Respond.{merge, on_timeout, on_answer, on_response}
use kad.Lookup.Asked.{after_send-Sent, send-some}
use kad.Lookup.Listed.{OnSome}

and_right : (a b : Bool) → (a && b) ≡ true → b ≡ true
and_right a b h = ground arith

module _ {ℓ} {Addr : Type ℓ} where
  -- A turn that completes the lookup leaves nothing pending, and every turn sends at most ALPHA requests.
  abbrev pub Completes : Option (Turn Addr) → Type 0
  Completes =
      OnSome (λ (t : Turn Addr). (t.complete ≡ true → t.op.pending ≡ 0) × (length t.sent ≤ alpha))

  on_timeout-Completes :
      (table : Node Addr) (s : Store) (op : FindOp Addr) (c : Contact Addr)
      → Completes (on_timeout table s op c)
  unfolding on_timeout
  on_timeout-Completes table s op c = elim (Bool-cases (is_stale s c)) [
    | inl stale ↦
        let op' = record op { list = without op.list c } in
        rw (stale, send-some s 0 op')
          ((λ h. (==_iff _ 0).0 (and_right _ _ h)), omega (arith, (after_send-Sent s 0 op').fits))
    | inr live ↦
        let op' = record op { block = without op.block c } in
        rw (live, send-some s 0 op')
          ((λ h. (==_iff _ 0).0 (and_right _ _ h)), omega (arith, (after_send-Sent s 0 op').fits))
  ]

  on_answer-Completes :
      (local : KadId) (table : Node Addr) (s : Store) (op : FindOp Addr) (rsp : List (KadId × Addr))
      → Completes (on_answer local table s op rsp)
  unfolding on_answer send
  on_answer-Completes local table s op rsp =
      let begin' : Merging Addr = record {
        list = op.list;
        table = table;
        store = s;
        inserted = 0;
        in_rt = 0;
      } in
      elim (Option-cases (merge local op rsp begin')) [
        | inl e ↦ rw (e, on_answer) tt
        | inr (t, e) ↦ elim (Bool-cases (t.inserted == 0)) [
          | inl same ↦ rw (e, same, on_answer) ((λ h. (==_iff op.pending 0).0 h), omega arith)
          | inr more ↦ elim (Bool-cases (leb op.pending alpha)) [
            | inr many ↦ rw (e, more, many, on_answer) tt
            | inl few ↦ rw (e, more, few, on_answer) (sends t (alpha - op.pending) (omega arith))
          ]
        ]
      ]
    where
      sends :
          (t : Merging Addr) (qty : ℕ)
          → qty ≤ alpha
          → Completes (
              Option.map
                (λ (r : FindOp Addr × List (Contact Addr)). record {
                  op = r.0;
                  table = t.table;
                  store = t.store;
                  sent = r.1;
                  complete = false;
                  in_rt = t.in_rt;
                })
                (send t.store qty (record op { list = t.list })))
      sends t zero few = tt
      sends t (suc n) few = (
        (λ h. absurd (cc h)),
        omega (arith, few, (after_send-Sent t.store n (record op { list = t.list })).fits),
      )

  pub on_response-Completes :
      (local : KadId) (table : Node Addr) (s : Store) (op : FindOp Addr)
      (rsp : Option (List (KadId × Addr))) (c : Contact Addr)
      → Completes (on_response local table s op rsp c)
  unfolding on_response
  on_response-Completes local table s op rsp c = elim (Bool-cases (holds op.block c)) [
    | inr other ↦ rw other ((λ h. absurd (cc h)), omega arith)
    | inl here ↦ rw here (by_pending op.pending rsp)
  ]
    where
      by_pending :
          (pending : ℕ) (rsp : Option (List (KadId × Addr)))
          → Completes (elim pending [
            | zero ↦ none
            | suc pending' ↦
                let op' = record op { pending = pending' } in
                elim rsp [
                  | none ↦ on_timeout table s op' c
                  | some named ↦ on_answer local table s op' named
                ]
          ])
      by_pending zero rsp = tt
      by_pending (suc pending') none =
          on_timeout-Completes table s (record op { pending = pending' }) c
      by_pending (suc pending') (some named) =
          on_answer-Completes local table s (record op { pending = pending' }) named
