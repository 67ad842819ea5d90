-- ===== src/Manager/Listed.antt =====
-- The lists of all lookups of a node stay in order (src/KadOpMgr.h).
use kad.Common.{ℕ, zero, suc, ◌≡◌, refl, sym, subst, Option, some, none, List, [], ◌∷◌, ◌++◌}
use kad.Common.{length, ◌==◌, set, All, All-append, Bool-cases, Option-cases, inl, inr}
use kad.Config.{id_size}
use kad.NodeId.{KadId}
use kad.NodeId.Value.{IsId}
use kad.Contact.{Contact}
use kad.Routing.Invariant.{IsTable}
use kad.Lookup.{FindOp, new_find, start}
use kad.Lookup.Respond.{on_response}
use kad.Lookup.Answer.{IsNamed}
use kad.Lookup.Asked.{sent_op, sent_to, send-some}
use kad.Lookup.Listed.{OnSome, IsListed, new_find-IsListed}
use kad.Lookup.Merged.{on_response-Lists}
use kad.Manager.{
  Manager, Request, nth, take_out, post, handle, find_key, handle_response, handle_timeout,
}
use kad.Manager.Flying.{post-Posts}
use kad.Manager.Invariant.{IsManager}

module _ {ℓ} {Addr : Type ℓ} where
  All-set {κ} :
      (P : FindOp Addr → Type κ) (ops : List (FindOp Addr)) (k : ℕ) (op : FindOp Addr)
      → All P ops
      → P op
      → All P (set ops k op)
  All-set P [] k op h p = tt
  All-set P (x ∷ ops) zero op h p = (p, h.1)
  All-set P (x ∷ ops) (suc k) op h p = (h.0, All-set P ops k op h.1 p)

  pub All-nth {κ} :
      (P : FindOp Addr → Type κ) (ops : List (FindOp Addr)) (k : ℕ) (op : FindOp Addr)
      → All P ops
      → nth ops k ≡ some op
      → P op
  All-nth P [] k op h e = absurd (cc e)
  All-nth P (x ∷ ops) zero op h e = subst P (op_eq e) h.0
    where
      op_eq : {a b : FindOp Addr} → ◌≡◌ {A = Option (FindOp Addr)} (some a) (some b) → a ≡ b
      op_eq q = cc
  All-nth P (x ∷ ops) (suc k) op h e = All-nth P ops k op h.1 e

  -- A lookup of an id of 20 bytes has its list in order.
  abbrev pub Ordered : FindOp Addr → Type ℓ
  Ordered op = IsId id_size op.key → IsListed op.key op.list

  abbrev pub AllOrdered : Manager Addr → Type ℓ
  AllOrdered m = All Ordered m.lookups

  module _ (random : ℕ → ℕ) where
    post-AllOrdered :
        (k : ℕ) (cs : List (Contact Addr)) (m : Manager Addr)
        → AllOrdered m
        → AllOrdered (post random k cs m)
    post-AllOrdered k cs m h = subst (All Ordered) (sym (post-Posts random k cs m).lookups) h

    pub find_key-AllOrdered :
        (key : KadId) (m : Manager Addr)
        → IsManager m
        → AllOrdered m
        → OnSome AllOrdered (find_key random key m)
    unfolding find_key start new_find
    find_key-AllOrdered key m v h =
        let op = new_find m.local m.store m.table key in
        rw (send-some m.store 2 op) (
          post-AllOrdered (length m.lookups) (sent_to m.store 2 op)
            (record m { lookups = m.lookups ++ sent_op m.store 2 op ∷ [] })
            (All-append Ordered m.lookups (sent_op m.store 2 op ∷ []) h
              ((λ k. new_find-IsListed m.local key v.local_id k m.store m.table v.table), tt)))

    handle-AllOrdered :
        (rsp : Option (List (KadId × Addr))) (r : Request Addr) (m : Manager Addr)
        → IsNamed rsp
        → IsId id_size m.local
        → IsTable m.local 0 0 m.table
        → AllOrdered m
        → OnSome AllOrdered (handle random rsp r m)
    unfolding handle
    handle-AllOrdered rsp r m n l t h = elim (Option-cases (nth m.lookups r.lookup)) [
      | inl e ↦ rw (e, handle) tt
      | inr (op, e) ↦
          let own : Ordered op = All-nth Ordered m.lookups r.lookup op h e in
          let lists =
            on_response-Lists m.local op.key l m.table m.store op rsp r.dst refl n t own in
          elim (Option-cases (on_response m.local m.table m.store op rsp r.dst)) [
            | inl none' ↦ rw (e, none', handle) tt
            | inr (turn, done) ↦
                let (same, listed) = rw done at lists in
                rw (e, done, handle)
                  (post-AllOrdered r.lookup turn.sent _ (
                    All-set Ordered m.lookups r.lookup turn.op h (
                      subst (λ (k : KadId). IsId id_size k → IsListed k turn.op.list) (sym same)
                        listed)))
          ]
    ]

    pub handle_response-AllOrdered :
        (msg_id : ℕ) (named : List (KadId × Addr)) (m : Manager Addr)
        → IsNamed (some named)
        → IsManager m
        → AllOrdered m
        → OnSome AllOrdered (handle_response random msg_id named m)
    unfolding handle_response
    handle_response-AllOrdered msg_id named m n v h = elim (Bool-cases (msg_id == 0)) [
      | inl none_sent ↦ rw none_sent h
      | inr some_sent ↦ elim (Option-cases (take_out (λ r. r.msg_id == msg_id) m.requests)) [
        | inl e ↦ rw (some_sent, e, handle_response) h
        | inr (t, e) ↦
            rw (some_sent, e, handle_response)
              (handle-AllOrdered (some named) t.0 _ n v.local_id v.table h)
      ]
    ]

    pub handle_timeout-AllOrdered :
        (serial : ℕ) (m : Manager Addr)
        → IsManager m
        → AllOrdered m
        → OnSome AllOrdered (handle_timeout random serial m)
    unfolding handle_timeout
    handle_timeout-AllOrdered serial m v h =
        elim (Option-cases (take_out (λ r. r.serial == serial) m.requests)) [
          | inl e ↦ rw (e, handle_timeout) h
          | inr (t, e) ↦
              rw (e, handle_timeout) (handle-AllOrdered none t.0 _ tt v.local_id v.table h)
        ]
