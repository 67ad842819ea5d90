-- ===== src/Manager/Posted.antt =====
-- How many requests with a tracker `RecieveCbk` of src/KadOpMgr.h sends, through `OnResponce` and `Send`.
use kad.Common.{ℕ, ◌+◌, ◌≤◌, ◌≡◌, refl, ◌∙◌, arith, List, [], ◌∷◌, Option, some, length}
use kad.Common.{Bool-cases, Option-cases, inl, inr, ◌==◌}
use kad.Config.{id_size, alpha}
use kad.NodeId.{KadId}
use kad.NodeId.Value.{IsId}
use kad.Contact.{Contact, set_fail_qty}
use kad.Lookup.Respond.{on_response}
use kad.Lookup.Listed.{OnSome}
use kad.Lookup.Completes.{on_response-Completes}
use kad.Manager.{
  Request, Manager, Message, Reply, nth, take_out, next_count, post, handle, handle_response,
  receive,
}
use kad.Manager.Flying.{post-Posts}
use kad.Manager.Invariant.{IsManager}
use kad.Manager.Receive.{IsMessage}
use kad.Manager.Kept.{receive-Holds}

module _ {ℓ} {Addr : Type ℓ} (random : ℕ → ℕ) where
  post-issued :
      (k : ℕ) (cs : List (Contact Addr)) (m : Manager Addr)
      → (post random k cs m).issued ≡ m.issued + length cs
  unfolding post
  post-issued k [] m = omega arith
  post-issued k (c ∷ cs) m = omega (arith, post-issued k cs _)

  -- At most ALPHA requests are sent between the states, and the node has the same id.
  abbrev pub Posted : Manager Addr → Manager Addr → Type 0
  Posted m m' = (m'.issued ≤ m.issued + alpha) × (m'.local ≡ m.local)

  handle-Posted :
      (rsp : Option (List (KadId × Addr))) (r : Request Addr) (m : Manager Addr)
      → OnSome (Posted m) (handle random rsp r m)
  unfolding handle
  handle-Posted rsp r m = elim (Option-cases (nth m.lookups r.lookup)) [
    | inl e ↦ rw (e, handle) tt
    | inr (op, e) ↦ elim (Option-cases (on_response m.local m.table m.store op rsp r.dst)) [
      | inl none_left ↦ rw (e, none_left, handle) tt
      | inr (turn, done) ↦
          let completes = on_response-Completes m.local m.table m.store op rsp r.dst in
          let few = (rw done at completes).1 in
          rw (e, done, handle)
            (
              omega (arith, post-issued r.lookup turn.sent _, few),
              (post-Posts random r.lookup turn.sent _).local,
            )
    ]
  ]

  handle_response-Posted :
      (msg_id : ℕ) (named : List (KadId × Addr)) (m : Manager Addr)
      → OnSome (Posted m) (handle_response random msg_id named m)
  unfolding handle_response
  handle_response-Posted msg_id named m = elim (Bool-cases (msg_id == 0)) [
    | inl no_id ↦ rw no_id (omega arith, refl)
    | inr with_id ↦
        elim (Option-cases (take_out (λ (r : Request Addr). r.msg_id == msg_id) m.requests)) [
          | inl e ↦ rw (with_id, e, handle_response) (omega arith, refl)
          | inr ((r, rest), e) ↦
              rw (with_id, e, handle_response)
                (handle-Posted (some named) r (record m {
                  requests = rest;
                  req_succ = next_count m.req_succ;
                  store = set_fail_qty m.store r.dst.ref 0;
                }))
        ]
  ]

  further :
      (m a b : Manager Addr) → (a.issued ≡ m.issued) × (a.local ≡ m.local) → Posted a b → Posted m b
  further m a b h p = (omega (arith, h.0, p.0), p.1 ∙ h.1)

  -- In a manager that keeps its invariant, for ids of 20 bytes, `RecieveCbk` sends at most ALPHA
  -- requests, and the node's id is as it was.
  pub receive-Posted :
      (src : KadId) (from : Addr) (msg_id : ℕ) (message : Message Addr) (m : Manager Addr)
      → IsManager m
      → IsId id_size src
      → IsMessage message
      → OnSome
          (λ (r : Manager Addr × Reply Addr). Posted m r.0)
          (receive random src from msg_id message m)
  receive-Posted src from msg_id message m v w n =
      receive-Holds random (λ (t : Manager Addr). (t.issued ≡ m.issued) × (t.local ≡ m.local))
        (Posted m) (λ a b same h. (same.issued ∙ h.0, same.local ∙ h.1))
        (λ a h. (omega (arith, h.0), h.1)) (λ id named a n' v' h. responded id named a h) src from
        msg_id message m v w n (refl, refl)
    where
      responded :
          (id : ℕ) (named : List (KadId × Addr)) (a : Manager Addr)
          → (a.issued ≡ m.issued) × (a.local ≡ m.local)
          → OnSome (Posted m) (handle_response random id named a)
      responded id named a h =
          let good = handle_response-Posted id named a in
          elim (Option-cases (handle_response random id named a)) [
            | inl e ↦ rw e tt
            | inr (b, e) ↦ rw e (further m a b h (rw e at good))
          ]
