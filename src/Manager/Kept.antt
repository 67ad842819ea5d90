-- ===== src/Manager/Kept.antt =====
-- What the calls of a lookup's handler keep, a node keeps (src/KadOpMgr.h): a predicate on the lookups, the
-- requests and the finished lookups holds in every state that a node reaches, if they keep it.
use mathlib.Core.Option
use kad.Common.{ℕ, ◌≡◌, refl, subst, Option, some, List}
use kad.Common.{Bool-cases, Option-cases, inl, inr}
use kad.Config.{id_size, bucket_size}
use kad.NodeId.{KadId, id_eq}
use kad.NodeId.Value.{IsId}
use kad.Contact.{Contact, set_fail_qty, is_stale}
use kad.Routing.{add}
use kad.Routing.Query.{closest}
use kad.Lookup.Answer.{IsNamed}
use kad.Lookup.Listed.{OnSome}
use kad.Manager.{
  next_count, Manager, Message, ping, find_req, store_req, remove_req, response, unhandled, Reply,
  no_reply, pong, find_rsp, find_key, handle_response, handle_timeout, find_add_contact, receive,
}
use kad.Manager.Invariant.{IsManager}
use kad.Manager.Receive.{IsMessage, revived, revived-IsManager, find_add_contact-IsManager}
use kad.Manager.Steps.{
  Event, look_up, arrive, time_out, IsEvent, initial, react, Reachable, begin, next,
  Reachable-IsManager,
}

module _ {ℓ} {Addr : Type ℓ} where
  -- The lookups and their requests are the same.
  pub record SameWork (m m' : Manager Addr) : Type ℓ where
    pub lookups : m'.lookups ≡ m.lookups
    pub requests : m'.requests ≡ m.requests
    pub finished : m'.finished ≡ m.finished
    pub issued : m'.issued ≡ m.issued
    pub local : m'.local ≡ m.local

  module _ (random : ℕ → ℕ) where
    pub find_add_contact-SameWork :
        (id : KadId) (addr : Addr) (m m' : Manager Addr) (c : Option (Contact Addr))
        → find_add_contact id addr m ≡ some (m', c)
        → SameWork m m'
    unfolding find_add_contact
    find_add_contact-SameWork id addr m m' c h = elim (Bool-cases (id_eq id m.local)) [
      | inl self ↦
          let h' = rw self at h in
          subst (SameWork m) (first_eq h') (record {
            lookups = refl;
            requests = refl;
            finished = refl;
            issued = refl;
            local = refl;
          })
      | inr other ↦ elim (Option-cases (add m.local m.store id addr m.table)) [
        | inl e ↦ let h' = rw (other, e) at h in absurd (cc h')
        | inr (r, e) ↦
            let h' = rw (other, e) at h in
            subst (SameWork m) (first_eq h') (record {
              lookups = refl;
              requests = refl;
              finished = refl;
              issued = refl;
              local = refl;
            })
      ]
    ]
      where
        first_eq :
            {a b : Manager Addr} {x y : Option (Contact Addr)}
            → ◌≡◌ {A = Option (Manager Addr × Option (Contact Addr))} (some (a, x)) (some (b, y))
            → a ≡ b
        first_eq q = cc

    -- `P` of the manager before, and `Q` after the call of a handler.
    module _ {κ} (P Q : Manager Addr → Type κ)
        (at_same : (m m' : Manager Addr) → SameWork m m' → P m → P m')
        (after : (m : Manager Addr) → P m → Q m)
        (at_response : (msg_id : ℕ) (named : List (KadId × Addr)) (m : Manager Addr)
          → IsNamed (some named)
          → IsManager m
          → P m
          → OnSome Q (handle_response random msg_id named m)) where
      revived-Holds : (m : Manager Addr) (c : Contact Addr) → P m → P (revived random m c)
      revived-Holds m c h = elim (Bool-cases (is_stale m.store c)) [
        | inl stale ↦ rw stale (
            at_same m (record m { store = set_fail_qty m.store c.ref 0 })
              (record {
                lookups = refl;
                requests = refl;
                finished = refl;
                issued = refl;
                local = refl;
              })
              h)
        | inr live ↦ rw live h
      ]

      abbrev HoldsFirst : Option (Manager Addr × Reply Addr) → Type κ
      HoldsFirst = OnSome (λ (r : Manager Addr × Reply Addr). Q r.0)

      pub receive-Holds :
          (src : KadId) (from : Addr) (msg_id : ℕ) (message : Message Addr) (m : Manager Addr)
          → IsManager m
          → IsId id_size src
          → IsMessage message
          → P m
          → HoldsFirst (receive random src from msg_id message m)
      unfolding receive
      receive-Holds src from msg_id message m v w n h = elim (Bool-cases (id_eq src m.local)) [
        | inl self ↦
            rw (self, receive)
              (after _ (
                at_same m (record m { msg_dropped = next_count m.msg_dropped })
                  (record {
                    lookups = refl;
                    requests = refl;
                    finished = refl;
                    issued = refl;
                    local = refl;
                  })
                  h))
        | inr other ↦
            let (m1, c, e, v1, _, _) = find_add_contact-IsManager src from m v w other in
            let h1 = at_same m m1 (find_add_contact-SameWork src from m m1 (some c) e) h in
            rw (other, e, receive)
              (by_message message n (revived random m1 c) (revived-IsManager random m1 c v1)
                (revived-Holds m1 c h1))
      ]
        where
          by_message :
              (message : Message Addr)
              → IsMessage message
              → (m2 : Manager Addr) → IsManager m2
              → P m2
              → HoldsFirst (elim message [
                | ping ↦ some (m2, pong)
                | find_req target ↦
                    some (m2, find_rsp (closest m2.local m2.store target bucket_size m2.table))
                | store_req ↦ some (m2, no_reply)
                | remove_req ↦ some (m2, no_reply)
                | response named ↦
                    Option.map
                      (λ (m3 : Manager Addr). (m3, no_reply))
                      (handle_response random msg_id named m2)
                | unhandled ↦ some (m2, no_reply)
              ])
          by_message ping n' m2 v2 h2 = after m2 h2
          by_message (find_req target) n' m2 v2 h2 = after m2 h2
          by_message store_req n' m2 v2 h2 = after m2 h2
          by_message remove_req n' m2 v2 h2 = after m2 h2
          by_message (response named) n' m2 v2 h2 =
              let good = at_response msg_id named m2 n' v2 h2 in
              elim (Option-cases (handle_response random msg_id named m2)) [
                | inl e' ↦ rw e' tt
                | inr (m3, e') ↦ rw e' (rw e' at good)
              ]
          by_message unhandled n' m2 v2 h2 = after m2 h2

    pub record Kept {κ} (P : Manager Addr → Type κ) : Type (ℓ ⊔ κ) where
      pub at_same : (m m' : Manager Addr) → SameWork m m' → P m → P m'
      pub at_find :
          (key : KadId) (m : Manager Addr) → IsManager m → P m → OnSome P (find_key random key m)
      pub at_response :
          (msg_id : ℕ) (named : List (KadId × Addr)) (m : Manager Addr)
          → IsNamed (some named)
          → IsManager m
          → P m
          → OnSome P (handle_response random msg_id named m)
      pub at_timeout :
          (serial : ℕ) (m : Manager Addr)
          → IsManager m
          → P m
          → OnSome P (handle_timeout random serial m)

    module _ {κ} (P : Manager Addr → Type κ) (kept : Kept P) where
      react-Holds :
          (e : Event Addr) (m : Manager Addr)
          → IsManager m
          → IsEvent e
          → P m
          → OnSome P (react random e m)
      unfolding react
      react-Holds (look_up key) m v w h = kept.at_find key m v h
      react-Holds (arrive src from msg_id message) m v w h =
          let good =
            receive-Holds P P kept.at_same (λ m' p. p) kept.at_response src from msg_id message m v
              w.0 w.1 h in
          elim (Option-cases (receive random src from msg_id message m)) [
            | inl e ↦ rw e tt
            | inr (r, e) ↦ rw e (rw e at good)
          ]
      react-Holds (time_out serial) m v w h = kept.at_timeout serial m v h

      pub Reachable-Kept :
          (local : KadId) (m : Manager Addr)
          → IsId id_size local
          → P (initial local)
          → Reachable random local m
          → P m
      Reachable-Kept local _ l b begin = b
      Reachable-Kept local _ l b (next m m' e r w q) =
          let v = Reachable-IsManager random local m l r in
          let good = react-Holds e m v w (Reachable-Kept local m l b r) in rw q at good
