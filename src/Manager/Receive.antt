-- ===== src/Manager/Receive.antt =====
-- `Find` and `RecieveCbk` keep the invariant of the manager.
use mathlib.Core.Option
use kad.Common.{ℕ, suc, ◌+◌, ◌<◌, ◌≡◌, refl, sym, ap, subst, ◌∙◌, arith, false}
use kad.Common.{List, [], ◌∷◌, ◌++◌, length, length-append, All, All-imp, Option, some}
use kad.Common.{Bool-cases, inl, inr, if◌then◌else◌}
use kad.Config.{id_size, bucket_size}
use kad.NodeId.{KadId, id_eq}
use kad.NodeId.Value.{IsId}
use kad.Contact.{Contact, set_fail_qty, is_stale}
use kad.Routing.Query.{closest}
use kad.Routing.Invariant.{IsTable}
use kad.Routing.Table.{add-IsTable}
use kad.Lookup.{FindOp, new_find, start}
use kad.Lookup.Asked.{sent_op, sent_to, send-some}
use kad.Lookup.Pending.{Tracks, send-Tracks}
use kad.Lookup.Answer.{IsNamed}
use kad.Manager.{
  next_count, Request, Manager, Message, ping, find_req, store_req, remove_req, response, unhandled,
}
use kad.Manager.{Reply, no_reply, pong, find_rsp, post, find_key, find_add_contact, receive}
use kad.Manager.{handle_response}
use kad.Manager.Flying.{flying, flying_none, flying-post, flying-post_other, post-Posts}
use kad.Manager.Invariant.{AllTrack, IsManager, AllTrack-append}
use kad.Manager.Run.{Keeps, handle_response-IsManager}

module _ {ℓ} {Addr : Type ℓ} where
  -- The ids that a message names have 20 bytes.
  abbrev pub IsMessage : Message Addr → Type 0
  IsMessage (response named) = IsNamed (some named)
  IsMessage _ = Unit {0}

  -- In a manager that keeps its invariant, for an id of 20 bytes other than the node's,
  -- `FindAddContact` returns a contact of the id, and the manager keeps its invariant.
  pub find_add_contact-IsManager :
      (id : KadId) (addr : Addr) (m : Manager Addr)
      → IsManager m
      → IsId id_size id
      → id_eq id m.local ≡ false
      → (m' : Manager Addr) × (c : Contact Addr) × (find_add_contact id addr m ≡ some (m', some c))
        × IsManager m'
        × (c.id ≡ id)
        × (m'.local ≡ m.local)
  unfolding find_add_contact
  find_add_contact-IsManager id addr m v w other =
      let (r, e, table, named, _) =
        add-IsTable m.local v.local_id m.store id addr m.table v.table w in
      (
        record m { table = r.node; store = r.store; cont_in_rt = next_count m.cont_in_rt },
        r.contact,
        rw (other, e) refl,
        record { local_id = v.local_id; table = table; known = v.known; tracks = v.tracks },
        named,
        refl,
      )

  -- A new lookup has no requests yet.
  new_find-Tracks :
      (key : KadId) (m : Manager Addr) → Tracks (new_find m.local m.store m.table key) []
  unfolding new_find
  new_find-Tracks key m = record {
    counted = refl;
    few = omega arith;
    block_once = tt;
    blocked = tt;
    once = tt;
  }

  module _ (random : ℕ → ℕ) where
    -- In a manager that keeps its invariant `Find` returns and the manager keeps its invariant.
    pub find_key-IsManager :
        (key : KadId) (m : Manager Addr) → IsManager m → Keeps random (find_key random key m)
    unfolding find_key start
    find_key-IsManager key m v =
        let op = new_find m.local m.store m.table key in
        let k = length m.lookups in
        let sent = sent_to m.store 2 op in
        let base : Manager Addr = record m { lookups = m.lookups ++ sent_op m.store 2 op ∷ [] } in
        let m' = post random k sent base in
        let p = post-Posts random k sent base in
        let longer : length (m.lookups ++ sent_op m.store 2 op ∷ []) ≡ suc k =
          omega (arith, length-append m.lookups (sent_op m.store 2 op ∷ [])) in
        let fresh : flying k m'.requests ≡ sent =
          flying-post random k sent base
          ∙ ap (λ (t : List (Contact Addr)). t ++ sent) (flying_none k m.requests v.known) in
        let zero_base : 0 + k ≡ k = omega arith in
        (
          m',
          rw (send-some m.store 2 op) refl,
          record {
            local_id = subst (IsId id_size) (sym p.local) v.local_id;
            table =
                subst (λ (t : KadId). IsTable t 0 0 m'.table) (sym p.local)
                  (subst (IsTable m.local 0 0) (sym p.table) v.table);
            known =
                subst (λ (t : List (FindOp Addr)). All (λ q. q.lookup < length t) m'.requests)
                  (sym p.lookups)
                  (p.known (length base.lookups) (omega (arith, longer)) (
                    All-imp (λ (q : Request Addr) h. omega (arith, longer, h)) m.requests v.known));
            tracks =
                subst (λ (t : List (FindOp Addr)). AllTrack 0 t m'.requests) (sym p.lookups)
                  (AllTrack-append 0 m.lookups m.requests m'.requests (sent_op m.store 2 op)
                    v.tracks
                    (λ i ne. flying-post_other random k i sent base (λ q. ne (zero_base ∙ q)))
                    (subst (Tracks (sent_op m.store 2 op))
                      (sym (ap (λ (t : ℕ). flying t m'.requests) zero_base ∙ fresh))
                      (send-Tracks m.store 2 op [] (new_find-Tracks key m) (omega arith))));
          },
        )

    abbrev pub Receives : Option (Manager Addr × Reply Addr) → Type ℓ
    Receives o = (m' : Manager Addr) × (reply : Reply Addr) × (o ≡ some (m', reply)) × IsManager m'

    -- The contact that sent the message is no longer stale.
    abbrev pub revived : Manager Addr → Contact Addr → Manager Addr
    revived m c =
        if is_stale m.store c then record m { store = set_fail_qty m.store c.ref 0 } else m

    pub revived-IsManager :
        (m : Manager Addr) (c : Contact Addr) → IsManager m → IsManager (revived m c)
    revived-IsManager m c v = elim (Bool-cases (is_stale m.store c)) [
      | inl stale ↦
          rw stale
            (record { local_id = v.local_id; table = v.table; known = v.known; tracks = v.tracks })
      | inr live ↦ rw live v
    ]

    -- In a manager that keeps its invariant, for ids of 20 bytes, `RecieveCbk` returns and the
    -- manager keeps its invariant.
    pub receive-IsManager :
        (src : KadId) (from : Addr) (msg_id : ℕ) (message : Message Addr) (m : Manager Addr)
        → IsManager m
        → IsId id_size src
        → IsMessage message
        → Receives (receive random src from msg_id message m)
    unfolding receive
    receive-IsManager src from msg_id message m v w n = elim (Bool-cases (id_eq src m.local)) [
      | inl self ↦
          rw (self, receive)
            (
              record m { msg_dropped = next_count m.msg_dropped },
              no_reply,
              refl,
              record { local_id = v.local_id; table = v.table; known = v.known; tracks = v.tracks },
            )
      | inr other ↦
          let (m1, c, e, v1, _, _) = find_add_contact-IsManager src from m v w other in
          rw (other, e, receive) (by_message message n (revived m1 c) (revived-IsManager m1 c v1))
    ]
      where
        by_message :
            (message : Message Addr)
            → IsMessage message
            → (m2 : Manager Addr) → IsManager m2
            → Receives (elim message [
              | ping ↦ some (m2, pong)
              | find_req target ↦
                  some (m2, find_rsp (closest m2.local m2.store target bucket_size m2.table))
              | store_req ↦ some (m2, no_reply)
              | remove_req ↦ some (m2, no_reply)
              | response named ↦
                  Option.map
                    (λ (m3 : Manager Addr). (m3, no_reply))
                    (handle_response random msg_id named m2)
              | unhandled ↦ some (m2, no_reply)
            ])
        by_message ping n m2 v2 = (m2, pong, refl, v2)
        by_message (find_req target) n m2 v2 = (m2, _, refl, v2)
        by_message store_req n m2 v2 = (m2, no_reply, refl, v2)
        by_message remove_req n m2 v2 = (m2, no_reply, refl, v2)
        by_message (response named) n m2 v2 =
            let (m3, e, v3) = handle_response-IsManager random msg_id named m2 v2 n in
            (m3, no_reply, rw e refl, v3)
        by_message unhandled n m2 v2 = (m2, no_reply, refl, v2)
