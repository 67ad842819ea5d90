-- ===== src/Message/Safety.antt =====
-- No message, however it is made, breaks the invariant of a node (`RecieveCbk` of src/KadOpMgr.h).
use mathlib.Core.Option
use kad.Common.{ℕ, ◌≤◌, ◌≡◌, ◌⊎◌, refl, arith, Bool, true, false, Option, none, some, List, []}
use kad.Common.{
  ◌-◌, ◌∷◌, map, drop, length-drop, length-map, length, All, ◌==◌, Bool-cases, Option-cases, inl,
  inr,
}
use kad.Config.{id_size, alpha}
use kad.NodeId.{KadId, id_eq}
use kad.NodeId.Value.{IsId}
use kad.Lookup.Answer.{IsNamed}
use kad.Manager.{Manager, Request, Message, Reply, no_reply, pong, find_rsp, find_req, response}
use kad.Manager.Invariant.{IsManager}
use kad.Manager.Receive.{IsMessage, receive-IsManager}
use kad.Manager.Network.{Datagram, send_response}
use kad.Message.Format.{Object, accepted, message_of}
use kad.Manager.Posted.{Posted, receive-Posted}
use kad.Message.Receiving.{
  find_request, sent_requests, Header, Wire, Traffic, Ended, ended, threw, is_response,
  reads_contacts, read_response_of, read_body, answered, dropped, receive_headed, receive_object,
  first_item,
}

-- An id of a message has its 20 bytes, whatever the message is: an unpacked id is as long as it was.
pub record Sized {ℓ} {Addr : Type ℓ} (wire : Wire Addr) : Type ℓ where
  pub src_size : (o : Object) (h : Header) → wire.header o ≡ some h → IsId id_size h.src_id
  pub contact_sizes :
      (o : Object) (named : List (KadId × Addr))
      → wire.contacts o ≡ some named
      → IsNamed (some named)

plain-IsMessage {ℓ} : (Addr : Type ℓ) (t : ℕ) → IsMessage (message_of {Addr = Addr} t [] [])
unfolding message_of
plain-IsMessage Addr t = elim (Bool-cases (t == 0)) [
  | inl a ↦ rw a tt
  | inr a ↦ elim (Bool-cases (t == 4)) [
    | inl b ↦ rw (a, b) tt
    | inr b ↦ elim (Bool-cases (t == 6)) [
      | inl c ↦ rw (a, b, c) tt
      | inr c ↦ elim (Bool-cases (t == 8)) [
        | inl d ↦ rw (a, b, c, d) tt
        | inr d ↦ elim (Bool-cases (is_response t)) [
          | inl e ↦ rw (a, b, c, d, e) tt
          | inr e ↦ rw (a, b, c, d, e) tt
        ]
      ]
    ]
  ]
]

module _ {ℓ} {Addr : Type ℓ} where
  module _ (wire : Wire Addr) (random : ℕ → ℕ) (sized : Sized wire) where
    -- The exception of a call is a conversion's.
    pub data Unread (o : Object) : Type ℓ where
      no_header : wire.header (first_item o) ≡ none → Unread o
      no_target : wire.target o ≡ none → Unread o
      no_contacts : wire.contacts o ≡ none → Unread o

    -- The manager keeps its invariant. At most one response goes back to the sender, and at most ALPHA
    -- requests go out, each FIND_REQ; all are from this node.
    abbrev pub Safe : Object → Addr → KadId → Ended Addr → Type ℓ
    Safe o from local threw = Unread o
    Safe o from local (ended m s replies requests) =
        IsManager m
        × All (λ (d : Datagram Addr). (d.to ≡ from) × (d.src_id ≡ local)) replies
        × (length replies ≤ 1)
        × All (λ (d : Datagram Addr). (d.msg_type ≡ 4) × (d.src_id ≡ local)) requests
        × (length requests ≤ alpha)

    -- What is read of an object.
    abbrev Reads : Object → Option (Message Addr) → Type ℓ
    Reads o r =
        ((r ≡ none) × Unread o)
        ⊎ ((message : Message Addr) × (r ≡ some message) × IsMessage message)

    read_response-Reads :
        (o : Object) (named : Option (List (KadId × Addr))) (read : Bool)
        → wire.contacts o ≡ named
        → Reads o (read_response_of wire random named read)
    read_response-Reads o (some named) read e =
        inr (response named, refl, sized.contact_sizes o named e)
    read_response-Reads o none true e = inl (refl, no_contacts e)
    read_response-Reads o none false e = inr (response [], refl, tt)

    read_target-Reads :
        (o : Object) (t : Option KadId) → wire.target o ≡ t → Reads o (Option.map find_req t)
    read_target-Reads o none e = inl (refl, no_target e)
    read_target-Reads o (some target) e = inr (find_req target, refl, tt)

    read_body-Reads :
        (h : Header) (o : Object) (m : Manager Addr) → Reads o (read_body wire random h o m)
    unfolding read_body
    read_body-Reads h o m = elim (Bool-cases (h.msg_type == 4)) [
      | inl find ↦ rw find (read_target-Reads o (wire.target o) refl)
      | inr other ↦ elim (Bool-cases (is_response h.msg_type)) [
        | inl rsp ↦
            rw (other, rsp)
              (read_response-Reads o (wire.contacts o) (reads_contacts h.msg_id m) refl)
        | inr plain ↦
            rw (other, plain)
              (inr (message_of h.msg_type [] [], refl, plain-IsMessage Addr h.msg_type))
      ]
    ]

    abbrev Sends : Addr → KadId → List (Datagram Addr) → Type ℓ
    Sends from local sent =
        All (λ (d : Datagram Addr). (d.to ≡ from) × (d.src_id ≡ local)) sent × (length sent ≤ 1)

    send_response-Sends :
        (local : KadId) (msg_id : ℕ) (from : Addr) (reply : Reply Addr)
        → Sends from local (send_response local msg_id from reply)
    send_response-Sends local msg_id from no_reply = (tt, omega arith)
    send_response-Sends local msg_id from pong = (((refl, refl), tt), omega arith)
    send_response-Sends local msg_id from (find_rsp cs) = (((refl, refl), tt), omega arith)

    find_requests-All :
        (local id : KadId) (rs : List (Request Addr))
        → local ≡ id
        → All
            (λ (d : Datagram Addr). (d.msg_type ≡ 4) × (d.src_id ≡ id))
            (map (find_request local) rs)
    find_requests-All local id [] e = tt
    find_requests-All local id (r ∷ rs) e = ((refl, e), find_requests-All local id rs e)

    sent_requests-Asks :
        (m m' : Manager Addr)
        → Posted random m m'
        → All (λ (d : Datagram Addr). (d.msg_type ≡ 4) × (d.src_id ≡ m.local)) (sent_requests m m')
          × (length (sent_requests m m') ≤ alpha)
    unfolding sent_requests
    sent_requests-Asks m m' posted =
        let skipped = length m'.requests - (m'.issued - m.issued) in
        (
          find_requests-All m'.local m.local (drop skipped m'.requests) posted.1,
          omega (
            arith,
            posted.0,
            length-drop skipped m'.requests,
            length-map (find_request m'.local) (drop skipped m'.requests),
          ),
        )

    dropped-Safe :
        (o : Object) (from : Addr) (m : Manager Addr) (s : Traffic)
        → IsManager m
        → Safe o from m.local (dropped wire random m s)
    dropped-Safe o from m s v = (
      record { local_id = v.local_id; table = v.table; known = v.known; tracks = v.tracks },
      tt,
      omega arith,
      tt,
      omega arith,
    )

    receive_headed-Safe :
        (h : Header) (from : Addr) (len : ℕ) (o : Object) (m : Manager Addr) (s : Traffic)
        → IsManager m
        → IsId id_size h.src_id
        → (r : Ended Addr) × (receive_headed wire random h from len o m s ≡ some r)
          × Safe o from m.local r
    unfolding receive_headed
    receive_headed-Safe h from len o m s v w = elim (Bool-cases (id_eq h.src_id m.local)) [
      | inl self ↦ (dropped wire random m s, rw self refl, dropped-Safe o from m s v)
      | inr other ↦ elim (read_body-Reads h o m) [
        | inl (e, u) ↦ (threw, rw (other, e) refl, u)
        | inr (message, e, q) ↦
            let (m', reply, got, v') =
              receive-IsManager random h.src_id from h.msg_id message m v w q in
            let posted = receive-Posted random h.src_id from h.msg_id message m v w q in
            let asks = sent_requests-Asks m m' (rw got at posted) in
            let sends = send_response-Sends m.local h.msg_id from reply in
            (
              answered wire random h from len m s (m', reply),
              rw (other, e) (rw got refl),
              (v', sends.0, sends.1, asks.0, asks.1),
            )
      ]
    ]

    -- Let ids read from messages have 20 bytes, and the manager keep its invariant. For every
    -- object, sender, length, and whether the message is lost or not, `RecieveCbk` ends. Either
    -- the manager keeps its invariant, at most one response is sent, to the sender and from this
    -- node's id, and at most ALPHA requests are sent, all of them FIND_REQ from this node's id; or
    -- there is an exception, and then the object cannot be converted to a header, a request or a
    -- response.
    pub receive_object-Safe :
        (lost : Bool) (from : Addr) (len : ℕ) (o : Object) (m : Manager Addr) (s : Traffic)
        → IsManager m
        → (r : Ended Addr) × (receive_object wire random lost from len o m s ≡ some r)
          × Safe o from m.local r
    unfolding receive_object
    receive_object-Safe lost from len o m s v = elim (Bool-cases (accepted o)) [
      | inr refused ↦ (dropped wire random m s, rw refused refl, dropped-Safe o from m s v)
      | inl good ↦ elim (Bool-cases lost) [
        | inl gone ↦ (ended m s [] [], rw (good, gone) refl, (v, tt, omega arith, tt, omega arith))
        | inr here ↦ elim (Option-cases (wire.header (first_item o))) [
          | inl e ↦ (threw, rw (good, here, e) refl, no_header e)
          | inr (h, e) ↦
              let (r, got, safe) =
                receive_headed-Safe h from len o m s v (sized.src_size (first_item o) h e) in
              (r, rw (good, here, e) got, safe)
        ]
      ]
    ]
