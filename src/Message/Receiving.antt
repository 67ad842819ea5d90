-- ===== src/Message/Receiving.antt =====
-- `RecieveCbk` of src/KadOpMgr.h from the object on that msgpack has unpacked: the checks, the loss, the
-- conversions and the counters of bytes, around `receive` of Manager.antt, which is the rest. msgpack is
-- not in the repository: its conversions of an object to the structures of src/KadMsg.h, which throw at
-- another type, are the record `Wire`; nothing catches.
use mathlib.Core.Option
use kad.Common.{
  ℕ, ◌+◌, ◌-◌, map, drop, length, ◌%◌, ◌^◌, Bool, true, false, Option, none, some, List, [],
}
use kad.Common.{◌==◌, ◌||◌, ◌&&◌, not, if◌then◌else◌}
use kad.NodeId.{KadId, id_eq}
use kad.Contact.{Contact}
use kad.Lookup.{FindOp, holds}
use kad.Manager.{
  next_count, Manager, Request, Message, Reply, no_reply, pong, find_rsp, find_req, response,
  receive, nth, take_out,
}
use kad.Manager.Network.{Datagram, send_response}
use kad.Message.Format.{Object, nil, array, item, accepted, message_of}

-- The fields of `KadMsg` in a message.
pub record Header : Type 0 where
  pub msg_type : ℕ
  pub msg_id : ℕ
  pub src_id : KadId

-- The conversions to `KadMsg`, `KadMsgFindReq` and `KadMsgFindRsp`, `none` where they throw, and the size
-- of a packed response.
pub record Wire {ℓ} (Addr : Type ℓ) : Type ℓ where
  pub header : Object → Option Header
  pub target : Object → Option KadId
  pub contacts : Object → Option (List (KadId × Addr))
  pub response_size : Reply Addr → ℕ

-- `Stats`, the counters of bytes of messages.
pub record Traffic : Type 0 where
  pub udp_req_rx : ℕ
  pub udp_rsp_rx : ℕ
  pub udp_rsp_tx : ℕ

abbrev pub add_64 : ℕ → ℕ → ℕ
add_64 count len = (count + len) % 2 ^ 64

abbrev pub is_response : ℕ → Bool
is_response t = t == 1 || t == 3 || t == 5 || t == 7 || t == 9

abbrev pub is_request : ℕ → Bool
is_request t = t == 0 || t == 4 || t == 6 || t == 8

unfoldable pub count_rx : ℕ → ℕ → Traffic → Traffic
count_rx t len s =
    if is_request t
    then record s { udp_req_rx = add_64 s.udp_req_rx len }
    else if is_response t
    then record s { udp_rsp_rx = add_64 s.udp_rsp_rx len }
    else s

-- The call ends, with the responses and the requests that it sends, or an exception ends the program.
pub data Ended {ℓ} (Addr : Type ℓ) : Type ℓ where
  ended : Manager Addr → Traffic → List (Datagram Addr) → List (Datagram Addr) → Ended Addr
  threw : Ended Addr

abbrev pub first_item : Object → Object
first_item (array (item o os)) = o
first_item _ = nil

module _ {ℓ} {Addr : Type ℓ} where
  -- `SendRequest` with a tracker, the `KadMsgFindReq` that `Send` makes.
  abbrev pub find_request : KadId → Request Addr → Datagram Addr
  find_request local r = record { to = r.dst.addr; msg_type = 4; msg_id = r.msg_id; src_id = local }

  -- The requests sent between two states, in which the last requests are new.
  unfoldable pub sent_requests : Manager Addr → Manager Addr → List (Datagram Addr)
  sent_requests m m' =
      map (find_request m'.local) (drop (length m'.requests - (m'.issued - m.issued)) m'.requests)

  -- Whether the contacts of a response are read: its request is there, and its lookup waits for it.
  abbrev pub in_block : Option (FindOp Addr) → Contact Addr → Bool
  in_block none c = false
  in_block (some op) c = holds op.block c

  abbrev pub of_request : List (FindOp Addr) → Option (Request Addr × List (Request Addr)) → Bool
  of_request lookups none = false
  of_request lookups (some (r, rest)) = in_block (nth lookups r.lookup) r.dst

  unfoldable pub reads_contacts : ℕ → Manager Addr → Bool
  reads_contacts msg_id m =
      not (msg_id == 0)
      && of_request m.lookups (take_out (λ (r : Request Addr). r.msg_id == msg_id) m.requests)

  -- The counter of bytes that responses add to.
  abbrev pub count_tx : Wire Addr → Reply Addr → Traffic → Traffic
  count_tx wire no_reply s = s
  count_tx wire pong s = record s { udp_rsp_tx = add_64 s.udp_rsp_tx (wire.response_size pong) }
  count_tx wire (find_rsp cs) s = record s {
    udp_rsp_tx = add_64 s.udp_rsp_tx (wire.response_size (find_rsp cs));
  }

  module _ (wire : Wire Addr) (random : ℕ → ℕ) where
    abbrev pub read_response_of : Option (List (KadId × Addr)) → Bool → Option (Message Addr)
    read_response_of (some named) read = some (response named)
    read_response_of none true = none
    read_response_of none false = some (response [])

    -- What the object is converted to after the header, if anything.
    unfoldable pub read_body : Header → Object → Manager Addr → Option (Message Addr)
    read_body h o m =
        if h.msg_type == 4
        then Option.map find_req (wire.target o)
        else if is_response h.msg_type
        then read_response_of (wire.contacts o) (reads_contacts h.msg_id m)
        else some (message_of h.msg_type [] [])

    abbrev pub answered :
        Header → Addr → ℕ → Manager Addr → Traffic → Manager Addr × Reply Addr → Ended Addr
    answered h from len m s (m', reply) =
        ended m' (count_tx wire reply (count_rx h.msg_type len s))
          (send_response m.local h.msg_id from reply) (sent_requests m m')

    abbrev pub dropped : Manager Addr → Traffic → Ended Addr
    dropped m s = ended (record m { msg_dropped = next_count m.msg_dropped }) s [] []

    unfoldable pub receive_headed :
        Header → Addr → ℕ → Object → Manager Addr → Traffic → Option (Ended Addr)
    receive_headed h from len o m s =
        if id_eq h.src_id m.local then some (dropped m s) else elim (read_body h o m) [
          | none ↦ some threw
          | some message ↦
              Option.map (answered h from len m s) (receive random h.src_id from h.msg_id message m)
        ]

    -- `lost` is whether `RandRange(0, 100)` is less than 30.
    unfoldable pub receive_object :
        Bool → Addr → ℕ → Object → Manager Addr → Traffic → Option (Ended Addr)
    receive_object lost from len o m s =
        if not (accepted o)
        then some (dropped m s)
        else if lost
        then some (ended m s [] [])
        else elim (wire.header (first_item o)) [
          | none ↦ some threw
          | some h ↦ receive_headed h from len o m s
        ]
