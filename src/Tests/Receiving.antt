-- ===== src/Tests/Receiving.antt =====
-- Messages at the receiver of src/KadOpMgr.h, read by a small format in which an id is its low byte.
use kad.Common.{ℕ, subst, ◌%◌, ◌<◌, ◌≡◌, arith, false, Option, none, some, List, [], ◌∷◌}
use kad.Config.{id_size}
use kad.NodeId.{KadId}
use kad.NodeId.Value.{IsId}
use kad.Lookup.Answer.{IsNamed}
use kad.Manager.Steps.{initial, initial-IsManager}
use kad.Message.Format.{Object, array, item, positive, raw, end}
use kad.Message.Receiving.{Header, Wire, Traffic, Ended, receive_object}
use kad.Message.Safety.{Sized, Safe, receive_object-Safe}
use kad.Tests.Data.{low_byte, low_byte-IsId, local, local-IsId}
use kad.Tests.Network.{draw}

abbrev read_header : Object → Option Header
read_header (array (item (positive t) (item (positive n) (item (raw (b ∷ [])) end)))) =
    some (record { msg_type = t; msg_id = n; src_id = low_byte (b % 256) })
read_header _ = none

abbrev read_target : Object → Option KadId
read_target (array (item h (item (raw (b ∷ [])) end))) = some (low_byte (b % 256))
read_target _ = none

abbrev read_contacts : Object → Option (List (KadId × ℕ))
read_contacts (array (item h (item (raw (b ∷ [])) end))) = some ((low_byte (b % 256), b) ∷ [])
read_contacts _ = none

abbrev wire : Wire ℕ
wire = record {
  header = read_header;
  target = read_target;
  contacts = read_contacts;
  response_size = λ reply. 40;
}

below_256 : (b : ℕ) → b % 256 < 256
below_256 b = omega arith

header_eq : {a b : Header} → ◌≡◌ {A = Option Header} (some a) (some b) → a ≡ b
header_eq e = cc

named_eq : {a b : List (KadId × ℕ)} → ◌≡◌ {A = Option (List (KadId × ℕ))} (some a) (some b) → a ≡ b
named_eq e = cc

src_size : (o : Object) (h : Header) → read_header o ≡ some h → IsId id_size h.src_id
src_size (array (item (positive t) (item (positive n) (item (raw (b ∷ [])) end)))) h e =
    subst (λ (x : Header). IsId id_size x.src_id) (header_eq e)
      (low_byte-IsId (b % 256) (below_256 b))
src_size _ h e = absurd (cc e)

contact_sizes :
    (o : Object) (named : List (KadId × ℕ)) → read_contacts o ≡ some named → IsNamed (some named)
contact_sizes (array (item h (item (raw (b ∷ [])) end))) named e =
    subst (λ (x : List (KadId × ℕ)). IsNamed (some x)) (named_eq e)
      (low_byte-IsId (b % 256) (below_256 b), tt)
contact_sizes _ named e = absurd (cc e)

wire-Sized : Sized wire
wire-Sized = record { src_size = src_size; contact_sizes = contact_sizes }

abbrev ping_from_five : Object
ping_from_five =
    array (item (array (item (positive 0) (item (positive 7) (item (raw (5 ∷ [])) end)))) end)

abbrev no_traffic : Traffic
no_traffic = record { udp_req_rx = 0; udp_rsp_rx = 0; udp_rsp_tx = 0 }

receive_object-Safe_example :
    (r : Ended ℕ) × (receive_object wire draw false 50 60 ping_from_five (initial local) no_traffic
      ≡ some r)
    × Safe wire draw wire-Sized ping_from_five 50 local r
receive_object-Safe_example =
    receive_object-Safe wire draw wire-Sized false 50 60 ping_from_five (initial local) no_traffic
      (initial-IsManager draw local local-IsId)
