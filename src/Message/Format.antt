-- ===== src/Message/Format.antt =====
-- The checks of `RecieveCbk` (src/KadOpMgr.h) on a message that msgpack has unpacked, the kind that its
-- type number stands for, and ids in a message (src/KadNodeId.h, `msgpack_pack` and `msgpack_unpack`).
-- msgpack's objects are data; packing to bytes and unpacking are not modelled.
use kad.Common.{
  ℕ, suc, ◌<◌, ◌≡◌, ◌↔◌, refl, sym, ap, ◌∙◌, arith, Bool, true, false, Option, some, none,
}
use kad.Common.{List, length, ltb, ◌==◌, ==_iff, ◌||◌, if◌then◌else◌, Bool-cases, inl, inr}
use kad.NodeId.{KadId}
use kad.NodeId.Value.{IsId}
use kad.Manager.{Message, ping, find_req, store_req, remove_req, response, unhandled}

mutual
  pub data Object : Type 0 where
    nil : Object
    boolean : Bool → Object
    positive : ℕ → Object
    negative : ℕ → Object
    raw : List ℕ → Object
    array : Objects → Object
    mapping : Objects → Object

  pub data Objects : Type 0 where
    end : Objects
    item : Object → Objects → Objects

-- `KAD_MSG_QTY`.
abbrev pub message_qty : ℕ
message_qty = 14

abbrev pub size : Objects → ℕ
size end = 0
size (item o os) = suc (size os)

-- The first field of the header is a type in range.
abbrev pub type_in_range : Objects → Bool
type_in_range (item (positive t) os) = ltb t message_qty
type_in_range _ = false

abbrev pub header_accepted : Object → Bool
header_accepted (array fields) = if size fields == 3 then type_in_range fields else false
header_accepted _ = false

-- The sanity check.
unfoldable pub accepted : Object → Bool
accepted (array (item header os)) = header_accepted header
accepted _ = false

-- The switch on `mMsgType`; `target` and `named` are what the other fields of a request or a response
-- are read as.
unfoldable pub message_of {ℓ} : {Addr : Type ℓ} → ℕ → KadId → List (KadId × Addr) → Message Addr
message_of t target named =
    if t == 0
    then ping
    else if t == 4
    then find_req target
    else if t == 6
    then store_req
    else if t == 8
    then remove_req
    else if t == 1 || t == 3 || t == 5 || t == 7 || t == 9
    then response named
    else unhandled

-- A message with a well-formed header of type t.
abbrev pub Headed : Object → Type 0
Headed o =
    (t : ℕ) × (a : Object) × (b : Object) × (os : Objects) × (o
      ≡ array (item (array (item (positive t) (item a (item b end)))) os))
    × (t < message_qty)

size_three :
    (fields : Objects)
    → size fields ≡ 3
    → (x : Object) × (a : Object) × (b : Object) × (fields ≡ item x (item a (item b end)))
size_three end h = absurd (omega (arith, h))
size_three (item x end) h = absurd (omega (arith, h))
size_three (item x (item a end)) h = absurd (omega (arith, h))
size_three (item x (item a (item b end))) h = (x, a, b, refl)
size_three (item x (item a (item b (item c os)))) h = absurd (omega (arith, h))

first_type :
    (x : Object) (os : Objects)
    → type_in_range (item x os) ≡ true
    → (t : ℕ) × (x ≡ positive t) × (t < message_qty)
first_type (positive t) os h = (t, refl, ground arith)
first_type nil os h = absurd (cc h)
first_type (boolean b) os h = absurd (cc h)
first_type (negative n) os h = absurd (cc h)
first_type (raw bytes) os h = absurd (cc h)
first_type (array fields) os h = absurd (cc h)
first_type (mapping fields) os h = absurd (cc h)

header_lem :
    (fields os : Objects)
    → header_accepted (array fields) ≡ true
    → Headed (array (item (array fields) os))
header_lem fields os h = elim (Bool-cases (size fields == 3)) [
  | inl three ↦
      let (x, a, b, e) = size_three fields ((==_iff (size fields) 3).0 three) in
      let in_range : type_in_range fields ≡ true = rw three at h in
      let (t, e', l) =
        first_type x (item a (item b end))
          (sym (ap (λ (f : Objects). type_in_range f) e) ∙ in_range) in
      (
        t,
        a,
        b,
        os,
        ap (λ (f : Objects). array (item (array f) os)) e
            ∙ ap (λ (y : Object). array (item (array (item y (item a (item b end)))) os)) e',
        l,
      )
  | inr other ↦ absurd (cc (rw other at h))
]

accepted-Headed : (o : Object) → accepted o ≡ true → Headed o
unfolding accepted
accepted-Headed (array (item (array fields) os)) h = header_lem fields os h
accepted-Headed _ h = absurd (cc h)

-- The sanity check accepts a message just if it is an array whose first item is an array of three
-- fields, the first of them a positive integer less than KAD_MSG_QTY.
pub accepted_iff : (o : Object) → (accepted o ≡ true) ↔ Headed o
unfolding accepted
accepted_iff o = (
  accepted-Headed o,
  λ h.
      let (t, a, b, os, e, l) = h in
      let in_range : ltb t message_qty ≡ true = ground (arith, l) in
      ap (λ (x : Object). accepted x) e ∙ in_range,
)

-- `msgpack_pack` and `msgpack_unpack` of an id; `none` is a type error, thrown.
unfoldable pub pack_id : KadId → Object
pack_id d = raw d

unfoldable pub unpack_id : KadId → Object → Option KadId
unpack_id before (raw bytes) = if length bytes == length before then some bytes else some before
unpack_id before _ = none

-- For ids of n bytes, an id packed into a message and unpacked into an id is the id packed.
pub unpack_id-pack_id :
    (n : ℕ) (before d : KadId) → IsId n before → IsId n d → unpack_id before (pack_id d) ≡ some d
unfolding unpack_id pack_id
unpack_id-pack_id n before d p q =
    let same : (length d == length before) ≡ true =
      (==_iff (length d) (length before)).1 (q.size ∙ sym p.size) in
    rw same refl
