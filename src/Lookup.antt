-- ===== src/Lookup.antt =====
-- src/KadOpMgr.h, `KadIterativeFindOp`: an iterative lookup of a key. It keeps the closest contacts
-- that it knows (`mList`), those that it has asked (`mBlock`) and the number of requests without an
-- answer (`mPendingQty`). The requests that it sends are a list of their destinations, which the
-- manager of the operations takes from it; `complete` tells that the handler is called with the list.
-- An assertion that fails, and a count that would be negative, is `none`.
pub mod Respond
pub mod Ordered
pub mod Listed
pub mod Merged
pub mod Completes
pub mod Sent
pub mod Reach
pub mod Asked
pub mod Once
pub mod Pending
pub mod Answer
use kad.Common.{ℕ, zero, suc, ◌+◌, ◌-◌, ◌*◌, ◌%◌, ◌^◌, Bool, true, false, not, ◌&&◌, ◌||◌}
use kad.Common.{Option, none, some, List, [], ◌∷◌, ◌++◌, ltb, leb, ◌==◌, if◌then◌else◌, length}
use kad.Config.{alpha, bucket_size, stale_limit}
use kad.NodeId.{KadId, id_eq, closer, is_zero}
use kad.Contact.{Contact, Store, is_stale, became_stale}
use kad.Routing.{Node, Added, add}
use kad.Routing.Query.{find_in, closest}

pub record FindOp {ℓ} (Addr : Type ℓ) : Type ℓ where
  pub key : KadId
  pub list : List (Contact Addr)
  pub block : List (Contact Addr)
  pub pending : ℕ

-- Where `Insert` stops: at the id itself, at the end, or before a contact that is farther.
pub data Spot {ℓ} (Addr : Type ℓ) : Type ℓ where
  existing : Spot Addr
  at_end : Spot Addr
  in_front : List (Contact Addr) → List (Contact Addr) → Spot Addr

-- What a call leaves: the lookup, the routing table and the contacts, the destinations of the
-- requests that it sent, whether it completed the lookup, and how often it raised `ContInRt`.
pub record Turn {ℓ} (Addr : Type ℓ) : Type ℓ where
  pub op : FindOp Addr
  pub table : Node Addr
  pub store : Store
  pub sent : List (Contact Addr)
  pub complete : Bool
  pub in_rt : ℕ

-- `Send`, so far: the contacts blocked, those asked, and whether `qty` of them are.
pub record Sending {ℓ} (Addr : Type ℓ) : Type ℓ where
  pub block : List (Contact Addr)
  pub sent : List (Contact Addr)
  pub done : Bool

-- The merge of a response, so far.
pub record Merging {ℓ} (Addr : Type ℓ) : Type ℓ where
  pub list : List (Contact Addr)
  pub table : Node Addr
  pub store : Store
  pub inserted : ℕ
  -- The calls of `FindAddContact`, each of which raises `ContInRt`.
  pub in_rt : ℕ

module _ {ℓ} {Addr : Type ℓ} where
  abbrev pub pop_back : List (Contact Addr) → List (Contact Addr)
  pop_back [] = []
  pop_back (c ∷ []) = []
  pop_back (c ∷ d ∷ cs) = c ∷ pop_back (d ∷ cs)

  -- A place later in the list.
  abbrev pub after_first : Contact Addr → Spot Addr → Spot Addr
  after_first x existing = existing
  after_first x at_end = at_end
  after_first x (in_front xs ys) = in_front (x ∷ xs) ys

  -- The loop of `Insert`.
  unfoldable pub find_spot : KadId → Contact Addr → List (Contact Addr) → Spot Addr
  find_spot key c [] = at_end
  find_spot key c (x ∷ xs) =
      let rest = find_spot key c xs in
      if id_eq c.id x.id
      then existing
      else if closer key c.id x.id
      then in_front [] (x ∷ xs)
      else after_first x rest

  unfoldable pub insert : KadId → Contact Addr → List (Contact Addr) → List (Contact Addr) × Bool
  insert key c list = elim (find_spot key c list) [
    | existing ↦ (list, false)
    | at_end ↦ if ltb (length list) bucket_size then (list ++ c ∷ [], true) else (list, false)
    | in_front xs ys ↦
        if ltb (length list) bucket_size
        then (xs ++ c ∷ ys, true)
        else (pop_back (xs ++ c ∷ ys), true)
  ]

  -- The constructor, with the contacts that `FindClosest` returns.
  unfoldable pub insert_all :
      KadId → List (Contact Addr) → List (Contact Addr) → List (Contact Addr)
  insert_all key [] list = list
  insert_all key (c ∷ cs) list = insert_all key cs (insert key c list).0

  unfoldable pub new_find : KadId → Store → Node Addr → KadId → FindOp Addr
  new_find local s table key = record {
    key = key;
    list = insert_all key (closest local s key bucket_size table) [];
    block = [];
    pending = 0;
  }

  -- `FindAfter(First(), c)` compares pointers.
  unfoldable pub holds : List (Contact Addr) → Contact Addr → Bool
  holds [] c = false
  holds (x ∷ xs) c = (x.ref == c.ref) || holds xs c

  -- `Remove` of the place that `FindAfter` found.
  unfoldable pub without : List (Contact Addr) → Contact Addr → List (Contact Addr)
  without [] c = []
  without (x ∷ xs) c = let rest = without xs c in if x.ref == c.ref then xs else x ∷ rest

  -- The inner loop of `Send`, over the contacts with `stale` failures.
  unfoldable pub send_pass : Store → ℕ → ℕ → List (Contact Addr) → Sending Addr → Sending Addr
  send_pass s qty stale [] t = t
  send_pass s qty stale (c ∷ cs) t = send_pass s qty stale cs (
      if t.done || (not (stale == s.fail_qty c.ref) || holds t.block c) then t else record {
        block = t.block ++ c ∷ [];
        sent = t.sent ++ c ∷ [];
        done = leb qty (suc (length t.sent));
      })

  -- Its outer loop, `count` passes from `stale` on.
  unfoldable pub send_passes : Store → ℕ → ℕ → ℕ → List (Contact Addr) → Sending Addr → Sending Addr
  send_passes s qty zero stale cs t = t
  send_passes s qty (suc count) stale cs t =
      send_passes s qty count (suc stale) cs (send_pass s qty stale cs t)

  unfoldable pub send : Store → ℕ → FindOp Addr → Option (FindOp Addr × List (Contact Addr))
  send s zero op = none
  send s (suc n) op =
      let t =
        send_passes s (suc n) stale_limit 0 op.list
          (record { block = op.block; sent = []; done = false }) in
      some (record op { block = t.block; pending = op.pending + length t.sent }, t.sent)

  -- `Start`.
  unfoldable pub start : Store → FindOp Addr → Option (FindOp Addr × List (Contact Addr))
  start s op = send s alpha op
