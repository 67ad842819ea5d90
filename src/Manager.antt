-- ===== src/Manager.antt =====
-- src/KadOpMgr.h: the manager of a node's operations, with its routing table, the requests that wait
-- for an answer (`mOps`, each a `ReqTracker`) and the lookups that sent them.
-- `random()` gives the ids of requests: a parameter, by the number of the draw. A tracker's address is
-- its serial number, and the lookup that its handler belongs to is an index. Each operation is one
-- step, as the lock makes the others; `RecieveCbk` lets it go after `FindAddContact` and takes it again for
-- what a request or a response reads, and what may come between is not modelled. The counters of bytes that `RecieveCbk`
-- keeps are in Message/Receiving.antt.
pub mod Flying
pub mod Invariant
pub mod Run
pub mod Receive
pub mod Steps
pub mod Kept
pub mod Listed
pub mod Sorted
pub mod Finished
pub mod OnceOnly
pub mod Cache
pub mod Join
pub mod Network
pub mod Joined
pub mod Refresh
pub mod Posted
pub mod Named
use mathlib.Core.Option
use kad.Common.{
  ℕ, zero, suc, ◌+◌, ◌%◌, ◌^◌, Bool, true, false, Option, none, some, List, [], ◌∷◌, ◌++◌,
}
use kad.Common.{◌==◌, if◌then◌else◌, length, set}
use kad.Config.{bucket_size}
use kad.NodeId.{KadId, id_eq}
use kad.Contact.{Contact, Store, set_fail_qty, is_stale}
use kad.Routing.{Node, Added, add}
use kad.Routing.Query.{closest}
use kad.Lookup.{FindOp, Turn, new_find, start}
use kad.Lookup.Respond.{on_response}

pub record Request {ℓ} (Addr : Type ℓ) : Type ℓ where
  pub serial : ℕ
  pub msg_id : ℕ
  pub dst : Contact Addr
  pub lookup : ℕ

pub record Manager {ℓ} (Addr : Type ℓ) : Type ℓ where
  pub local : KadId
  pub table : Node Addr
  pub store : Store
  pub requests : List (Request Addr)
  pub lookups : List (FindOp Addr)
  pub issued : ℕ
  -- The lookups whose handlers were called.
  pub finished : List ℕ
  pub cont_in_rt : ℕ
  pub req_succ : ℕ
  pub req_fail : ℕ
  pub rsp_unkn : ℕ
  pub msg_dropped : ℕ

-- The messages that `RecieveCbk` tells apart; a response is read as the contacts that it names.
pub data Message {ℓ} (Addr : Type ℓ) : Type ℓ where
  ping : Message Addr
  find_req : KadId → Message Addr
  store_req : Message Addr
  remove_req : Message Addr
  response : List (KadId × Addr) → Message Addr
  unhandled : Message Addr

-- What it sends back.
pub data Reply {ℓ} (Addr : Type ℓ) : Type ℓ where
  no_reply : Reply Addr
  pong : Reply Addr
  find_rsp : List (Contact Addr) → Reply Addr

-- The counters of `Stats` that are `unsigned`.
abbrev pub next_count : ℕ → ℕ
next_count n = (n + 1) % 2 ^ 32

module _ {ℓ} {Addr : Type ℓ} where
  abbrev pub nth : List (FindOp Addr) → ℕ → Option (FindOp Addr)
  nth [] k = none
  nth (op ∷ ops) zero = some op
  nth (op ∷ ops) (suc k) = nth ops k

  -- `FindAfter` and `Remove` on the requests.
  unfoldable pub take_out :
      (Request Addr → Bool) → List (Request Addr) → Option (Request Addr × List (Request Addr))
  take_out p [] = none
  take_out p (r ∷ rs) =
      let rest = take_out p rs in
      if p r
      then some (r, rs)
      else Option.map (λ (t : Request Addr × List (Request Addr)). (t.0, r ∷ t.1)) rest

  -- The constructor of the manager.
  abbrev pub new_manager : KadId → Node Addr → Store → Manager Addr
  new_manager local table s = record {
    local = local;
    table = table;
    store = s;
    requests = [];
    lookups = [];
    issued = 0;
    finished = [];
    cont_in_rt = 0;
    req_succ = 0;
    req_fail = 0;
    rsp_unkn = 0;
    msg_dropped = 0;
  }

  -- `FindAddContact`. `AddNode` returns a contact, so that the cache behind it is not asked.
  unfoldable pub find_add_contact :
      KadId → Addr → Manager Addr → Option (Manager Addr × Option (Contact Addr))
  find_add_contact id addr m =
      if id_eq id m.local
      then some (m, none)
      else Option.map
          (λ (r : Added Addr). (
            record m { table = r.node; store = r.store; cont_in_rt = next_count m.cont_in_rt },
            some r.contact,
          ))
          (add m.local m.store id addr m.table)

  module _ (random : ℕ → ℕ) where
    -- `SendRequest` with a tracker, for each contact that `Send` asks.
    unfoldable pub post : ℕ → List (Contact Addr) → Manager Addr → Manager Addr
    post k [] m = m
    post k (c ∷ cs) m = post k cs (record m {
      requests =
          m.requests
          ++ record { serial = m.issued; msg_id = random m.issued; dst = c; lookup = k } ∷ [];
      issued = suc m.issued;
    })

    -- `Find`.
    unfoldable pub find_key : KadId → Manager Addr → Option (Manager Addr)
    find_key key m =
        Option.map
          (λ (r : FindOp Addr × List (Contact Addr)).
            post (length m.lookups) r.1 (record m { lookups = m.lookups ++ r.0 ∷ [] }))
          (start m.store (new_find m.local m.store m.table key))

    -- What a call of the lookup's handler leaves.
    abbrev pub settle : ℕ → Turn Addr → Manager Addr → Manager Addr
    settle k turn m = post k turn.sent (record m {
      table = turn.table;
      store = turn.store;
      lookups = set m.lookups k turn.op;
      finished = if turn.complete then m.finished ++ k ∷ [] else m.finished;
      cont_in_rt = (m.cont_in_rt + turn.in_rt) % 2 ^ 32;
    })

    -- `mHandler(rsp, mDst)`.
    unfoldable pub handle :
        Option (List (KadId × Addr)) → Request Addr → Manager Addr → Option (Manager Addr)
    handle rsp r m = elim (nth m.lookups r.lookup) [
      | none ↦ none
      | some op ↦
          Option.map (λ (turn : Turn Addr). settle r.lookup turn m)
            (on_response m.local m.table m.store op rsp r.dst)
    ]

    unfoldable pub handle_response : ℕ → List (KadId × Addr) → Manager Addr → Option (Manager Addr)
    handle_response msg_id named m =
        if msg_id == 0 then some m else elim (take_out (λ r. r.msg_id == msg_id) m.requests) [
          | none ↦ some (record m { rsp_unkn = next_count m.rsp_unkn })
          | some (r, rest) ↦ handle (some named) r (record m {
            requests = rest;
            req_succ = next_count m.req_succ;
            store = set_fail_qty m.store r.dst.ref 0;
          })
        ]

    unfoldable pub handle_timeout : ℕ → Manager Addr → Option (Manager Addr)
    handle_timeout serial m = elim (take_out (λ r. r.serial == serial) m.requests) [
      | none ↦ some m
      | some (r, rest) ↦ handle none r (record m {
        requests = rest;
        req_fail = next_count m.req_fail;
        store = set_fail_qty m.store r.dst.ref ((m.store.fail_qty r.dst.ref + 1) % 2 ^ 32);
      })
    ]

    -- `RecieveCbk` on a message from `src` at `from`, after it is unpacked.
    unfoldable pub receive :
        KadId → Addr → ℕ → Message Addr → Manager Addr → Option (Manager Addr × Reply Addr)
    receive src from msg_id message m =
        if id_eq src m.local
        then some (record m { msg_dropped = next_count m.msg_dropped }, no_reply)
        else elim (find_add_contact src from m) [
          | none ↦ none
          | some (m1, none) ↦ none
          | some (m1, some c) ↦
              let m2 =
                if is_stale m1.store c
                then record m1 { store = set_fail_qty m1.store c.ref 0 }
                else m1 in
              elim message [
                | ping ↦ some (m2, pong)
                | find_req target ↦
                    some (m2, find_rsp (closest m2.local m2.store target bucket_size m2.table))
                | store_req ↦ some (m2, no_reply)
                | remove_req ↦ some (m2, no_reply)
                | response named ↦
                    Option.map (λ (m3 : Manager Addr). (m3, no_reply))
                      (handle_response msg_id named m2)
                | unhandled ↦ some (m2, no_reply)
              ]
        ]
