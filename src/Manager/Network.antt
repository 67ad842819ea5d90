-- ===== src/Manager/Network.antt =====
-- src/KadOpMgr.h: `Ping`, `Join`, `Leave`, `RefreshAllBuckets` and the messages that are not answered
-- through a `ReqTracker`. What a node does while these sleep (messages, timeouts) is a function of the
-- number of the round, and random ids are a function of the number of the draw.
use mathlib.Core.Option
use kad.Common.{ℕ, zero, suc, ◌+◌, ◌-◌, ◌*◌, false, Option, none, some, List, [], ◌∷◌, ◌++◌}
use kad.Common.{map, length, ◌==◌, if◌then◌else◌}
use kad.Config.{id_size, id_bits}
use kad.NodeId.{KadId, or, xor, set_bits, power_of_two}
use kad.Contact.{Contact}
use kad.Routing.Query.{count_contacts, get_contacts}
use kad.Manager.{Manager, Reply, no_reply, pong, find_rsp, find_key}
use kad.Manager.Join.{first_delay, next_delay}

-- A message on its way: its header and where it goes.
pub record Datagram {ℓ} (Addr : Type ℓ) : Type ℓ where
  pub to : Addr
  pub msg_type : ℕ
  pub msg_id : ℕ
  pub src_id : KadId

-- `Join`, so far: the node, its pings, the milliseconds slept, and the next delay.
pub record Joining {ℓ} (Addr : Type ℓ) : Type ℓ where
  pub manager : Manager Addr
  pub pings : List (Datagram Addr)
  pub slept : ℕ
  pub delay : ℕ

-- The id that is looked up to refresh bucket `i`.
unfoldable pub refresh_target : KadId → KadId → ℕ → KadId
refresh_target local rnd i = xor (or (set_bits rnd 0 i false) (power_of_two id_size i)) local

module _ {ℓ} {Addr : Type ℓ} where
  -- `SendRequest(s, addr)`: no tracker waits for the answer, whose number is 0.
  abbrev pub send_request : KadId → ℕ → Addr → Datagram Addr
  send_request local msg_type addr = record {
    to = addr;
    msg_type = msg_type;
    msg_id = 0;
    src_id = local;
  }

  -- `SendResponse(s, addr, req)`, for the reply of `RecieveCbk` to a request with number `msg_id`.
  abbrev pub send_response : KadId → ℕ → Addr → Reply Addr → List (Datagram Addr)
  send_response local msg_id addr no_reply = []
  send_response local msg_id addr pong =
      record { to = addr; msg_type = 1; msg_id = msg_id; src_id = local } ∷ []
  send_response local msg_id addr (find_rsp contacts) =
      record { to = addr; msg_type = 5; msg_id = msg_id; src_id = local } ∷ []

  -- `SendPing`.
  abbrev pub send_ping : KadId → Addr → Datagram Addr
  send_ping local addr = send_request local 0 addr

  unfoldable pub ping_all : KadId → List Addr → List (Datagram Addr)
  ping_all local [] = []
  ping_all local (a ∷ addrs) = send_ping local a ∷ ping_all local addrs

  -- `Leave`.
  unfoldable pub leave : Manager Addr → List Addr
  leave m = map (λ (c : Contact Addr). c.addr) (get_contacts m.store m.table)

  module _ (wait : ℕ → Manager Addr → Manager Addr) (bsp : List Addr) where
    -- One round of the loop of `Join`.
    abbrev pub join_round : ℕ → Joining Addr → Joining Addr
    join_round round j = record {
      manager = wait round j.manager;
      pings = j.pings ++ ping_all j.manager.local bsp;
      slept = j.slept + 50 * length bsp + j.delay;
      delay = next_delay j.delay;
    }

    -- Its loop, from round `round` on.
    unfoldable pub join_loop : ℕ → ℕ → Joining Addr → Option (Joining Addr)
    join_loop zero round j = if count_contacts j.manager.table == 0 then none else some j
    join_loop (suc fuel) round j =
        let rest = join_loop fuel (suc round) (join_round round j) in
        if count_contacts j.manager.table == 0 then rest else some j

    module _ (random : ℕ → ℕ) where
      abbrev pub look_up_self : Joining Addr → Option (Joining Addr)
      look_up_self j =
          Option.map (λ (m : Manager Addr). record j { manager = m })
            (find_key random j.manager.local j.manager)

      -- `Join`; with no address it returns at once.
      unfoldable pub join : ℕ → Manager Addr → Option (Joining Addr)
      join fuel m =
          let j : Joining Addr = record {
            manager = m;
            pings = [];
            slept = 0;
            delay = first_delay;
          } in
          if length bsp == 0
          then some j
          else elim (join_loop fuel 0 j) [ none ↦ none | some j' ↦ look_up_self j' ]

  -- `wait k` is what the node does in the 50 milliseconds after the k-th lookup.
  module _ (random : ℕ → ℕ) (random_id : ℕ → KadId) (wait : ℕ → Manager Addr → Manager Addr) where
    -- The loop of `RefreshAllBuckets`, `count` rounds from `i` on.
    unfoldable pub refresh_from : ℕ → ℕ → Manager Addr → Option (Manager Addr)
    refresh_from zero i m = some m
    refresh_from (suc count) i m =
        elim (find_key random (refresh_target m.local (random_id i) i) m) [
          | none ↦ none
          | some m' ↦ refresh_from count (suc i) (wait i m')
        ]

    abbrev pub refresh_all_buckets : Manager Addr → Option (Manager Addr)
    refresh_all_buckets m = refresh_from (id_bits - 1) 1 m
