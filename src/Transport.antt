-- ===== src/Transport.antt =====
-- src/KadOverIP.h: the thread that receives datagrams (`Listener`) and the connections over UDT
-- (`ConnectionMgr`). Sockets are numbers. UDT, sockets and threads are not in the repository's own code:
-- what a call of them returns is an argument, `none` for an invalid socket or an error. Log lines
-- are not modelled.
pub mod Delivery
use kad.Common.{
  ℕ, suc, Bool, true, false, not, ◌&&◌, ◌||◌, Option, none, some, List, [], ◌∷◌, ◌++◌, length, ◌==◌,
  if◌then◌else◌, Bytes,
}

-- One round of `Listener::Run`: whether the thread is stopping when the round begins and when the call
-- of `RecvFrom` is over, what was received (`none` for a length of 0 or an error), and from where.
pub record Round {ℓ} (Addr : Type ℓ) : Type ℓ where
  pub stopping : Bool
  pub received : Option Bytes
  pub stopped : Bool
  pub from : Addr

module _ {ℓ} {Addr : Type ℓ} where
  -- The calls of the callback of `Listener`.
  unfoldable pub run_listener : List (Round Addr) → List (Bytes × Addr)
  run_listener [] = []
  run_listener (r ∷ rounds) =
      let rest = run_listener rounds in
      if r.stopping then [] else elim r.received [
        | none ↦ rest
        | some bytes ↦ if r.stopped then [] else (bytes, r.from) ∷ rest
      ]

-- `mListener` is INVALID_SOCK where it is `none`; `watched` are the sockets of the epoll.
pub record ConnectionMgr : Type 0 where
  pub connections : List ℕ
  pub listener : Option ℕ
  pub watched : List ℕ
  pub closed : List ℕ
  pub running : Bool

abbrev refused : List ℕ → ConnectionMgr
refused closed = record {
  connections = [];
  listener = none;
  watched = [];
  closed = closed;
  running = false;
}

-- The constructor, by what `socket`, `bind` and `listen` return.
unfoldable pub new_connection_mgr : Option ℕ → Bool → Bool → ConnectionMgr
new_connection_mgr none bound listening = refused []
new_connection_mgr (some s) bound listening =
    if bound
    then (if listening
        then record {
          connections = [];
          listener = some s;
          watched = s ∷ [];
          closed = [];
          running = true;
        }
        else refused (s ∷ []))
    else refused (s ∷ [])

-- `Connect`, by what `socket` and `connect` return; the connection is named by its socket.
unfoldable pub connect : Option ℕ → Bool → ConnectionMgr → ConnectionMgr × Option ℕ
connect none connected m = (m, none)
connect (some s) connected m =
    if connected
    then (record m { connections = m.connections ++ s ∷ []; watched = m.watched ++ s ∷ [] }, some s)
    else (record m { closed = m.closed ++ s ∷ [] }, none)

-- The inner loop of `Run`: the calls of `mCbk` of every connection of the socket. `mCbk` is private and set
-- nowhere, and is not tested, so that what such a call does is not known.
unfoldable pub call_all : ℕ → Bytes → List ℕ → List (ℕ × Bytes)
call_all s bytes [] = []
call_all s bytes (c ∷ cs) =
    let rest = call_all s bytes cs in if c == s then (c, bytes) ∷ rest else rest

abbrev pub is_listener : Option ℕ → ℕ → Bool
is_listener none s = false
is_listener (some l) s = l == s

-- One readable socket, with what `accept` or `recvmsg` returns for it.
pub data Ready : Type 0 where
  ready : ℕ → Option ℕ → Option Bytes → Ready

abbrev pub accept_client : Option ℕ → ConnectionMgr → ConnectionMgr
accept_client none m = m
accept_client (some client) m = record m { watched = m.watched ++ client ∷ [] }

abbrev pub receive_from : ℕ → Option Bytes → ConnectionMgr → List (ℕ × Bytes)
receive_from s none m = []
receive_from s (some bytes) m = call_all s bytes m.connections

unfoldable pub handle_ready : Ready → ConnectionMgr → ConnectionMgr × List (ℕ × Bytes)
handle_ready (ready s client message) m =
    if is_listener m.listener s then (accept_client client m, []) else (m, receive_from s message m)

-- A round of `Run`, over the sockets that `epoll_wait` returns: some of those watched before the round.
unfoldable pub poll : List Ready → ConnectionMgr → ConnectionMgr × List (ℕ × Bytes)
poll [] m = (m, [])
poll (r ∷ rs) m =
    let (m', calls) = handle_ready r m in let (m'', more) = poll rs m' in (m'', calls ++ more)

-- `Run`: one waking of `epoll_wait` after another, and whether the thread is stopping before and after it;
-- where nothing is readable the second test is not made, and the round does nothing.
pub record Waking : Type 0 where
  pub stopping : Bool
  pub readable : List Ready
  pub stopped : Bool

unfoldable pub run_connections : List Waking → ConnectionMgr → ConnectionMgr × List (ℕ × Bytes)
run_connections [] m = (m, [])
run_connections (w ∷ wakings) m =
    let (m', calls) = poll w.readable m in
    let (m'', more) = run_connections wakings m' in
    if w.stopping || (w.stopped && not (length w.readable == 0))
    then (m, [])
    else (m'', calls ++ more)
