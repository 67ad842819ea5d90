-- ===== src/Transport/Delivery.antt =====
-- Which calls the rounds of `ConnectionMgr` of src/KadOverIP.h make.
use kad.Common.{
  Apart, Distinct, Distinct-append, ℕ, ◌≡◌, ◌≢◌, refl, ap, ◌∙◌, subst, arith, Bool, true, false,
  Option, none, some, List, [], ◌∷◌, ◌++◌, ◌==◌, ==_iff, Bytes,
}
use kad.Common.{All, All-append, All-imp, Any, Any-left, Any-right, Bool-cases, inl, inr}
use kad.Transport.{
  ConnectionMgr, Ready, ready, new_connection_mgr, connect, call_all, poll, handle_ready,
  is_listener,
}
use kad.Transport.{accept_client}

-- A socket stands in the list.
abbrev pub Has : List ℕ → ℕ → Type 0
Has sockets s = Any (λ x. x ≡ s) sockets

-- Connections have different sockets, all watched.
pub record IsConnectionMgr (m : ConnectionMgr) : Type 0 where
  pub distinct : Distinct m.connections
  pub heard : All (Has m.watched) m.connections

-- The calls that `call_all` makes when the sockets differ: one for a connection, none for another socket.
call_none : (s : ℕ) (bytes : Bytes) (cs : List ℕ) → Apart s cs → call_all s bytes cs ≡ []
unfolding call_all
call_none s bytes [] p = refl
call_none s bytes (c ∷ cs) p = ground (arith, ==_iff c s, call_none s bytes cs p.1)

differs : (c s : ℕ) → s ≢ c → (c == s) ≡ false
differs c s ne = ground (arith, ==_iff c s)

other_socket : (cs : List ℕ) (s c : ℕ) → Apart c cs → Has cs s → s ≢ c
other_socket [] s c p h = elim h [ ]
other_socket (x ∷ cs) s c p (inl e) = λ q. p.0 (e ∙ q)
other_socket (x ∷ cs) s c p (inr h) = other_socket cs s c p.1 h

call_one :
    (s : ℕ) (bytes : Bytes) (cs : List ℕ)
    → Distinct cs
    → Has cs s
    → call_all s bytes cs ≡ (s, bytes) ∷ []
unfolding call_all
call_one s bytes [] d h = elim h [ ]
call_one s bytes (c ∷ cs) d (inl e) =
    let others : Apart s cs = subst (λ (x : ℕ). Apart x cs) e d.0 in
    rw ((==_iff c s).1 e, call_none s bytes cs others) (ap (λ (x : ℕ). (x, bytes) ∷ []) e)
call_one s bytes (c ∷ cs) d (inr h) =
    let other : (c == s) ≡ false = differs c s (other_socket cs s c d.0 h) in
    rw other (call_one s bytes cs d.1 h)

-- The steps of a manager: `Connect`, and rounds of `Run`, with new sockets from UDT.
pub data Event : Type 0 where
  connecting : Option ℕ → Bool → Event
  polled : List Ready → Event

abbrev pub IsNew : ConnectionMgr → Event → Type 0
IsNew m (connecting none b) = Unit {0}
IsNew m (connecting (some s) b) = Apart s m.connections
IsNew m (polled rs) = Unit {0}

unfoldable pub after : Event → ConnectionMgr → ConnectionMgr
after (connecting s b) m = (connect s b m).0
after (polled rs) m = (poll rs m).0

pub data Reachable : ConnectionMgr → Type 0 where
  begin : (s : Option ℕ) (bound listening : Bool) → Reachable (new_connection_mgr s bound listening)
  next : (m : ConnectionMgr) (e : Event) → Reachable m → IsNew m e → Reachable (after e m)

-- More sockets are watched.
watch :
    (s : ℕ) (m : ConnectionMgr)
    → All (Has m.watched) m.connections
    → All (Has (m.watched ++ s ∷ [])) m.connections
watch s m h = All-imp (λ (x : ℕ) q. Any-left (λ y. y ≡ x) m.watched (s ∷ []) q) m.connections h

accept_client-IsConnectionMgr :
    (client : Option ℕ) (m : ConnectionMgr)
    → IsConnectionMgr m
    → IsConnectionMgr (accept_client client m)
accept_client-IsConnectionMgr none m v = v
accept_client-IsConnectionMgr (some client) m v = record {
  distinct = v.distinct;
  heard = watch client m v.heard;
}

handle_ready-IsConnectionMgr :
    (r : Ready) (m : ConnectionMgr) → IsConnectionMgr m → IsConnectionMgr (handle_ready r m).0
unfolding handle_ready
handle_ready-IsConnectionMgr (ready s client message) m v =
    elim (Bool-cases (is_listener m.listener s)) [
      | inl yes' ↦ rw yes' (accept_client-IsConnectionMgr client m v)
      | inr no' ↦ rw no' v
    ]

poll-IsConnectionMgr :
    (rs : List Ready) (m : ConnectionMgr) → IsConnectionMgr m → IsConnectionMgr (poll rs m).0
unfolding poll
poll-IsConnectionMgr [] m v = v
poll-IsConnectionMgr (r ∷ rs) m v =
    poll-IsConnectionMgr rs (handle_ready r m).0 (handle_ready-IsConnectionMgr r m v)

connect-IsConnectionMgr :
    (s : Option ℕ) (b : Bool) (m : ConnectionMgr)
    → IsNew m (connecting s b)
    → IsConnectionMgr m
    → IsConnectionMgr (connect s b m).0
unfolding connect
connect-IsConnectionMgr none b m n v = v
connect-IsConnectionMgr (some s) false m n v = record { distinct = v.distinct; heard = v.heard }
connect-IsConnectionMgr (some s) true m n v = record {
  distinct = Distinct-append m.connections s v.distinct n;
  heard =
      All-append (Has (m.watched ++ s ∷ [])) m.connections (s ∷ []) (watch s m v.heard)
        (Any-right (λ y. y ≡ s) m.watched (s ∷ []) (inl refl), tt);
}

new-IsConnectionMgr :
    (s : Option ℕ) (bound listening : Bool) → IsConnectionMgr (new_connection_mgr s bound listening)
unfolding new_connection_mgr
new-IsConnectionMgr none bound listening = record { distinct = tt; heard = tt }
new-IsConnectionMgr (some s) false listening = record { distinct = tt; heard = tt }
new-IsConnectionMgr (some s) true false = record { distinct = tt; heard = tt }
new-IsConnectionMgr (some s) true true = record { distinct = tt; heard = tt }

-- Every state that a manager can reach, with new sockets from UDT, has connections with different
-- sockets, all watched.
pub Reachable-IsConnectionMgr : (m : ConnectionMgr) → Reachable m → IsConnectionMgr m
unfolding after
Reachable-IsConnectionMgr _ (begin s bound listening) = new-IsConnectionMgr s bound listening
Reachable-IsConnectionMgr _ (next m (connecting s b) h n) =
    connect-IsConnectionMgr s b m n (Reachable-IsConnectionMgr m h)
Reachable-IsConnectionMgr _ (next m (polled rs) h n) =
    poll-IsConnectionMgr rs m (Reachable-IsConnectionMgr m h)

-- In every state that a connection manager can reach, if a connection's socket, not the listening
-- one, is readable and gives bytes, then the round makes one call, of the `mCbk` of that connection
-- (which is set nowhere), and leaves the state as it was.
called_once :
    (m : ConnectionMgr) (s : ℕ) (client : Option ℕ) (bytes : Bytes)
    → Reachable m
    → Has m.connections s
    → is_listener m.listener s ≡ false
    → handle_ready (ready s client (some bytes)) m ≡ (m, (s, bytes) ∷ [])
unfolding handle_ready
called_once m s client bytes h here other =
    rw (other, call_one s bytes m.connections (Reachable-IsConnectionMgr m h).distinct here) refl

-- If the listening socket accepts a client on another socket that is of no connection, the round
-- watches that socket and calls nothing; and if bytes come in on it in a next round, that round
-- calls nothing and leaves the state as it was: the bytes are dropped.
pub accepted_unheard :
    (m : ConnectionMgr) (l s : ℕ) (other : Option Bytes) (client : Option ℕ) (bytes : Bytes)
    → m.listener ≡ some l
    → Apart s m.connections
    → s ≢ l
    → (poll (ready l (some s) other ∷ []) m ≡ (record m { watched = m.watched ++ s ∷ [] }, []))
      × (poll (ready s client (some bytes) ∷ []) (record m { watched = m.watched ++ s ∷ [] })
          ≡ (record m { watched = m.watched ++ s ∷ [] }, []))
unfolding poll handle_ready
accepted_unheard m l s other client bytes is apart ne =
    let same : is_listener m.listener l ≡ true = rw is ((==_iff l l).1 refl) in
    let other' : is_listener m.listener s ≡ false = rw is (differs l s ne) in
    (rw same refl, rw (other', call_none s bytes m.connections apart) refl)
