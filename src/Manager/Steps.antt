-- ===== src/Manager/Steps.antt =====
-- The states that a node can reach: it starts with an empty table, starts lookups, receives messages
-- and has requests that time out, in any order.
use mathlib.Core.Option
use kad.Common.{ℕ, ◌+◌, ◌≤◌, ◌≡◌, refl, subst, arith, Option, some, length}
use kad.Config.{id_size, alpha}
use kad.NodeId.{KadId}
use kad.NodeId.Value.{IsId}
use kad.Contact.{empty}
use kad.Routing.{root}
use kad.Routing.Invariant.{root-IsTable}
use kad.Lookup.{FindOp}
use kad.Lookup.Pending.{Tracks}
use kad.Manager.{Manager, Message, Reply, new_manager, nth, find_key, handle_timeout, receive}
use kad.Manager.Flying.{flying}
use kad.Manager.Invariant.{IsManager, AllTrack-nth}
use kad.Manager.Run.{handle_timeout-IsManager}
use kad.Manager.Receive.{IsMessage, find_key-IsManager, receive-IsManager}

pub data Event {ℓ} (Addr : Type ℓ) : Type ℓ where
  look_up : KadId → Event Addr
  arrive : KadId → Addr → ℕ → Message Addr → Event Addr
  time_out : ℕ → Event Addr

module _ {ℓ} {Addr : Type ℓ} where
  -- The ids in a message have 20 bytes.
  abbrev pub IsEvent : Event Addr → Type 0
  IsEvent (arrive src from msg_id message) = IsId id_size src × IsMessage message
  IsEvent _ = Unit {0}

  abbrev pub initial : KadId → Manager Addr
  initial local = new_manager local root empty

  module _ (random : ℕ → ℕ) where
    unfoldable pub react : Event Addr → Manager Addr → Option (Manager Addr)
    react (look_up key) m = find_key random key m
    react (arrive src from msg_id message) m =
        Option.map (λ (r : Manager Addr × Reply Addr). r.0)
          (receive random src from msg_id message m)
    react (time_out serial) m = handle_timeout random serial m

    pub data Reachable (local : KadId) : Manager Addr → Type ℓ where
      begin : Reachable local (initial local)
      next :
          (m m' : Manager Addr) (e : Event Addr)
          → Reachable local m
          → IsEvent e
          → react e m ≡ some m'
          → Reachable local m'

    -- In a manager that keeps its invariant, for ids of 20 bytes, each event is handled and the
    -- manager keeps its invariant.
    pub react-IsManager :
        (e : Event Addr) (m : Manager Addr)
        → IsManager m
        → IsEvent e
        → (m' : Manager Addr) × (react e m ≡ some m') × IsManager m'
    unfolding react
    react-IsManager (look_up key) m v w = find_key-IsManager random key m v
    react-IsManager (arrive src from msg_id message) m v w =
        let (m', reply, e, v') = receive-IsManager random src from msg_id message m v w.0 w.1 in
        (m', rw e refl, v')
    react-IsManager (time_out serial) m v w = handle_timeout-IsManager random serial m v

    pub initial-IsManager : (local : KadId) → IsId id_size local → IsManager (initial local)
    initial-IsManager local l = record {
      local_id = l;
      table = root-IsTable local;
      known = tt;
      tracks = tt;
    }

    some_injective : (a b : Manager Addr) → some a ≡ some b → a ≡ b
    some_injective a b e = cc e

    -- A node with an id of 20 bytes keeps, through all starts of lookups, messages with ids of 20
    -- bytes, and timeouts, the invariant of its table and that the requests of each lookup are
    -- counted in it, at most ALPHA, blocked and to different contacts.
    pub Reachable-IsManager :
        (local : KadId) (m : Manager Addr) → IsId id_size local → Reachable local m → IsManager m
    Reachable-IsManager local _ l begin = initial-IsManager local l
    Reachable-IsManager local _ l (next m m' e h w q) =
        let (m'', q', v) = react-IsManager e m (Reachable-IsManager local m l h) w in
        subst IsManager (some_injective m'' m' (cc (q, q'))) v

    -- In every state that a node with an id of 20 bytes can reach, each start of a lookup, message
    -- with ids of 20 bytes, or timeout is handled, to a state that it can reach: no assertion of
    -- `Send` or `OnResponce` fails, no count is below 0, and no call runs out of fuel.
    pub Reachable-react :
        (local : KadId) (m : Manager Addr) (e : Event Addr)
        → IsId id_size local
        → Reachable local m
        → IsEvent e
        → (m' : Manager Addr) × (react e m ≡ some m') × Reachable local m'
    Reachable-react local m e l h w =
        let (m', q, _) = react-IsManager e m (Reachable-IsManager local m l h) w in
        (m', q, next m m' e h w q)

    -- In every state that a node with an id of 20 bytes can reach, the pending count of a lookup
    -- is the number of its requests without an answer, and at most ALPHA.
    pub Reachable-pending :
        (local : KadId) (m : Manager Addr) (k : ℕ) (op : FindOp Addr)
        → IsId id_size local
        → Reachable local m
        → nth m.lookups k ≡ some op
        → (op.pending ≡ length (flying k m.requests)) × (op.pending ≤ alpha)
    Reachable-pending local m k op l h q =
        let v = Reachable-IsManager local m l h in
        let base : 0 + k ≡ k = omega arith in
        let t =
          subst (λ (i : ℕ). Tracks op (flying i m.requests)) base
            (AllTrack-nth 0 m.lookups m.requests k op v.tracks q) in
        (t.counted, omega (arith, t.counted, t.few))
