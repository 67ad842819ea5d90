-- ===== src/Tests/Network.antt =====
-- A node of src/KadOpMgr.h that joins through one address, and refreshes its buckets.
use kad.Common.{
  ℕ, ◌+◌, ◌-◌, ◌≡◌, ◌≢◌, refl, arith, Option, some, none, true, false, [], ◌∷◌, ◌++◌, length, ltb,
  ◌==◌, if◌then◌else◌,
}
use kad.NodeId.{xor, id_eq, memcmp, get_bit}
use kad.Contact.{is_stale}
use kad.Routing.{append_contact, add, add_node, find_node_by_id}
use kad.Routing.Query.{count_contacts}
use kad.Manager.{next_count, Manager, receive, find_add_contact, find_key, ping}
use kad.Manager.Invariant.{IsManager}
use kad.Manager.Network.{Joining, join, refresh_target, refresh_from}
use kad.Manager.Joined.{waited, rounds_of_pings, delays, join_lem}
use kad.Manager.Refresh.{keys, targets, refresh_target_bits, refresh_from_lem}
use kad.Manager.Steps.{arrive, initial, react, react-IsManager, initial-IsManager}
use kad.Tests.Data.{low_byte, local, local-IsId, five-IsId, big-IsId}

abbrev pub draw : ℕ → ℕ
draw n = n + 1

-- While the node sleeps, contact 5 pings it.
abbrev pub or_same : Manager ℕ → Option (Manager ℕ) → Manager ℕ
or_same m none = m
or_same m (some m') = m'

abbrev pub wait : ℕ → Manager ℕ → Manager ℕ
wait r m = or_same m (react draw (arrive (low_byte 5) 50 9 ping) m)

pub wait-IsManager : (r : ℕ) (m : Manager ℕ) → IsManager m → IsManager (wait r m)
wait-IsManager r m v =
    let (m', e, v') = react-IsManager draw (arrive (low_byte 5) 50 9 ping) m v (five-IsId, tt) in
    rw e v'

alone : count_contacts (initial {Addr = ℕ} local).table ≡ 0
unfolding count_contacts
alone = refl

one_contact : count_contacts (wait 0 (initial local)).table ≡ 1
unfolding count_contacts react receive find_add_contact add add_node find_node_by_id is_stale xor
    id_eq memcmp get_bit append_contact
one_contact = refl

pub found : count_contacts (wait 0 (initial local)).table ≢ 0
found e = absurd (omega (arith, one_contact, e))

one_address : length {A = ℕ} (70 ∷ []) ≢ 0
one_address e = absurd (omega (arith, e))

join_lem_example :
    (j : Joining ℕ) × (join wait (70 ∷ []) draw 1 (initial local) ≡ some j)
    × (find_key draw
          (waited wait (70 ∷ []) 1 0 (initial local)).local
          (waited wait (70 ∷ []) 1 0 (initial local))
        ≡ some j.manager)
    × IsManager j.manager
    × (j.pings ≡ rounds_of_pings wait (70 ∷ []) 1 0 (initial local))
    × (j.slept ≡ delays wait (70 ∷ []) 1 0)
join_lem_example =
    join_lem wait (70 ∷ []) draw 1 1 (initial local) one_address (omega arith) (alone, tt) found
      (initial-IsManager draw local local-IsId) wait-IsManager

refresh_target_bits_example :
    get_bit (xor (refresh_target local (low_byte 130) 3) local) 156
    ≡ (if 159 - 3 == 156 then true else if ltb 156 3 then false else get_bit (low_byte 130) 156)
refresh_target_bits_example =
    refresh_target_bits local (low_byte 130) 3 156 local-IsId big-IsId (omega arith)

-- While it sleeps, the node drops a message of its own.
abbrev drop_one : ℕ → Manager ℕ → Manager ℕ
drop_one i m = record m { msg_dropped = next_count m.msg_dropped }

drop_one-IsManager : (i : ℕ) (m : Manager ℕ) → IsManager m → IsManager (drop_one i m)
drop_one-IsManager i m v = record {
  local_id = v.local_id;
  table = v.table;
  known = v.known;
  tracks = v.tracks;
}

refresh_from_lem_example :
    (m' : Manager ℕ) × (refresh_from draw (λ n. low_byte n) drop_one 4 1 (initial local) ≡ some m')
    × IsManager m'
    × (m'.local ≡ local)
    × (keys draw m' ≡ [] ++ targets draw (λ n. low_byte n) drop_one local 4 1)
refresh_from_lem_example =
    refresh_from_lem draw (λ n. low_byte n) drop_one drop_one-IsManager (λ i m. refl) (λ i m. refl)
      4 1 (initial local) (initial-IsManager draw local local-IsId)
