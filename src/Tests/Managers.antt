-- ===== src/Tests/Managers.antt =====
-- src/KadOpMgr.h: a node that is pinged, starts a lookup and waits for the answer.
use kad.Common.{
  ℕ, arith, subst, All, Distinct, ◌∷◌, ◌+◌, ◌≤◌, ◌≡◌, refl, sym, ap, ◌∙◌, Option, some, none, [],
  length,
}
use kad.Config.{alpha, bucket_size, id_size}
use kad.NodeId.{xor, id_eq, memcmp, get_bit}
use kad.Contact.{is_stale}
use kad.Routing.{append_contact, add, add_node, find_node_by_id}
use kad.Routing.Query.{closest, find_closest, select}
use kad.Lookup.{
  FindOp, start, send, send_passes, send_pass, holds, new_find, insert_all, insert, find_spot,
}
use kad.Manager.{
  response, handle, handle_response, take_out, receive, find_key, find_add_contact, post,
}
use kad.Manager.{Manager, ping, nth}
use kad.Manager.Flying.{flying}
use kad.Manager.Invariant.{IsManager}
use kad.Manager.Steps.{Event, look_up, arrive, initial, react, Reachable, begin, next}
use kad.Manager.Steps.{Reachable-IsManager, Reachable-react, Reachable-pending}
use kad.Manager.OnceOnly.{Reachable-Distinct}
use kad.Lookup.Respond.{on_response, on_answer, merge}
use kad.Manager.Sorted.{Reachable-IsSorted}
use kad.Lookup.Ordered.{IsSorted}
use kad.NodeId.Value.{IsId}
use kad.Tests.Data.{low_byte, low_byte-IsId, local, local-IsId, five-IsId}

-- The ids of messages.
abbrev draw : ℕ → ℕ
draw n = n + 1

abbrev pinged : Event ℕ
pinged = arrive (low_byte 5) 50 9 ping

abbrev asked : Event ℕ
asked = look_up (low_byte 4)

abbrev after : Option (Manager ℕ) → Manager ℕ
after (some m) = m
after none = initial local

some-after : (o : Option (Manager ℕ)) (m : Manager ℕ) → o ≡ some m → o ≡ some (after o)
some-after o m e = e ∙ ap some (sym (ap after e))

abbrev state1 : Manager ℕ
state1 = after (react draw pinged (initial local))

abbrev state2 : Manager ℕ
state2 = after (react draw asked state1)

state1-Reachable : Reachable draw local state1
state1-Reachable =
    let (m, e, _) =
      Reachable-react draw local (initial local) pinged local-IsId begin (five-IsId, tt) in
    next (initial local) state1 pinged begin (five-IsId, tt) (some-after _ m e)

state2-Reachable : Reachable draw local state2
state2-Reachable =
    let (m, e, _) = Reachable-react draw local state1 asked local-IsId state1-Reachable tt in
    next state1 state2 asked state1-Reachable tt (some-after _ m e)

Reachable-react_example :
    (m' : Manager ℕ) × (react draw asked state1 ≡ some m') × Reachable draw local m'
Reachable-react_example = Reachable-react draw local state1 asked local-IsId state1-Reachable tt

Reachable-IsManager_example : IsManager state2
Reachable-IsManager_example = Reachable-IsManager draw local state2 local-IsId state2-Reachable

-- The lookup of the state.
abbrev first : Manager ℕ → FindOp ℕ
first m = elim (nth m.lookups 0) [
  | some op ↦ op
  | none ↦ record { key = []; list = []; block = []; pending = 0 }
]

first_there : nth state2.lookups 0 ≡ some (first state2)
unfolding react receive find_key find_add_contact start send send_passes send_pass holds new_find
    post insert_all insert find_spot closest find_closest select add add_node find_node_by_id
    is_stale xor id_eq memcmp get_bit append_contact
first_there = refl

-- It has asked the contact that pinged the node.
first_pending : (first state2).pending ≡ 1
unfolding react receive find_key find_add_contact start send send_passes send_pass holds new_find
    post insert_all insert find_spot closest find_closest select add add_node find_node_by_id
    is_stale xor id_eq memcmp get_bit append_contact
first_pending = refl

Reachable-pending_example :
    ((first state2).pending ≡ length (flying 0 state2.requests)) × ((first state2).pending ≤ alpha)
Reachable-pending_example =
    Reachable-pending draw local state2 0 (first state2) local-IsId state2-Reachable first_there

first_key : (first state2).key ≡ low_byte 4
unfolding react receive find_key find_add_contact start send send_passes send_pass holds new_find
    post insert_all insert find_spot closest find_closest select add add_node find_node_by_id
    is_stale xor id_eq memcmp get_bit append_contact
first_key = refl

Reachable-IsSorted_example :
    IsSorted (first state2).key (first state2).list
    × (length (first state2).list ≤ bucket_size)
    × All (λ c. IsId id_size c.id) (first state2).list
Reachable-IsSorted_example =
    Reachable-IsSorted draw local state2 0 (first state2) local-IsId state2-Reachable first_there
      (subst (IsId id_size) (sym first_key) (low_byte-IsId 4 (omega arith)))

-- The contact answers, and names nobody.
abbrev answered_by_five : Event ℕ
answered_by_five = arrive (low_byte 5) 50 1 (response [])

abbrev state3 : Manager ℕ
state3 = after (react draw answered_by_five state2)

state3-Reachable : Reachable draw local state3
state3-Reachable =
    let (m, e, _) =
      Reachable-react draw local state2 answered_by_five local-IsId state2-Reachable
        (five-IsId, tt) in
    next state2 state3 answered_by_five state2-Reachable (five-IsId, tt) (some-after _ m e)

state3_finished : state3.finished ≡ 0 ∷ []
unfolding react receive find_key find_add_contact start send send_passes send_pass holds new_find
    post insert_all insert find_spot closest find_closest select add add_node find_node_by_id
    is_stale xor id_eq memcmp get_bit append_contact handle handle_response take_out on_response
    on_answer merge
state3_finished = refl

Reachable-Distinct_example :
    Distinct state3.finished × All (λ k. flying k state3.requests ≡ []) state3.finished
Reachable-Distinct_example = Reachable-Distinct draw local state3 local-IsId state3-Reachable
