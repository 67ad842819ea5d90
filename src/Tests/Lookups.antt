-- ===== src/Tests/Lookups.antt =====
-- src/KadOpMgr.h, `KadIterativeFindOp`: a lookup of the key 4 that knows two contacts.
use kad.Common.{ℕ, ◌+◌, ◌≤◌, ◌<◌, ◌≡◌, ◌⊎◌, refl, arith, true, false, some, All}
use kad.Common.{List, [], ◌∷◌, ◌++◌, length, take}
use kad.Config.{bucket_size, stale_limit}
use kad.NodeId.{KadId, xor}
use kad.Contact.{Contact, empty, is_stale}
use kad.Routing.Items.{Valid}
use kad.Lookup.{FindOp, insert, send, holds}
use kad.Lookup.Respond.{on_response}
use kad.Lookup.Ordered.{IsSorted, ranked, insert_lem}
use kad.Lookup.Asked.{send_lem}
use kad.Lookup.Pending.{Tracks}
use kad.Lookup.Answer.{Answers, on_response_lem}
use kad.Tests.Data.{
  low_byte, low_byte-IsId, local, five, big, table, local-IsId, five-IsId, big-IsId, table-IsTable,
}

abbrev key : KadId
key = low_byte 4

abbrev seven : Contact ℕ
seven = record { ref = 2; id = low_byte 7; addr = 70 }

abbrev seven_id : KadId
seven_id = low_byte 7

abbrev known : List (Contact ℕ)
known = five ∷ big ∷ []

known-Valid : All Valid known
known-Valid = (five-IsId, (big-IsId, tt))

insert_lem_example : (insert key seven known).0 ≡ take bucket_size (ranked key seven known)
insert_lem_example =
    insert_lem key (low_byte-IsId 4 (omega arith)) seven (low_byte-IsId 7 (omega arith)) known
      known-Valid (omega arith)

known-IsSorted : IsSorted key known
unfolding xor
known-IsSorted = ((omega arith, tt), (tt, tt))

-- Before its first requests, and with both contacts asked.
abbrev idle : FindOp ℕ
idle = record { key = key; list = known; block = []; pending = 0 }

abbrev busy : FindOp ℕ
busy = record { key = key; list = known; block = known; pending = 2 }

send_lem_example :
    (r : FindOp ℕ × List (Contact ℕ)) × (send empty 3 idle ≡ some r)
    × (r.0.list ≡ known)
    × (r.0.block ≡ idle.block ++ r.1)
    × (r.0.pending ≡ idle.pending + length r.1)
    × (length r.1 ≤ 3)
    × All (λ c. (holds idle.block c ≡ false) × (empty.fail_qty c.ref < stale_limit)) r.1
    × ((length r.1 ≡ 3) ⊎ All (λ c. (is_stale empty c ≡ true) ⊎ (holds r.0.block c ≡ true)) known)
send_lem_example = send_lem empty 2 idle

busy-Tracks : Tracks busy known
unfolding holds
busy-Tracks = record {
  counted = refl;
  few = omega arith;
  block_once = (refl, (refl, tt));
  blocked = (refl, (refl, tt));
  once = (refl, (refl, tt));
}

on_response_lem_example :
    Answers local (big ∷ []) (on_response local table empty busy (some ((seven_id, 70) ∷ [])) five)
on_response_lem_example =
    on_response_lem local local-IsId busy [] five (big ∷ []) busy-Tracks empty table table-IsTable
      (some ((seven_id, 70) ∷ [])) (low_byte-IsId 7 (omega arith), tt)
