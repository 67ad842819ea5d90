-- ===== src/Tests/Tables.antt =====
-- src/KadRtNode.h: a table of two contacts and one that has split.
use kad.Common.{ℕ, ◌+◌, ◌≤◌, ◌*◌, ◌≡◌, ◌≢◌, ◌⊎◌, refl, arith, min, All}
use kad.Common.{none, some, true, false, length}
use kad.Config.{bucket_size, cache_size}
use kad.NodeId.{id_eq, memcmp}
use kad.Contact.{empty, is_stale}
use kad.Routing.{Added, add, may_split, is_splittable, split}
use kad.Routing.Query.{
  find, find_node, find_in, remove, closest, get_contacts, stats, count_contacts,
}
use kad.Routing.Items.{or_else}
use kad.Routing.Invariant.{IsTable}
use kad.Routing.Split.{halved, split_cases}
use kad.Routing.Cut.{is_some}
use kad.Routing.Select.{Near}
use kad.Routing.Collect.{length-closest}
use kad.Routing.Nearest.{closest-Near}
use kad.Routing.Counts.{stats_lem}
use kad.Routing.Table.{
  bucket_for, find_cached, add-IsTable, add_known, add_others, remove-IsTable, remove_others,
}
use kad.Tests.Data.{
  low_byte, low_byte-IsId, low_byte_ne, local, five, two, table, local-IsId, five-IsId, big-IsId,
}
use kad.Tests.Data.{two-IsBucket, table-IsTable}

add-IsTable_example :
    (r : Added ℕ) × (add local empty (low_byte 7) 70 table ≡ some r)
    × IsTable local 0 0 r.node
    × (r.contact.id ≡ low_byte 7)
    × ((find local (low_byte 7) r.node ≡ some r.contact)
        ⊎ ((find local (low_byte 7) table ≡ none)
            × (find local (low_byte 7) r.node ≡ none)
            × (find_cached local (low_byte 7) r.node ≡ some r.contact)
            × (length (bucket_for local (low_byte 7) r.node).contacts ≡ bucket_size)))
add-IsTable_example =
    add-IsTable local local-IsId empty (low_byte 7) 70 table table-IsTable
      (low_byte-IsId 7 (omega arith))

found_five : find local (low_byte 5) table ≡ some five
unfolding find find_node find_in id_eq memcmp
found_five = refl

add_known_example :
    (r : Added ℕ) × (add local empty (low_byte 5) 99 table ≡ some r)
    × (r.contact ≡ five)
    × (r.store ≡ empty)
    × (find local (low_byte 5) r.node ≡ some five)
add_known_example =
    add_known local local-IsId empty (low_byte 5) 99 table table-IsTable five-IsId five found_five

add_others_example :
    (r : Added ℕ) × (add local empty (low_byte 7) 70 table ≡ some r)
    × (find local (low_byte 5) r.node ≡ find local (low_byte 5) table)
add_others_example =
    add_others local local-IsId empty (low_byte 7) 70 table table-IsTable
      (low_byte-IsId 7 (omega arith)) (low_byte 5) five-IsId (low_byte_ne 5 7 (omega arith))

remove-IsTable_example :
    IsTable local 0 0 (remove local (low_byte 5) table).0
    × (find local (low_byte 5) (remove local (low_byte 5) table).0 ≡ none)
    × ((remove local (low_byte 5) table).1
        ≡ is_some (or_else (find local (low_byte 5) table) (find_cached local (low_byte 5) table)))
remove-IsTable_example = remove-IsTable local local-IsId (low_byte 5) table table-IsTable five-IsId

remove_others_example :
    find local (low_byte 130) (remove local (low_byte 5) table).0 ≡ find local (low_byte 130) table
remove_others_example =
    remove_others local local-IsId (low_byte 5) table table-IsTable five-IsId (low_byte 130)
      big-IsId (low_byte_ne 130 5 (omega arith))

split_cases_example :
    ((split local 0 0 two ≡ none) × (is_splittable 0 0 two ≡ false))
    ⊎ ((split local 0 0 two ≡ some (halved local 0 0 two))
        × (may_split 0 0 ≡ true)
        × IsTable local 0 0 (halved local 0 0 two))
split_cases_example = split_cases local 0 0 two local-IsId two-IsBucket

length-closest_example :
    length (closest local empty (low_byte 4) 1 table) ≡ min 1 (length (get_contacts empty table))
length-closest_example = length-closest empty (low_byte 4) local 1 table

addresses_live : All (λ c. c.addr ≢ 0) (get_contacts empty table)
unfolding get_contacts is_stale
addresses_live = (omega arith, (omega arith, tt))

closest-Near_example :
    All
      (Near empty (low_byte 4) (closest local empty (low_byte 4) 1 table))
      (get_contacts empty table)
closest-Near_example =
    closest-Near empty local (low_byte 4) local-IsId (low_byte-IsId 4 (omega arith)) 1 table
      table-IsTable (omega arith)

stats_lem_example :
    let u = stats empty table in
    (u.buckets ≡ u.spaces + 1)
    × (u.contacts ≡ count_contacts table)
    × (u.stale + length (get_contacts empty table) ≡ u.contacts)
    × (u.contacts ≤ bucket_size * u.buckets)
    × (u.cached ≤ cache_size * u.buckets)
stats_lem_example = stats_lem empty local table table-IsTable
