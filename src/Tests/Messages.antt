-- ===== src/Tests/Messages.antt =====
-- src/KadMsg.h, and the parts of src/KadOpMgr.h that stand by themselves.
use kad.Common.{ℕ, ◌≡◌, refl, arith, List, [], ◌∷◌, replicate}
use kad.Contact.{Contact}
use kad.Message.{SockAddr, inet, inet6, MsgAddr, find_response, read_response}
use kad.Message.RoundTrip.{carried_all, read_response-find_response}
use kad.Message.Format.{Object, positive, raw, array, end, item}
use kad.Manager.Cache.{IsCache}
use kad.Tests.Data.{low_byte, low_byte_ne, five, big, five-IsId, big-IsId}

-- What stands in memory before the constructor.
abbrev blank : MsgAddr
blank = record { family = 77; port = 9; addr = replicate 16 205 }

abbrev home : SockAddr
home = inet 8080 (127 ∷ 0 ∷ 0 ∷ 1 ∷ [])

abbrev neighbour : Contact SockAddr
neighbour = record { ref = 0; id = low_byte 5; addr = inet6 4000 (replicate 16 1) 3 2 }

abbrev neighbours : List (Contact SockAddr)
neighbours = neighbour ∷ record { ref = 1; id = low_byte 6; addr = home } ∷ []

read_response-find_response_example :
    read_response 0 0 (find_response blank neighbours) ≡ carried_all 0 0 neighbours
read_response-find_response_example =
    read_response-find_response 0 0 blank neighbours refl (refl, (refl, tt))

abbrev cache : List (Contact ℕ)
cache = five ∷ big ∷ []

cache-IsCache : IsCache cache
cache-IsCache = record {
  fits = omega arith;
  valid = (five-IsId, (big-IsId, tt));
  distinct = ((low_byte_ne 130 5 (omega arith), tt), (tt, tt));
}

-- A ping: type 0, number 7, and the id of its sender.
abbrev packed : Object
packed =
    array (item (array (item (positive 0) (item (positive 7) (item (raw (low_byte 5)) end)))) end)
