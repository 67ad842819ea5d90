-- ===== src/Tests/Data.antt =====
-- A small table, for the tests.
use kad.Common.{ℕ, zero, suc, ◌<◌, ◌≢◌, refl, inl, ap, arith}
use kad.Common.{[], ◌∷◌, ◌++◌, replicate}
use kad.Config.{id_size}
use kad.NodeId.{KadId}
use kad.NodeId.Value.{AllBytes, IsId, value}
use kad.Contact.{Contact}
use kad.Routing.{Bucket, Node, bucket}
use kad.Routing.Place.{root-IsPlace}
use kad.Routing.Invariant.{IsBucket, IsTable}
use kad.Routing.Insert.{Under-root}

-- The id with the low byte n.
abbrev pub low_byte : ℕ → KadId
low_byte n = replicate 19 0 ++ n ∷ []

pub AllBytes-zeros : (k : ℕ) (d : KadId) → AllBytes d → AllBytes (replicate k 0 ++ d)
AllBytes-zeros zero d h = h
AllBytes-zeros (suc k) d h = (omega arith, AllBytes-zeros k d h)

pub low_byte-IsId : (n : ℕ) → n < 256 → IsId id_size (low_byte n)
low_byte-IsId n h = record { size = refl; bytes = AllBytes-zeros 19 (n ∷ []) (h, tt) }

pub low_byte_ne : (n m : ℕ) → n ≢ m → low_byte n ≢ low_byte m
low_byte_ne n m ne e = ne (omega (arith, ap value e))

-- A node with id 9, and the contacts 5 and 130; an address is a number.
abbrev pub local : KadId
local = low_byte 9

abbrev pub five : Contact ℕ
five = record { ref = 0; id = low_byte 5; addr = 50 }

abbrev pub big : Contact ℕ
big = record { ref = 1; id = low_byte 130; addr = 130 }

abbrev pub two : Bucket ℕ
two = record { contacts = five ∷ big ∷ []; cache = [] }

abbrev pub table : Node ℕ
table = bucket 0 0 two

pub local-IsId : IsId id_size local
local-IsId = low_byte-IsId 9 (omega arith)

pub five-IsId : IsId id_size (low_byte 5)
five-IsId = low_byte-IsId 5 (omega arith)

pub big-IsId : IsId id_size (low_byte 130)
big-IsId = low_byte-IsId 130 (omega arith)

pub two-IsBucket : IsBucket local 0 0 two
two-IsBucket = record {
  place = root-IsPlace;
  contacts_fit = omega arith;
  cache_fits = omega arith;
  contacts_under = (
    Under-root local (low_byte 5) local-IsId five-IsId,
    (Under-root local (low_byte 130) local-IsId big-IsId, tt),
  );
  cache_under = tt;
  distinct = ((low_byte_ne 130 5 (omega arith), tt), (tt, tt));
  cache_distinct = tt;
  closed = inl refl;
}

pub table-IsTable : IsTable local 0 0 table
table-IsTable = (refl, refl, two-IsBucket)
