-- ===== src/Tests/Ids.antt =====
-- src/KadNodeId.h: ids of two bytes, and the cases of src/test/KadNodeIdTS.h.
use kad.Common.{ℕ, suc, ◌+◌, ◌-◌, ◌*◌, ◌%◌, ◌^◌, ◌≤◌, ◌<◌, ◌≡◌, ◌≢◌, refl, ap, arith}
use kad.Common.{[], ◌∷◌}
use kad.NodeId.{KadId, xor, add, sub, shl, distance_to}
use kad.NodeId.Value.{IsId, value}
use kad.NodeId.Distance.{distance_to_bounds}
use kad.NodeId.Sub.{value-sub}
use kad.NodeId.Add.{value-add}
use kad.NodeId.Shift.{value-shl}

abbrev a : KadId
a = 3 ∷ 200 ∷ []

abbrev b : KadId
b = 1 ∷ 77 ∷ []

abbrev c : KadId
c = 250 ∷ 9 ∷ []

a-IsId : IsId 2 a
a-IsId = record { size = refl; bytes = (omega arith, (omega arith, tt)) }

b-IsId : IsId 2 b
b-IsId = record { size = refl; bytes = (omega arith, (omega arith, tt)) }

c-IsId : IsId 2 c
c-IsId = record { size = refl; bytes = (omega arith, (omega arith, tt)) }

a_ne_b : a ≢ b
a_ne_b e = absurd (omega (arith, ap value e))

distance_to_bounds_example :
    (k : ℕ) × (distance_to a b ≡ suc k) × (2 ^ k ≤ value (xor a b)) × (value (xor a b) < 2 ^ suc k)
distance_to_bounds_example = distance_to_bounds 2 a b a-IsId b-IsId a_ne_b

value-add_example : value (add a c) ≡ (value a + value c) % 256 ^ 2
value-add_example = value-add 2 a c a-IsId c-IsId

value-sub_example : value (sub a c) ≡ (value a + 256 ^ 2 - value c) % 256 ^ 2
value-sub_example = value-sub 2 a c a-IsId c-IsId

-- A shift by 5 bits.
value-shl_example : value (shl a (16 * 0 + 5)) ≡ value a * (2 ^ 5 * 256 ^ 0) % 256 ^ 2
value-shl_example = value-shl 2 0 5 a a-IsId (omega arith) (omega arith)
