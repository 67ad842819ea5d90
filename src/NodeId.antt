-- ===== src/NodeId.antt =====
-- src/KadNodeId.h: `TKadId<SIZE>`, an identifier of SIZE bytes, most significant byte first.
-- An id is the list of its bytes; SIZE is the length of the list, and an argument of the
-- functions that make an id from something else. A loop over the indices is a recursion on the
-- list: one that runs from SIZE-1 down to 0 with a carry recurs first and hands its carry back.
pub mod Value
pub mod Metric
pub mod Add
pub mod Sub
pub mod Shift
pub mod Distance
pub mod Byte
pub mod Bit
pub mod Number
pub mod Bits
pub mod Hash
pub mod Text
pub mod Mul
use kad.Common.{ℕ, zero, suc, ◌+◌, ◌-◌, ◌*◌, ◌/◌, ◌%◌, ◌^◌, min, compare, Ordering}
use kad.Common.{bit_and, bit_or, bit_xor, Bool, true, false, List, [], ◌∷◌, ◌++◌}
use kad.Common.{ltb, leb, ◌==◌, if◌then◌else◌, length, get_or, set, drop, replicate}

abbrev pub KadId : Type 0
KadId = List ℕ

-- The casts `uint8_t(x)`, `uint16_t(x)` and `int16_t(x)`; an `int16_t` is kept as its 16 bits.
abbrev pub u8 : ℕ → ℕ
u8 x = x % 2 ^ 8

abbrev pub u16 : ℕ → ℕ
u16 x = x % 2 ^ 16

-- `x >> 8` of an `int16_t`, which repeats the sign bit.
abbrev pub sar8 : ℕ → ℕ
sar8 x = if ltb x (2 ^ 15) then x / 2 ^ 8 else x / 2 ^ 8 + (2 ^ 16 - 2 ^ 8)

-- `TKadId()` and `Clear`.
abbrev pub clear : ℕ → KadId
clear n = replicate n 0

-- The loop of `TKadId(uint64_t num)`: byte i of `num`, lowest first, to index SIZE-1-i.
fill : ℕ → ℕ → ℕ → KadId → KadId
fill zero i num d = d
fill (suc left) i num d = fill left (i + 1) num (set d (length d - 1 - i) (u8 (num / 256 ^ i)))

unfoldable pub from_num : ℕ → ℕ → KadId
unfolding fill
from_num n num = fill (min n 8) 0 num (clear n)

-- `operator ~`: `~x` of the promoted `int`, cut to a byte.
unfoldable pub complement : KadId → KadId
complement [] = []
complement (b ∷ bs) = u8 (2 ^ 32 - 1 - b) ∷ complement bs

-- The loops of `operator ^=`, `|=` and `&=`.
abbrev pub bytewise : (ℕ → ℕ → ℕ) → KadId → KadId → KadId
bytewise f [] ys = []
bytewise f (x ∷ xs) [] = []
bytewise f (x ∷ xs) (y ∷ ys) = f x y ∷ bytewise f xs ys

unfoldable pub xor : KadId → KadId → KadId
xor = bytewise bit_xor

unfoldable pub or : KadId → KadId → KadId
or = bytewise bit_or

unfoldable pub and : KadId → KadId → KadId
and = bytewise bit_and

-- `memcmp(mData, id.mData, SIZE)`, by its sign.
unfoldable pub memcmp : KadId → KadId → Ordering
memcmp [] ys = Ordering.eq
memcmp (x ∷ xs) [] = Ordering.eq
memcmp (x ∷ xs) (y ∷ ys) = elim (compare x y) [
  | Ordering.lt ↦ Ordering.lt
  | Ordering.eq ↦ memcmp xs ys
  | Ordering.gt ↦ Ordering.gt
]

unfoldable pub id_eq : KadId → KadId → Bool
id_eq a b = elim (memcmp a b) [ Ordering.eq ↦ true | _ ↦ false ]

unfoldable pub id_lt : KadId → KadId → Bool
id_lt a b = elim (memcmp a b) [ Ordering.lt ↦ true | _ ↦ false ]

unfoldable pub id_le : KadId → KadId → Bool
id_le a b = elim (memcmp a b) [ Ordering.gt ↦ false | _ ↦ true ]

unfoldable pub is_zero : KadId → Bool
is_zero [] = true
is_zero (b ∷ bs) = let rest = is_zero bs in if b == 0 then rest else false

-- The loops of `Add` and `Sub`: the carry `iSum` that leaves the loop, and the new bytes.
unfoldable pub add_loop : KadId → KadId → ℕ × KadId
add_loop [] ys = (0, [])
add_loop (x ∷ xs) [] = (0, [])
add_loop (x ∷ xs) (y ∷ ys) =
    let (carry, out) = add_loop xs ys in
    let sum : ℕ = u16 (carry + x + y) in (sar8 sum, u8 sum ∷ out)

unfoldable pub sub_loop : KadId → KadId → ℕ × KadId
sub_loop [] ys = (0, [])
sub_loop (x ∷ xs) [] = (0, [])
sub_loop (x ∷ xs) (y ∷ ys) =
    let (carry, out) = sub_loop xs ys in
    let sum : ℕ = u16 (carry + x + 2 ^ 16 - y) in (sar8 sum, u8 sum ∷ out)

unfoldable pub add : KadId → KadId → KadId
add a b = if is_zero b then a else (add_loop a b).1

unfoldable pub sub : KadId → KadId → KadId
sub a b = if is_zero b then a else (sub_loop a b).1

-- The loop of `Shl`, over the bytes from `iIndexShift` on.
unfoldable pub shl_loop : ℕ → KadId → ℕ × KadId
shl_loop m [] = (0, [])
shl_loop m (b ∷ bs) =
    let (shifted, out) = shl_loop m bs in
    let sum : ℕ = u16 (shifted + b * 2 ^ m) in (sum / 2 ^ 8, u8 sum ∷ out)

-- `iIndexShift` divides by the 16 bits of the `uint16_t` that `iShifted` is.
unfoldable pub shl : KadId → ℕ → KadId
shl d bits =
    if bits == 0
    then d
    else if is_zero d
    then d
    else if leb (length d * 8) bits
    then clear (length d)
    else let index_shift = bits / 16 in
      (shl_loop (bits % 16) (drop index_shift d)).1 ++ replicate (min index_shift (length d)) 0

-- The bit operations on one byte.
abbrev pub test_byte : ℕ → ℕ → ℕ
test_byte b shift = bit_and (b / 2 ^ shift) 1

abbrev pub raise_byte : ℕ → ℕ → ℕ
raise_byte b shift = bit_or b (2 ^ shift)

abbrev pub flip_byte : ℕ → ℕ → ℕ
flip_byte b shift = bit_xor b (2 ^ shift)

-- `GetBit`, `SetBit` and `SwapBit`, for bits inside the id, as their assertion asks.
unfoldable pub get_bit : KadId → ℕ → Bool
get_bit d bit = test_byte (get_or d (bit / 8) 0) (7 - bit % 8) == 1

-- `|=` raises the bit; where `val` is false `^=` clears it again.
abbrev pub set_byte : ℕ → ℕ → Bool → ℕ
set_byte b shift val =
    let raised = u8 (raise_byte b shift) in if val then raised else u8 (flip_byte raised shift)

abbrev pub swap_byte : ℕ → ℕ → ℕ
swap_byte b shift =
    if test_byte b shift == 1
    then u8 (flip_byte (u8 (raise_byte b shift)) shift)
    else u8 (raise_byte b shift)

unfoldable pub set_bit : KadId → ℕ → Bool → KadId
set_bit d bit val = set d (bit / 8) (set_byte (get_or d (bit / 8) 0) (7 - bit % 8) val)

unfoldable pub set_bits : KadId → ℕ → ℕ → Bool → KadId
set_bits d bit zero val = d
set_bits d bit (suc qty) val = set_bits (set_bit d bit val) (bit + 1) qty val

unfoldable pub swap_bit : KadId → ℕ → KadId
swap_bit d bit = set d (bit / 8) (swap_byte (get_or d (bit / 8) 0) (7 - bit % 8))

unfoldable pub power_of_two : ℕ → ℕ → KadId
power_of_two n power = set_bit (clear n) (n * 8 - 1 - power) true

-- `for (b = 7; b >= 0; --b) if (t >= (1 << b)) return bit + b + 1; return bit;`
unfoldable pub top_bit : ℕ → ℕ → ℕ → ℕ
top_bit bit zero t = bit
top_bit bit (suc b) t = if leb (2 ^ b) t then bit + b + 1 else top_bit bit b t

unfoldable pub distance_to : KadId → KadId → ℕ
distance_to [] ys = 0
distance_to (x ∷ xs) [] = 0
distance_to (x ∷ xs) (y ∷ ys) =
    let t = bit_xor x y in
    let rest = distance_to xs ys in if t == 0 then rest else top_bit (length xs * 8) 8 t

-- `id.Closer(to, than)`.
unfoldable pub closer : KadId → KadId → KadId → Bool
closer id to than = id_lt (xor id to) (xor id than)
