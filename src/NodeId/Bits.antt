-- ===== src/NodeId/Bits.antt =====
-- Several bits of an id at once: `SetBits`, and `|` with a power of two.
use kad.Common.{
  ℕ, zero, suc, ◌+◌, ◌-◌, ◌*◌, ◌/◌, ◌%◌, ◌≤◌, ◌<◌, ◌≡◌, refl, ap₂, subst, arith, Bool, true,
}
use kad.Common.{[], ◌∷◌, length, get_or, set, leb, ltb, if◌then◌else◌, ◌&&◌}
use kad.NodeId.{KadId, or, clear, set_bit, set_bits, set_byte, get_bit, power_of_two}
use kad.NodeId.Value.{AllBytes, IsId}
use kad.NodeId.Byte.{bit_or-set_byte}
use kad.NodeId.Bit.{set_bit-IsId, get_bit-set_bit}

pub set_bits-IsId :
    (n : ℕ) (d : KadId) (bit qty : ℕ) (val : Bool) → IsId n d → IsId n (set_bits d bit qty val)
unfolding set_bits
set_bits-IsId n d bit zero val p = p
set_bits-IsId n d bit (suc qty) val p =
    set_bits-IsId n (set_bit d bit val) (bit + 1) qty val (set_bit-IsId n d bit val p)

-- `GetBit(j)` after `SetBits(bit, qty, val)`, of bits inside an id of n bytes.
pub get_bit-set_bits :
    (n : ℕ) (d : KadId) (bit qty j : ℕ) (val : Bool)
    → IsId n d
    → bit + qty ≤ n * 8
    → get_bit (set_bits d bit qty val) j
      ≡ (if leb bit j && ltb j (bit + qty) then val else get_bit d j)
unfolding set_bits
get_bit-set_bits n d bit zero j val p h = ground arith
get_bit-set_bits n d bit (suc qty) j val p h =
    let more =
      get_bit-set_bits n (set_bit d bit val) (bit + 1) qty j val (set_bit-IsId n d bit val p)
        (omega arith) in
    let one = get_bit-set_bit n d bit j val p (omega arith) in ground (arith, more, one)

or_clear : (d : KadId) → AllBytes d → or d (clear (length d)) ≡ d
unfolding or
or_clear [] p = refl
or_clear (b ∷ bs) p =
    ap₂ (λ (x : ℕ) (xs : KadId). x ∷ xs) (bit_or-set_byte b 0 p.0 (omega arith)).0 (or_clear bs p.1)

or_set :
    (d : KadId) (k shift : ℕ)
    → AllBytes d
    → shift < 8
    → or d (set (clear (length d)) k (set_byte 0 shift true))
      ≡ set d k (set_byte (get_or d k 0) shift true)
unfolding or
or_set [] k shift p h = refl
or_set (b ∷ bs) zero shift p h =
    ap₂ (λ (x : ℕ) (xs : KadId). x ∷ xs) (bit_or-set_byte b shift p.0 h).1 (or_clear bs p.1)
or_set (b ∷ bs) (suc k) shift p h =
    ap₂ (λ (x : ℕ) (xs : KadId). x ∷ xs) (bit_or-set_byte b 0 p.0 (omega arith)).0
      (or_set bs k shift p.1 h)

get_or-clear : (n i : ℕ) → get_or (clear n) i 0 ≡ 0
get_or-clear zero i = refl
get_or-clear (suc n) zero = refl
get_or-clear (suc n) (suc i) = get_or-clear n i

-- `|` with a power of two sets one bit.
pub or-power_of_two :
    (n : ℕ) (d : KadId) (power : ℕ)
    → IsId n d
    → or d (power_of_two n power) ≡ set_bit d (n * 8 - 1 - power) true
unfolding power_of_two set_bit
or-power_of_two n d power p =
    let bit = n * 8 - 1 - power in
    let none_set = get_or-clear n (bit / 8) in
    rw none_set (
      subst
        (λ (m : ℕ).
          or d (set (clear m) (bit / 8) (set_byte 0 (7 - bit % 8) true))
          ≡ set d (bit / 8) (set_byte (get_or d (bit / 8) 0) (7 - bit % 8) true))
        p.size (or_set d (bit / 8) (7 - bit % 8) p.bytes (omega arith)))
