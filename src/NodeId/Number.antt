-- ===== src/NodeId/Number.antt =====
-- `TKadId(uint64_t)` and `PowerOfTwo`: the ids that stand for given numbers.
use kad.Common.{ℕ, zero, suc, ◌+◌, ◌-◌, ◌*◌, ◌/◌, ◌%◌, ◌^◌, ◌≤◌, ◌<◌, ◌≡◌, refl, sym, arith}
use kad.Common.{true, [], ◌∷◌, length, get_or, set}
use kad.Common.{get_or-set_ne, length-set}
use kad.Common.{length-replicate, ap, ◌∙◌, pow-suc, one-le-pow}
use kad.Common.Bits.{pow-add, pow-eight}
use kad.NodeId.{KadId, set_bit, power_of_two, clear}
use kad.NodeId.Value.{AllBytes, IsId, value}
use kad.NodeId.Byte.{set_byte-zero}
use kad.NodeId.Bit.{AllBytes-set, set_bit-IsId}
use kad.NodeId.Add.{remainder_of_carry}
use kad.NodeId.{from_num, fill}
use kad.Common.{min}
use native.Mathlib.Decide.{dec_le}
use native.Mathlib.Nat.{pow-le-pow_right, mul-le-mul_right}
use kad.NodeId.{u8}
use native.Mathlib.Nat.{div-add-mod', mod-eq_of_lt, mod-lt}

-- The value of an id after one byte is written.
pub value-set :
    (d : KadId) (i v : ℕ)
    → i < length d
    → value (set d i v) + get_or d i 0 * 256 ^ (length d - 1 - i)
      ≡ value d + v * 256 ^ (length d - 1 - i)
value-set [] i v h = absurd (omega arith)
value-set (b ∷ bs) zero v h =
    let e : suc (length bs) - 1 - 0 ≡ length bs = omega arith in rw e (omega arith)
value-set (b ∷ bs) (suc i) v h =
    let e : suc (length bs) - 1 - suc i ≡ length bs - 1 - i = omega arith in
    rw (e, length-set bs i v) (omega (arith, value-set bs i v (omega arith)))

get_or-clear : (n i : ℕ) → get_or (clear n) i 0 ≡ 0
get_or-clear zero i = refl
get_or-clear (suc n) zero = refl
get_or-clear (suc n) (suc i) = get_or-clear n i

pub value-clear : (n : ℕ) → value (clear n) ≡ 0
value-clear zero = refl
value-clear (suc n) = omega (arith, value-clear n)

-- For p less than 8 n, `PowerOfTwo(p)` of n bytes stands for 2 ^ p.
pub value-power_of_two : (n p : ℕ) → p < n * 8 → value (power_of_two n p) ≡ 2 ^ p
unfolding power_of_two set_bit
value-power_of_two n p h =
    let i : (n * 8 - 1 - p) / 8 ≡ n - 1 - p / 8 = omega arith in
    let shift : 7 - (n * 8 - 1 - p) % 8 ≡ p % 8 = omega arith in
    let place : n - 1 - (n - 1 - p / 8) ≡ p / 8 = omega arith in
    let digits : p ≡ p % 8 + 8 * (p / 8) = omega arith in
    let power : 2 ^ p ≡ 2 ^ (p % 8) * 256 ^ (p / 8) =
      ap (λ (t : ℕ). 2 ^ t) digits
      ∙ pow-add 2 (p % 8) (8 * (p / 8))
      ∙ ap (λ (t : ℕ). 2 ^ (p % 8) * t) (sym (pow-eight (p / 8))) in
    let written =
      value-set (clear n) (n - 1 - p / 8) (2 ^ (p % 8))
        (rw (length-replicate {A = ℕ} n 0) (omega arith)) in
    rw (i, shift, get_or-clear n (n - 1 - p / 8), set_byte-zero (p % 8) (omega arith))
      (omega (
        arith,
        rw (get_or-clear n (n - 1 - p / 8), value-clear n, length-replicate {A = ℕ} n 0, place) at
            written,
        power,
      ))

pub clear-IsId : (n : ℕ) → IsId n (clear n)
clear-IsId n = record { size = length-replicate {A = ℕ} n 0; bytes = zeros n }
  where
    zeros : (k : ℕ) → AllBytes (clear k)
    zeros zero = tt
    zeros (suc k) = (omega arith, zeros k)

pub power_of_two-IsId : (n p : ℕ) → IsId n (power_of_two n p)
unfolding power_of_two
power_of_two-IsId n p = set_bit-IsId n (clear n) (n * 8 - 1 - p) true (clear-IsId n)

-- One more byte of a number, above its `i` lowest.
next_byte : (x i : ℕ) → x % 256 ^ i + x / 256 ^ i % 256 * 256 ^ i ≡ x % 256 ^ (i + 1)
next_byte x i =
    let e : i + 1 ≡ suc i = omega arith in
    let m = 256 ^ i in
    let low = mod-lt x (one-le-pow i 256 (omega arith)) in
    let digit : x / m % 256 < 256 = omega arith in
    let room = mul-le-mul_right m digit in
    let whole = ap (λ (t : ℕ). t * m) (div-add-mod' (x / m) 256) in
    rw (e, pow-suc 256 i)
      (remainder_of_carry (x / m / 256) (m * 256) (x % m + x / m % 256 * m) x (omega arith)
        (omega (arith, whole, div-add-mod' x m)))

-- What the loop of `TKadId(uint64_t)` keeps: the `i` lowest bytes are written, the others are 0.
record Filled (n i num : ℕ) (d : KadId) : Type 0 where
  id : IsId n d
  number : value d ≡ num % 256 ^ i
  rest : (j : ℕ) → j < n - i → get_or d j 0 ≡ 0

fill-Filled :
    (left n i num : ℕ) (d : KadId)
    → i + left ≤ n
    → Filled n i num d
    → Filled n (i + left) num (fill left i num d)
unfolding fill
fill-Filled zero n i num d l f = let e : i + 0 ≡ i = omega arith in rw e f
fill-Filled (suc left) n i num d l f =
    let e : i + suc left ≡ i + 1 + left = omega arith in
    let k = length d - 1 - i in
    let v = u8 (num / 256 ^ i) in
    let place : length d - 1 - k ≡ i = omega (arith, f.id.size) in
    let inside : k < length d = omega (arith, f.id.size) in
    let empty : get_or d k 0 ≡ 0 = f.rest k (omega (arith, f.id.size)) in
    rw e (
      fill-Filled left n (i + 1) num _ (omega arith) (record {
        id = record {
          size = length-set d k v ∙ f.id.size;
          bytes = AllBytes-set d k v (omega arith) f.id.bytes;
        };
        number =
            omega (arith, rw (place, empty) at (value-set d k v inside), f.number, next_byte num i);
        rest = λ j h. get_or-set_ne d k j v 0 (omega (arith, f.id.size)) ∙ f.rest j (omega arith);
      }))

from_num-Filled : (n num : ℕ) → Filled n (0 + min n 8) num (from_num n num)
unfolding from_num
from_num-Filled n num = fill-Filled (min n 8) n 0 num (clear n) (omega arith) (record {
  id = clear-IsId n;
  number = value-clear n ∙ omega arith;
  rest = λ j _. get_or-clear n j;
})

pub from_num-IsId : (n num : ℕ) → IsId n (from_num n num)
from_num-IsId n num = (from_num-Filled n num).id

-- For a 64-bit number, `TKadId(num)` of n bytes stands for num modulo 256 ^ n.
pub value-from_num : (n num : ℕ) → num < 2 ^ 64 → value (from_num n num) ≡ num % 256 ^ n
value-from_num n num h = (from_num-Filled n num).number ∙ elim (dec_le n 8) [
  | yes p ↦ ap (λ (t : ℕ). num % 256 ^ t) (omega arith)
  | no p ↦
      let eight : 0 + min n 8 ≡ 8 = omega arith in
      let wide : 256 ^ 8 ≤ 256 ^ n = pow-le-pow_right (omega arith) {i = 8} (omega arith) in
      rw eight (mod-eq_of_lt h ∙ sym (mod-eq_of_lt (omega arith)))
]
