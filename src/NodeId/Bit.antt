-- ===== src/NodeId/Bit.antt =====
-- `GetBit`, `SetBit` and `SwapBit`, and the bits of an id as the digits of its number.
use native.Mathlib.Nat.{mul-add-div_right, div-div-eq-div-mul, div-eq_of_lt}
use kad.Common.{ℕ, zero, suc, ◌+◌, ◌-◌, ◌*◌, ◌/◌, ◌%◌, ◌^◌, ◌<◌, ◌≡◌, ◌≢◌, refl, sym, arith}
use kad.Common.{Bool, true, false, not, [], ◌∷◌, length, get_or, set, ◌==◌, ==_iff}
use kad.Common.{if◌then◌else◌, Bool-cases, inl, inr, get_or-set_self, get_or-set_ne, length-set}
use kad.Common.{ap, ◌∙◌, pow-suc, one-le-pow}
use kad.Common.Bits.{pow-add, pow-eight}
use kad.NodeId.{KadId, get_bit, set_bit, swap_bit, test_byte}
use kad.NodeId.Value.{AllBytes, IsId, value, value-lt}
use kad.NodeId.Byte.{bit_value, bit_not, test_byte-set_byte, test_byte-swap_byte, test_byte_lem}
use kad.NodeId.Byte.{set_byte-lt}

pub get_or-lt : (d : KadId) (i : ℕ) → AllBytes d → get_or d i 0 < 256
get_or-lt [] i h = omega arith
get_or-lt (b ∷ bs) zero h = h.0
get_or-lt (b ∷ bs) (suc i) h = get_or-lt bs i h.1

pub AllBytes-set : (d : KadId) (i v : ℕ) → v < 256 → AllBytes d → AllBytes (set d i v)
AllBytes-set [] i v hv h = tt
AllBytes-set (b ∷ bs) zero v hv h = (hv, h.1)
AllBytes-set (b ∷ bs) (suc i) v hv h = (h.0, AllBytes-set bs i v hv h.1)

pub set_bit-IsId : (n : ℕ) (d : KadId) (i : ℕ) (val : Bool) → IsId n d → IsId n (set_bit d i val)
unfolding set_bit
set_bit-IsId n d i val p = record {
  size = length-set d (i / 8) _ ∙ p.size;
  bytes = AllBytes-set d (i / 8) _ (set_byte-lt _ _ val) p.bytes;
}

-- Reading a bit after one byte is written.
get_bit-set :
    (d : KadId) (i j v : ℕ)
    → i / 8 < length d
    → get_bit (set d (i / 8) v) j
      ≡ (if i / 8 == j / 8 then test_byte v (7 - j % 8) == 1 else get_bit d j)
unfolding get_bit
get_bit-set d i j v h = elim (Bool-cases (i / 8 == j / 8)) [
  | inl same ↦
      let e : i / 8 ≡ j / 8 = (==_iff (i / 8) (j / 8)).0 same in
      rw (same, ← e, get_or-set_self d (i / 8) v 0 h) refl
  | inr other ↦
      let ne : i / 8 ≢ j / 8 = ground arith in
      rw (other, get_or-set_ne d (i / 8) (j / 8) v 0 ne) refl
]

-- A byte that `f` changes in bit `s` to `w`, and in no other bit.
byte_write :
    (d : KadId) (i j v : ℕ) (w : Bool)
    → i / 8 < length d
    → (i / 8 ≡ j / 8
        → test_byte v (7 - j % 8) ≡ (
            if 7 - i % 8 == 7 - j % 8
            then bit_value w
            else test_byte (get_or d (i / 8) 0) (7 - j % 8)))
    → get_bit (set d (i / 8) v) j ≡ (if i == j then w else get_bit d j)
byte_write d i j v w h e = rw (get_bit-set d i j v h) (elim (Bool-cases (i == j)) [
  | inl eq ↦
      let p : i ≡ j = (==_iff i j).0 eq in
      let s : (i / 8 == j / 8) ≡ true = ground arith in
      let t : (7 - i % 8 == 7 - j % 8) ≡ true = ground arith in
      rw (eq, s) (rw (rw t at (e ((==_iff (i / 8) (j / 8)).0 s))) (written w))
  | inr ne ↦ elim (Bool-cases (i / 8 == j / 8)) [
    | inl s ↦
        let same : i / 8 ≡ j / 8 = (==_iff (i / 8) (j / 8)).0 s in
        let t : (7 - i % 8 == 7 - j % 8) ≡ false = ground arith in
        rw (ne, s) (ap (λ (x : ℕ). x == 1) (rw (t, same) at (e same)) ∙ unfold get_bit in refl)
    | inr s ↦ rw (ne, s) refl
  ]
])
  where
    written : (b : Bool) → (bit_value b == 1) ≡ b
    written true = refl
    written false = refl

-- For an id of n bytes and i less than 8 n, `GetBit(j)` after `SetBit(i, val)` is val if i is j,
-- and what it was if not.
pub get_bit-set_bit :
    (n : ℕ) (d : KadId) (i j : ℕ) (val : Bool)
    → IsId n d
    → i < n * 8
    → get_bit (set_bit d i val) j ≡ (if i == j then val else get_bit d j)
unfolding set_bit
get_bit-set_bit n d i j val p h = byte_write d i j _ val (omega (arith, p.size)) λ _.
    test_byte-set_byte val (get_or d (i / 8) 0) (7 - i % 8) (7 - j % 8)
      (get_or-lt d (i / 8) p.bytes) (omega arith) (omega arith)

flipped : (x : ℕ) → x < 2 → bit_not x ≡ bit_value (not (x == 1))
flipped zero h = refl
flipped (suc zero) h = refl
flipped (suc (suc x)) h = absurd (omega arith)

-- For an id of n bytes and i less than 8 n, `GetBit(j)` after `SwapBit(i)` is the negation of what
-- it was if i is j, and what it was if not.
pub get_bit-swap_bit :
    (n : ℕ) (d : KadId) (i j : ℕ)
    → IsId n d
    → i < n * 8
    → get_bit (swap_bit d i) j ≡ (if i == j then not (get_bit d j) else get_bit d j)
unfolding swap_bit
get_bit-swap_bit n d i j p h =
    byte_write d i j _ (not (get_bit d j)) (omega (arith, p.size)) λ same.
      test_byte-swap_byte (get_or d (i / 8) 0) (7 - i % 8) (7 - j % 8) (get_or-lt d (i / 8) p.bytes)
        (omega arith) (omega arith)
      ∙ ap
          (λ (x : ℕ).
            if 7 - i % 8 == 7 - j % 8 then x else test_byte (get_or d (i / 8) 0) (7 - j % 8))
          (flipped (test_byte (get_or d (i / 8) 0) (7 - j % 8)) (
              omega (
                arith,
                test_byte_lem (get_or d (i / 8) 0) (7 - j % 8) (get_or-lt d (i / 8) p.bytes)
                    (omega arith),
              ))
            ∙ ap (λ (x : ℕ). bit_value (not (test_byte (get_or d x 0) (7 - j % 8) == 1))) same
            ∙ unfold get_bit in refl)

-- A digit above place `s` does not reach below it.
digit_above : (b v k u : ℕ) → 0 < k → (b * (k * (u * 2)) + v) / k % 2 ≡ v / k % 2
digit_above b v k u pos =
    let regroup : b * (k * (u * 2)) + v ≡ b * u * 2 * k + v = omega arith in
    rw (regroup, mul-add-div_right pos (b * u * 2) v) (omega arith)

digit_of_byte :
    (d : KadId) (q s : ℕ)
    → AllBytes d
    → q < length d
    → s < 8
    → value d / 2 ^ (8 * (length d - 1 - q) + s) % 2 ≡ get_or d q 0 / 2 ^ s % 2
digit_of_byte [] q s p h k = absurd (omega arith)
digit_of_byte (b ∷ bs) zero s p h k =
    let e : 8 * (suc (length bs) - 1 - 0) + s ≡ 8 * length bs + s = omega arith in
    let m : 2 ^ (8 * length bs + s) ≡ 256 ^ length bs * 2 ^ s =
      pow-add 2 (8 * length bs) s ∙ ap (λ (t : ℕ). t * 2 ^ s) (sym (pow-eight (length bs))) in
    let top : (b * 256 ^ length bs + value bs) / 256 ^ length bs ≡ b =
      mul-add-div_right (one-le-pow (length bs) 256 (omega arith)) b (value bs)
      ∙ omega (arith, div-eq_of_lt (value-lt bs p.1)) in
    rw (e, m, ← div-div-eq-div-mul, top) refl
digit_of_byte (b ∷ bs) (suc q) s p h k =
    let low = 8 * (length bs - 1 - q) + s in
    let e : 8 * (suc (length bs) - 1 - suc q) + s ≡ low = omega arith in
    let u = 8 * length bs - low - 1 in
    let parts : 8 * length bs ≡ low + suc u = omega arith in
    let m : 256 ^ length bs ≡ 2 ^ low * (2 ^ u * 2) =
      pow-eight (length bs)
      ∙ ap (λ (t : ℕ). 2 ^ t) parts
      ∙ pow-add 2 low (suc u)
      ∙ ap (λ (t : ℕ). 2 ^ low * t) (pow-suc 2 u) in
    rw (e, m)
      (digit_above b (value bs) (2 ^ low) (2 ^ u) (one-le-pow low 2 (omega arith))
        ∙ digit_of_byte bs q s p.1 (omega arith) k)

-- For an id of n bytes and i less than 8 n, `GetBit(i)` is the binary digit of the number at place
-- 8 n - 1 - i.
pub get_bit-value :
    (n : ℕ) (d : KadId) (i : ℕ)
    → IsId n d
    → i < n * 8
    → bit_value (get_bit d i) ≡ value d / 2 ^ (n * 8 - 1 - i) % 2
unfolding get_bit
get_bit-value n d i p h =
    let b = get_or d (i / 8) 0 in
    let place : 8 * (length d - 1 - i / 8) + (7 - i % 8) ≡ n * 8 - 1 - i = omega (arith, p.size) in
    let digit = test_byte_lem b (7 - i % 8) (get_or-lt d (i / 8) p.bytes) (omega arith) in
    shown (test_byte b (7 - i % 8)) (omega (arith, digit))
    ∙ digit
    ∙ sym (digit_of_byte d (i / 8) (7 - i % 8) p.bytes (omega (arith, p.size)) (omega arith))
    ∙ ap (λ (t : ℕ). value d / 2 ^ t % 2) place
  where
    shown : (x : ℕ) → x < 2 → bit_value (x == 1) ≡ x
    shown zero h = refl
    shown (suc zero) h = refl
    shown (suc (suc x)) h = absurd (omega arith)
