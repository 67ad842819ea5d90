-- ===== src/NodeId/Add.antt =====
-- `Add` as addition of the numbers that ids stand for.
use native.Mathlib.Nat.{mod-eq_of_lt}
use kad.Common.{ℕ, ◌+◌, ◌*◌, ◌%◌, ◌^◌, ◌<◌, ◌≡◌, refl, sym, arith}
use kad.Common.{[], ◌∷◌, length, ap, subst, ◌∙◌, Bool-cases, true, pow-suc, ◌==◌}
use native.Mathlib.Nat.{mul-add-mod_self_right, add-zero}
use kad.Common.{inl, inr}
use kad.NodeId.{KadId, add, add_loop, is_zero, sar8, u16, u8}
use kad.NodeId.Value.{AllBytes, IsId, value, value-lt, value_bound}

pub value-is_zero : (d : KadId) → is_zero d ≡ true → value d ≡ 0
unfolding is_zero
value-is_zero [] h = refl
value-is_zero (b ∷ bs) h = elim (Bool-cases (b == 0)) [
  | inl z ↦ let b0 : b ≡ 0 = ground arith in rw b0 (omega (arith, value-is_zero bs (rw z at h)))
  | inr nz ↦ cc (rw nz at h)
]

-- What the loop of `Add` keeps: with the carry it has the sum of the bytes so far.
record Added (a b : KadId) (r : ℕ × KadId) : Type 0 where
  carried : r.0 < 2
  size : length r.1 ≡ length a
  bytes : AllBytes r.1
  sum : r.0 * 256 ^ length a + value r.1 ≡ value a + value b

-- One step of an `int16_t` sum of two bytes and a carry.
add_step :
    (c x y : ℕ)
    → c < 2
    → x < 256
    → y < 256
    → (sar8 (u16 (c + x + y)) < 2)
      × (sar8 (u16 (c + x + y)) * 256 + u8 (u16 (c + x + y)) ≡ c + x + y)
add_step c x y h p q = ground arith

-- The new digit `s` and carry `d` extend the sum by one place.
sum_step :
    (c d s x y m v a b : ℕ)
    → d * 256 + s ≡ c + x + y
    → c * m + v ≡ a + b
    → d * (m * 256) + (s * m + v) ≡ x * m + a + (y * m + b)
sum_step c d s x y m v a b e f = omega (arith, ap (λ (t : ℕ). t * m) e)

add_loop-Added :
    (a b : KadId) → length a ≡ length b → AllBytes a → AllBytes b → Added a b (add_loop a b)
unfolding add_loop
add_loop-Added [] [] e p q = record { carried = omega arith; size = refl; bytes = tt; sum = refl }
add_loop-Added [] (y ∷ ys) e p q = absurd (omega arith)
add_loop-Added (x ∷ xs) [] e p q = absurd (omega arith)
add_loop-Added (x ∷ xs) (y ∷ ys) e p q =
    let l : length xs ≡ length ys = omega arith in
    let ih = add_loop-Added xs ys l p.1 q.1 in
    let c = (add_loop xs ys).0 in
    let out = (add_loop xs ys).1 in
    let step = add_step c x y ih.carried p.0 q.0 in
    let m = 256 ^ length xs in
    record {
      carried = step.0;
      size = omega (arith, ih.size);
      bytes = (omega arith, ih.bytes);
      sum =
          rw (ih.size, ← l, pow-suc 256 (length xs))
            (sum_step c (sar8 (u16 (c + x + y))) (u8 (u16 (c + x + y))) x y m (value out) (value xs)
              (value ys) step.1 ih.sum);
    }

-- A number with a carry above it is a remainder.
pub remainder_of_carry : (c m v s : ℕ) → v < m → c * m + v ≡ s → v ≡ s % m
remainder_of_carry c m v s h e =
    sym (mod-eq_of_lt h) ∙ sym (mul-add-mod_self_right c m v) ∙ ap (λ (t : ℕ). t % m) e

-- What `Add` and `Sub` return early on a zero argument is the same as their sum.
pub value-zero_mod : (n : ℕ) (a : KadId) → IsId n a → value a ≡ value a % 256 ^ n
value-zero_mod n a p = sym (mod-eq_of_lt (value_bound n a p))

-- For ids of n bytes `Add` adds the numbers modulo 256 ^ n.
pub value-add :
    (n : ℕ) (a b : KadId) → IsId n a → IsId n b → value (add a b) ≡ (value a + value b) % 256 ^ n
unfolding add
value-add n a b p q = elim (Bool-cases (is_zero b)) [
  | inl z ↦
      rw (z, value-is_zero b z)
        (value-zero_mod n a p ∙ ap (λ (t : ℕ). t % 256 ^ n) (sym (add-zero (value a))))
  | inr nz ↦
      let r = add_loop-Added a b (p.size ∙ sym q.size) p.bytes q.bytes in
      let low : value (add_loop a b).1 < 256 ^ n =
        subst (λ (t : ℕ). value (add_loop a b).1 < 256 ^ t) (r.size ∙ p.size)
          (value-lt _ r.bytes) in
      rw nz (
        remainder_of_carry (add_loop a b).0 (256 ^ n) _ _ low (
          subst (λ (t : ℕ). (add_loop a b).0 * 256 ^ t + value (add_loop a b).1 ≡ value a + value b)
            p.size r.sum))
]

pub add-IsId : (n : ℕ) (a b : KadId) → IsId n a → IsId n b → IsId n (add a b)
unfolding add
add-IsId n a b p q = elim (Bool-cases (is_zero b)) [
  | inl z ↦ rw z p
  | inr nz ↦
      let r = add_loop-Added a b (p.size ∙ sym q.size) p.bytes q.bytes in
      rw nz (record { size = r.size ∙ p.size; bytes = r.bytes })
]
