-- ===== src/NodeId/Sub.antt =====
-- `Sub` as subtraction of the numbers that ids stand for.
use native.Mathlib.Nat.{mod-eq_of_lt}
use kad.Common.{ℕ, zero, suc, ◌+◌, ◌-◌, ◌*◌, ◌%◌, ◌^◌, ◌<◌, ◌≡◌, refl, sym, arith}
use kad.Common.{[], ◌∷◌, length, ap, subst, ◌∙◌, Bool-cases, pow-suc}
use native.Mathlib.Nat.{mod-eq-sub-mod, add-mod_right, sub-zero}
use kad.Common.{inl, inr, ltb, if◌then◌else◌}
use native.Mathlib.Decide.{dec_lt}
use kad.NodeId.{KadId, add, sub, sub_loop, is_zero, sar8, u16, u8}
use kad.NodeId.Value.{AllBytes, IsId, value, value-lt, value_bound, id_of_value}
use kad.NodeId.Add.{value-is_zero, value-zero_mod, value-add, add-IsId}

-- What the loop of `Sub` keeps: the carry is 0, or -1 as 16 bits for a borrow.
record Subtracted (a b : KadId) (r : ℕ × KadId) : Type 0 where
  borrow : ℕ
  borrowed : (borrow < 2) × (r.0 ≡ borrow * (2 ^ 16 - 1))
  size : length r.1 ≡ length a
  bytes : AllBytes r.1
  difference : value r.1 + value b ≡ value a + borrow * 256 ^ length a

sub_step :
    (w x y : ℕ)
    → w < 2
    → x < 256
    → y < 256
    → let s = u16 (w * (2 ^ 16 - 1) + x + 2 ^ 16 - y) in
      (v : ℕ) × (v < 2) × (sar8 s ≡ v * (2 ^ 16 - 1)) × (u8 s + y + w ≡ x + v * 256)
sub_step w x y h p q = (if ltb x (y + w) then 1 else 0, ground arith, ground arith, ground arith)

-- The new digit `s` and borrow `v` extend the difference by one place.
difference_step :
    (w v s x y m d a b : ℕ)
    → s + y + w ≡ x + v * 256
    → d + b ≡ a + w * m
    → s * m + d + (y * m + b) ≡ x * m + a + v * (m * 256)
difference_step w v s x y m d a b e f = omega (arith, ap (λ (t : ℕ). t * m) e)

sub_loop-Subtracted :
    (a b : KadId) → length a ≡ length b → AllBytes a → AllBytes b → Subtracted a b (sub_loop a b)
unfolding sub_loop
sub_loop-Subtracted [] [] e p q = record {
  borrow = 0;
  borrowed = omega arith;
  size = refl;
  bytes = tt;
  difference = refl;
}
sub_loop-Subtracted [] (y ∷ ys) e p q = absurd (omega arith)
sub_loop-Subtracted (x ∷ xs) [] e p q = absurd (omega arith)
sub_loop-Subtracted (x ∷ xs) (y ∷ ys) e p q =
    let l : length xs ≡ length ys = omega arith in
    let ih = sub_loop-Subtracted xs ys l p.1 q.1 in
    let out = (sub_loop xs ys).1 in
    let (v, small, shifted, digit) = sub_step ih.borrow x y ih.borrowed.0 p.0 q.0 in
    let m = 256 ^ length xs in
    rw ih.borrowed.1 (record {
      borrow = v;
      borrowed = (small, shifted);
      size = omega (arith, ih.size);
      bytes = (omega arith, ih.bytes);
      difference =
          rw (ih.size, ← l, pow-suc 256 (length xs))
            (difference_step ih.borrow v _ x y m (value out) (value xs) (value ys) digit
              ih.difference);
    })

remainder_of_borrow : (w m a b d : ℕ) → w < 2 → d < m → d + b ≡ a + w * m → d ≡ (a + m - b) % m
remainder_of_borrow zero m a b d h k e =
    let even : a + m - b ≡ d + m = omega arith in
    rw (even, add-mod_right d m) (sym (mod-eq_of_lt k))
remainder_of_borrow (suc zero) m a b d h k e =
    let even : a + m - b ≡ d = omega arith in rw even (sym (mod-eq_of_lt k))
remainder_of_borrow (suc (suc w)) m a b d h k e = absurd (omega arith)

-- For ids of n bytes `Sub` subtracts the numbers modulo 256 ^ n.
pub value-sub :
    (n : ℕ) (a b : KadId)
    → IsId n a
    → IsId n b
    → value (sub a b) ≡ (value a + 256 ^ n - value b) % 256 ^ n
unfolding sub
value-sub n a b p q = elim (Bool-cases (is_zero b)) [
  | inl z ↦
      rw (z, value-is_zero b z)
        (value-zero_mod n a p
          ∙ sym (add-mod_right (value a) (256 ^ n))
          ∙ ap (λ (t : ℕ). t % 256 ^ n) (sym (sub-zero (value a + 256 ^ n))))
  | inr nz ↦
      let r = sub_loop-Subtracted a b (p.size ∙ sym q.size) p.bytes q.bytes in
      let low : value (sub_loop a b).1 < 256 ^ n =
        subst (λ (t : ℕ). value (sub_loop a b).1 < 256 ^ t) (r.size ∙ p.size)
          (value-lt _ r.bytes) in
      rw nz (
        remainder_of_borrow r.borrow (256 ^ n) (value a) (value b) _ r.borrowed.0 low (
          subst (λ (t : ℕ). value (sub_loop a b).1 + value b ≡ value a + r.borrow * 256 ^ t) p.size
            r.difference))
]

pub sub-IsId : (n : ℕ) (a b : KadId) → IsId n a → IsId n b → IsId n (sub a b)
unfolding sub
sub-IsId n a b p q = elim (Bool-cases (is_zero b)) [
  | inl z ↦ rw z p
  | inr nz ↦
      let r = sub_loop-Subtracted a b (p.size ∙ sym q.size) p.bytes q.bytes in
      rw nz (record { size = r.size ∙ p.size; bytes = r.bytes })
]

back : (m a b : ℕ) → a < m → b < m → ((a + b) % m + m - b) % m ≡ a
back m a b p q = elim (dec_lt (a + b) m) [
  | yes h ↦
      let even : a + b + m - b ≡ a + m = omega arith in
      rw (mod-eq_of_lt h, even, add-mod_right a m) (mod-eq_of_lt p)
  | no h ↦
      let once : (a + b) % m ≡ a + b - m =
        mod-eq-sub-mod (omega arith) ∙ mod-eq_of_lt (omega arith) in
      let even : a + b - m + m - b ≡ a = omega arith in rw (once, even) (mod-eq_of_lt p)
]

-- For ids of n bytes `Sub` of b undoes `Add` of b.
pub sub-add : (n : ℕ) (a b : KadId) → IsId n a → IsId n b → sub (add a b) b ≡ a
sub-add n a b p q =
    let s = add-IsId n a b p q in
    id_of_value n (sub (add a b) b) a (sub-IsId n (add a b) b s q) p (
      value-sub n (add a b) b s q
      ∙ ap (λ (t : ℕ). (t + 256 ^ n - value b) % 256 ^ n) (value-add n a b p q)
      ∙ back (256 ^ n) (value a) (value b) (value_bound n a p) (value_bound n b q))
