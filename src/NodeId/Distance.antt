-- ===== src/NodeId/Distance.antt =====
-- `DistanceTo`: the length of a distance in binary.
use kad.Common.{ℕ, zero, suc, ◌+◌, ◌*◌, ◌^◌, ◌≤◌, ◌<◌, ◌≡◌, sym, arith}
use native.Mathlib.Nat.{mul-le-mul_right}
use kad.Common.{
  [], ◌∷◌, length, ap, subst, ◌∙◌, ◌≢◌, inl, inr, Bool-cases, leb, ◌==◌, bit_xor, pow-suc,
}
use kad.Common.Bits.{bit_xor-lt}
use kad.Common.Bits.{pow-eight, pow-add}
use kad.NodeId.{KadId, xor, distance_to, top_bit}
use kad.NodeId.Value.{AllBytes, IsId, value, value-lt}
use kad.NodeId.Metric.{length-xor, AllBytes-xor, distance_zero_iff}

-- The loop over the bits of a byte finds the length of its binary form.
top_bit_bounds :
    (bit k t : ℕ)
    → 0 < t
    → t < 2 ^ k
    → (n : ℕ) × (top_bit bit k t ≡ bit + suc n) × (2 ^ n ≤ t) × (t < 2 ^ suc n)
unfolding top_bit
top_bit_bounds bit zero t h l = absurd (omega arith)
top_bit_bounds bit (suc k) t h l = elim (Bool-cases (leb (2 ^ k) t)) [
  | inl over ↦ (k, rw over (omega arith), ground arith, l)
  | inr under ↦ rw under (top_bit_bounds bit k t h (ground arith))
]

-- `n` leading binary digits of a number in `m` bytes more.
digits_above :
    (m n t v : ℕ)
    → v < 256 ^ m
    → 2 ^ n ≤ t
    → t < 2 ^ suc n
    → (2 ^ (m * 8 + n) ≤ t * 256 ^ m + v) × (t * 256 ^ m + v < 2 ^ suc (m * 8 + n))
digits_above m n t v low h k =
    let e : m * 8 ≡ 8 * m = omega arith in
    let top = pow-add 2 (8 * m) n in
    let top' = pow-suc 2 (8 * m + n) in
    let lower = mul-le-mul_right (256 ^ m) h in
    let upper = mul-le-mul_right (256 ^ m) k in
    rw e (
      omega (arith, top, pow-eight m, lower, ap (λ (x : ℕ). x * 2 ^ n) (pow-eight m)),
      omega (
        arith,
        top,
        top',
        upper,
        ap (λ (x : ℕ). x * 2 ^ n) (pow-eight m),
        ap (λ (x : ℕ). x * 256 ^ m) (pow-suc 2 n),
      ),
    )

distance_loop_bounds :
    (a b : KadId)
    → length a ≡ length b
    → AllBytes a
    → AllBytes b
    → 0 < value (xor a b)
    → (k : ℕ) × (distance_to a b ≡ suc k)
      × (2 ^ k ≤ value (xor a b))
      × (value (xor a b) < 2 ^ suc k)
unfolding distance_to xor
distance_loop_bounds [] [] e p q h = absurd (omega arith)
distance_loop_bounds [] (y ∷ ys) e p q h = absurd (omega arith)
distance_loop_bounds (x ∷ xs) [] e p q h = absurd (omega arith)
distance_loop_bounds (x ∷ xs) (y ∷ ys) e p q h =
    let l : length xs ≡ length ys = omega arith in
    let t = bit_xor x y in
    let m = length xs in
    let same = length-xor xs ys l in
    let low : value (xor xs ys) < 256 ^ m =
      subst (λ (n : ℕ). value (xor xs ys) < 256 ^ n) same
        (value-lt (xor xs ys) (AllBytes-xor xs ys p.1 q.1)) in
    elim (Bool-cases (t == 0)) [
      | inl z ↦
          let t0 : t ≡ 0 = ground arith in
          let v : 0 * 256 ^ length (xor xs ys) + value (xor xs ys) ≡ value (xor xs ys) =
            omega arith in
          rw (t0, v) (distance_loop_bounds xs ys l p.1 q.1 (rw (t0, v) at h))
      | inr nz ↦
          let (n, e1, e2, e3) =
            top_bit_bounds (m * 8) 8 t (ground arith) (bit_xor-lt 8 x y p.0 q.0) in
          let (above, below) = digits_above m n t (value (xor xs ys)) low e2 e3 in
          rw (nz, same) (m * 8 + n, omega (arith, e1), above, below)
    ]

-- For different ids of n bytes `DistanceTo` returns k + 1 for a k with 2 ^ k at most the distance,
-- and the distance less than 2 ^ (k + 1).
pub distance_to_bounds :
    (n : ℕ) (a b : KadId)
    → IsId n a
    → IsId n b
    → a ≢ b
    → (k : ℕ) × (distance_to a b ≡ suc k)
      × (2 ^ k ≤ value (xor a b))
      × (value (xor a b) < 2 ^ suc k)
distance_to_bounds n a b p q ne =
    distance_loop_bounds a b (p.size ∙ sym q.size) p.bytes q.bytes
      (ground (arith, λ (e : value (xor a b) ≡ 0). ne ((distance_zero_iff n a b p q).0 e)))
