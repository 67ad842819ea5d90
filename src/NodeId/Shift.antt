-- ===== src/NodeId/Shift.antt =====
-- `Shl` as multiplication by a power of two. Its index shift divides by 16 where a byte has 8
-- bits, so a shift by 16 or more moves the id by fewer bits than asked for; and a remainder over 8
-- does not fit the 16 bits of `iShifted`.
use native.Mathlib.Nat.{mod-eq_of_lt}
use kad.Common.{ℕ, zero, suc, ◌+◌, ◌*◌, ◌%◌, ◌^◌, ◌<◌, ◌≡◌, refl, sym, arith}
use kad.Common.{[], ◌∷◌, length, ap, subst, ◌∙◌, Bool-cases, pow-suc, ◌==◌}
use kad.Common.{inl, inr}
use kad.NodeId.{KadId, is_zero, u16}
use kad.NodeId.Value.{AllBytes, IsId, value, value-lt}
use native.Mathlib.Nat.{pow-le-pow_right, mul-le-mul_right, mul-one, zero-mod}
use kad.Common.{false, one-le-pow}
use kad.NodeId.Add.{remainder_of_carry, value-is_zero, value-zero_mod}
use kad.Common.Bits.{pow-add}
use kad.NodeId.{shl, shl_loop}
use kad.Common.{
  ◌≤◌, ◌/◌, one-le-pow, length-replicate, ap₂, length-append, drop, replicate, ◌++◌, min, leb,
}

-- What the loop of `Shl` keeps, when it shifts by at most 8 bits.
record Shifted (m : ℕ) (d : KadId) (r : ℕ × KadId) : Type 0 where
  carried : r.0 < 2 ^ m
  size : length r.1 ≡ length d
  bytes : AllBytes r.1
  product : r.0 * 256 ^ length d + value r.1 ≡ value d * 2 ^ m

-- One digit of the product: the shifted byte with what came up from below.
shift_step :
    (m c b : ℕ)
    → m ≤ 8
    → c < 2 ^ m
    → b < 256
    → let s = u16 (c + b * 2 ^ m) in (s ≡ c + b * 2 ^ m) × (s / 256 < 2 ^ m)
shift_step m c b h p q =
    let k : 2 ^ m ≤ 2 ^ 8 = pow-le-pow_right (omega arith) h in
    let top : b * 2 ^ m ≤ 255 * 2 ^ m = mul-le-mul_right (2 ^ m) (omega arith) in
    let fits : c + b * 2 ^ m < 2 ^ 16 = omega arith in rw (mod-eq_of_lt fits) (refl, omega arith)

product_step :
    (c b k m v d s : ℕ)
    → s ≡ c + b * k
    → c * m + v ≡ d * k
    → s / 256 * (m * 256) + (s % 256 * m + v) ≡ (b * m + d) * k
product_step c b k m v d s e f =
    let whole : s / 256 * 256 + s % 256 ≡ s = omega arith in
    omega (arith, ap (λ (t : ℕ). t * m) whole, ap (λ (t : ℕ). t * m) e)

shl_loop-Shifted : (m : ℕ) (d : KadId) → m ≤ 8 → AllBytes d → Shifted m d (shl_loop m d)
unfolding shl_loop
shl_loop-Shifted m [] h p = record {
  carried = one-le-pow m 2 (omega arith);
  size = refl;
  bytes = tt;
  product = omega arith;
}
shl_loop-Shifted m (b ∷ bs) h p =
    let ih = shl_loop-Shifted m bs h p.1 in
    let c = (shl_loop m bs).0 in
    let v = value (shl_loop m bs).1 in
    let (exact, fits) = shift_step m c b h ih.carried p.0 in
    record {
      carried = fits;
      size = omega (arith, ih.size);
      bytes = (omega arith, ih.bytes);
      product =
          rw (ih.size, pow-suc 256 (length bs))
            (product_step c b (2 ^ m) (256 ^ length bs) v (value bs) (u16 (c + b * 2 ^ m)) exact
              ih.product);
    }

value-append : (a b : KadId) → value (a ++ b) ≡ value a * 256 ^ length b + value b
value-append [] b = omega arith
value-append (x ∷ xs) b =
    rw (length-append xs b, pow-add 256 (length xs) (length b)) (omega (arith, value-append xs b))

value-replicate : (k : ℕ) → value (replicate k 0) ≡ 0
value-replicate zero = refl
value-replicate (suc k) = omega (arith, value-replicate k)

AllBytes-replicate : (k : ℕ) → AllBytes (replicate k 0)
AllBytes-replicate zero = tt
AllBytes-replicate (suc k) = (omega arith, AllBytes-replicate k)

AllBytes-drop : (k : ℕ) (d : KadId) → AllBytes d → AllBytes (drop k d)
AllBytes-drop zero d h = h
AllBytes-drop (suc k) [] h = tt
AllBytes-drop (suc k) (x ∷ xs) h = AllBytes-drop k xs h.1

AllBytes-append : (a b : KadId) → AllBytes a → AllBytes b → AllBytes (a ++ b)
AllBytes-append [] b p q = q
AllBytes-append (x ∷ xs) b p q = (p.0, AllBytes-append xs b p.1 q)

length-drop : (k : ℕ) (d : KadId) → k ≤ length d → length d ≡ k + length (drop k d)
length-drop zero d l = omega arith
length-drop (suc k) [] l = absurd (omega arith)
length-drop (suc k) (x ∷ xs) l = omega (arith, length-drop k xs (omega arith))

-- Dropping leading bytes leaves the lower digits of the number.
value-drop :
    (k : ℕ) (d : KadId)
    → k ≤ length d
    → (h : ℕ) × (value d ≡ h * 256 ^ length (drop k d) + value (drop k d))
value-drop zero d l = (0, omega arith)
value-drop (suc k) [] l = absurd (omega arith)
value-drop (suc k) (x ∷ xs) l =
    let (h, e) = value-drop k xs (omega arith) in
    let split : 256 ^ length xs ≡ 256 ^ k * 256 ^ length (drop k xs) =
      ap (λ (t : ℕ). 256 ^ t) (length-drop k xs (omega arith))
      ∙ pow-add 256 k (length (drop k xs)) in
    (x * 256 ^ k + h, omega (arith, e, ap (λ (t : ℕ). x * t) split))

-- The digits above and below the cut, put together again.
shifted_number :
    (h k b c m v d : ℕ) → c * m + v ≡ d * k → (h * k + c) * (b * m) + v * b ≡ (h * m + d) * (k * b)
shifted_number h k b c m v d e = omega (arith, ap (λ (t : ℕ). t * b) e)

module _ (n j m : ℕ) (d : KadId) (p : IsId n d) (small : m ≤ 8) (inside : 16 * j + m < n * 8) where
  enough : j ≤ length d
  enough = omega (arith, p.size)

  abbrev kept : KadId
  kept = drop j d

  -- The branch of `Shl` that shifts.
  value-shl_loop :
      value ((shl_loop m kept).1 ++ replicate j 0) ≡ value d * (2 ^ m * 256 ^ j) % 256 ^ n
  value-shl_loop =
      let r = shl_loop-Shifted m kept small (AllBytes-drop j d p.bytes) in
      let (h, e) = value-drop j d enough in
      let v = value (shl_loop m kept).1 in
      let len : n ≡ j + length kept = sym p.size ∙ length-drop j d enough in
      let low : v < 256 ^ length kept =
        subst (λ (t : ℕ). v < 256 ^ t) r.size (value-lt (shl_loop m kept).1 r.bytes) in
      let modulus : 256 ^ n ≡ 256 ^ j * 256 ^ length kept =
        ap (λ (t : ℕ). 256 ^ t) len ∙ pow-add 256 j (length kept) in
      let below : v * 256 ^ j < 256 ^ j * 256 ^ length kept =
        omega (arith, mul-le-mul_right (256 ^ j) low, one-le-pow j 256 (omega arith)) in
      let shown : value ((shl_loop m kept).1 ++ replicate j 0) ≡ v * 256 ^ j =
        rw
          (
            value-append (shl_loop m kept).1 (replicate j 0),
            length-replicate {A = ℕ} j 0,
            value-replicate j,
          )
          (omega arith) in
      shown
      ∙ remainder_of_carry (h * 2 ^ m + (shl_loop m kept).0) (256 ^ j * 256 ^ length kept)
          (v * 256 ^ j) _ below
          (shifted_number h (2 ^ m) (256 ^ j) (shl_loop m kept).0 (256 ^ length kept) v (value kept)
            r.product)
      ∙ ap₂ (λ (x y : ℕ). x * (2 ^ m * 256 ^ j) % y) (sym e) (sym modulus)

  -- For an id of n bytes and 16 j + m less than 8 n, m at most 8, `Shl` by 16 j + m bits
  -- multiplies the number by 2 ^ m * 256 ^ j, modulo 256 ^ n.
  pub value-shl : value (shl d (16 * j + m)) ≡ value d * (2 ^ m * 256 ^ j) % 256 ^ n
  unfolding shl
  value-shl =
      let whole : (16 * j + m) / 16 ≡ j = omega arith in
      let rest : (16 * j + m) % 16 ≡ m = omega arith in
      let fits : leb (length d * 8) (16 * j + m) ≡ false = ground (arith, p.size) in
      let all : min j (length d) ≡ j = omega (arith, enough) in
      elim (Bool-cases (16 * j + m == 0)) [
        | inl z ↦
            let j0 : j ≡ 0 = ground arith in
            let m0 : m ≡ 0 = ground arith in
            rw (z, j0, m0)
              (value-zero_mod n d p ∙ ap (λ (t : ℕ). t % 256 ^ n) (sym (mul-one (value d))))
        | inr nz ↦ elim (Bool-cases (is_zero d)) [
          | inl dz ↦
              rw (nz, dz, value-is_zero d dz)
                (sym (zero-mod (256 ^ n)) ∙ ap (λ (t : ℕ). t % 256 ^ n) (omega arith))
          | inr dnz ↦ rw (nz, dnz, fits, whole, rest, all) value-shl_loop
        ]
      ]
