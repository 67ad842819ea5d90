-- ===== src/Common/Bits.antt =====
-- `^` on the native numbers: its recursion on binary digits, and the laws of exclusive or, at
-- every width.
use Prim.Native.Nat.{ℕ, zero, suc, ◌+◌, ◌-◌, ◌*◌, ◌/◌, ◌%◌, ◌^◌, ◌≤◌, ◌<◌}
use Prim.Native.Nat.{digits, differ, bit_xor, bit_xor-bitwise}
use mathlib.Core.Path.{◌≡◌, refl, sym, ap, ◌∙◌}
use native.Mathlib.Nat.{le_refl, pow-zero, pow-suc, one-le-pow, mod-lt, div-add-mod'}
use native.Mathlib.Nat.{mul-add-div_right, div-eq_of_lt}
use native.Mathlib.Omega.{arith}

-- The recursion that `bit_xor` stands for, with its fuel in front.
abbrev sum_digits : ℕ → ℕ → ℕ → ℕ
sum_digits fuel x y = digits (λ rest. rest) differ fuel x y

-- More fuel than the first number needs makes no difference.
one_more : (fuel x y : ℕ) → x ≤ fuel → sum_digits (suc fuel) x y ≡ sum_digits fuel x y
one_more zero x y small = let none_left : x ≡ 0 = omega arith in rw none_left refl
one_more (suc fuel) zero y small = refl
one_more (suc fuel) (suc x) y small = omega (arith, one_more fuel (suc x / 2) (y / 2) (omega arith))

some_more : (extra x y : ℕ) → sum_digits (extra + x) x y ≡ sum_digits x x y
some_more zero x y = let same : 0 + x ≡ x = omega arith in rw same refl
some_more (suc extra) x y =
    let next : suc extra + x ≡ suc (extra + x) = omega arith in
    rw next (one_more (extra + x) x y (omega arith) ∙ some_more extra x y)

enough : (fuel x y : ℕ) → x ≤ fuel → sum_digits fuel x y ≡ sum_digits x x y
enough fuel x y small =
    let split : fuel ≡ fuel - x + x = omega arith in
    ap (λ (t : ℕ). sum_digits t x y) split ∙ some_more (fuel - x) x y

pub zero-bit_xor : (b : ℕ) → bit_xor 0 b ≡ b
zero-bit_xor b = bit_xor-bitwise 0 b

digit_sum : (x y : ℕ) → x < 2 → y < 2 → differ x y ≡ (x + y) % 2
digit_sum zero zero small small' = refl
digit_sum zero (suc zero) small small' = refl
digit_sum (suc zero) zero small small' = refl
digit_sum (suc zero) (suc zero) small small' = refl
digit_sum (suc (suc x)) y small small' = absurd (omega arith)
digit_sum zero (suc (suc y)) small small' = absurd (omega arith)
digit_sum (suc zero) (suc (suc y)) small small' = absurd (omega arith)

-- The lowest digit is the sum of the two lowest, without carry.
pub bit_xor_step : (a b : ℕ) → bit_xor a b ≡ bit_xor (a / 2) (b / 2) * 2 + (a % 2 + b % 2) % 2
bit_xor_step zero b = omega (arith, zero-bit_xor b, zero-bit_xor (b / 2))
bit_xor_step (suc a) b =
    let half = suc a / 2 in
    let low = digit_sum (suc a % 2) (b % 2) (omega arith) (omega arith) in
    let above = enough a half (b / 2) (omega arith) in
    omega (arith, low, above, bit_xor-bitwise half (b / 2), bit_xor-bitwise (suc a) b)

-- Each law is proved for numbers up to a bound, which falls as the digits are taken off.
bit_xor-zero_upto : (bound x : ℕ) → x ≤ bound → bit_xor x 0 ≡ x
bit_xor-zero_upto bound zero small = zero-bit_xor 0
bit_xor-zero_upto zero (suc x) small = absurd (omega arith)
bit_xor-zero_upto (suc bound) (suc x) small =
    let above = bit_xor-zero_upto bound (suc x / 2) (omega arith) in
    omega (arith, above, bit_xor_step (suc x) 0)

pub bit_xor-zero : (a : ℕ) → bit_xor a 0 ≡ a
bit_xor-zero a = bit_xor-zero_upto a a (le_refl a)

bit_xor_self_upto : (n a : ℕ) → a ≤ n → bit_xor a a ≡ 0
bit_xor_self_upto n zero h = zero-bit_xor 0
bit_xor_self_upto zero (suc a) h = absurd (omega arith)
bit_xor_self_upto (suc n) (suc a) h =
    omega (arith, bit_xor_step (suc a) (suc a), bit_xor_self_upto n (suc a / 2) (omega arith))

pub bit_xor_self : (a : ℕ) → bit_xor a a ≡ 0
bit_xor_self a = bit_xor_self_upto a a (le_refl a)

bit_xor_comm_upto : (n a b : ℕ) → a ≤ n → bit_xor a b ≡ bit_xor b a
bit_xor_comm_upto n zero b h = omega (arith, zero-bit_xor b, bit_xor-zero b)
bit_xor_comm_upto zero (suc a) b h = absurd (omega arith)
bit_xor_comm_upto (suc n) (suc a) b h = omega (
  arith,
  bit_xor_step (suc a) b,
  bit_xor_step b (suc a),
  bit_xor_comm_upto n (suc a / 2) (b / 2) (omega arith),
)

pub bit_xor_comm : (a b : ℕ) → bit_xor a b ≡ bit_xor b a
bit_xor_comm a b = bit_xor_comm_upto a a b (le_refl a)

-- The digits of an exclusive or, in the form in which the next lemmas use the step.
bit_xor-half : (a b : ℕ) → bit_xor a b / 2 ≡ bit_xor (a / 2) (b / 2)
bit_xor-half a b = omega (arith, bit_xor_step a b)

bit_xor-low : (a b : ℕ) → bit_xor a b % 2 ≡ (a % 2 + b % 2) % 2
bit_xor-low a b = omega (arith, bit_xor_step a b)

bit_xor_assoc_upto : (n a b c : ℕ) → a ≤ n → bit_xor (bit_xor a b) c ≡ bit_xor a (bit_xor b c)
bit_xor_assoc_upto n zero b c h = simp zero-bit_xor
bit_xor_assoc_upto zero (suc a) b c h = absurd (omega arith)
bit_xor_assoc_upto (suc n) (suc a) b c h =
    rw
      (
        bit_xor_step (bit_xor (suc a) b) c,
        bit_xor_step (suc a) (bit_xor b c),
        bit_xor-half (suc a) b,
        bit_xor-half b c,
        bit_xor-low (suc a) b,
        bit_xor-low b c,
      )
      (omega (arith, bit_xor_assoc_upto n (suc a / 2) (b / 2) (c / 2) (omega arith)))

pub bit_xor_assoc : (a b c : ℕ) → bit_xor (bit_xor a b) c ≡ bit_xor a (bit_xor b c)
bit_xor_assoc a b c = bit_xor_assoc_upto a a b c (le_refl a)

pub bit_xor_cancel : (a b : ℕ) → bit_xor a (bit_xor a b) ≡ b
bit_xor_cancel a b = simp (← bit_xor_assoc, bit_xor_self, zero-bit_xor)

pub bit_xor-lt : (k a b : ℕ) → a < 2 ^ k → b < 2 ^ k → bit_xor a b < 2 ^ k
bit_xor-lt zero a b p q =
    let a0 : a ≡ 0 = omega arith in let b0 : b ≡ 0 = omega arith in rw (a0, b0) (omega arith)
bit_xor-lt (suc k) a b p q = omega (
  arith,
  pow-suc 2 k,
  bit_xor_step a b,
  bit_xor-lt k (a / 2) (b / 2) (omega (arith, pow-suc 2 k)) (omega (arith, pow-suc 2 k)),
)

-- The triangle inequality of the exclusive or, as a bound by the sum.
bit_xor-le_upto : (n a b : ℕ) → a ≤ n → bit_xor a b ≤ a + b
bit_xor-le_upto n zero b h = omega (arith, zero-bit_xor b)
bit_xor-le_upto zero (suc a) b h = absurd (omega arith)
bit_xor-le_upto (suc n) (suc a) b h =
    omega (arith, bit_xor_step (suc a) b, bit_xor-le_upto n (suc a / 2) (b / 2) (omega arith))

pub bit_xor-le : (a b : ℕ) → bit_xor a b ≤ a + b
bit_xor-le a b = bit_xor-le_upto a a b (le_refl a)

double_power : (c e : ℕ) → c * 2 ^ suc e ≡ 2 * (c * 2 ^ e)
double_power c e = omega (arith, ap (λ (power : ℕ). c * power) (pow-suc 2 e))

-- The exclusive or acts on the fields above and below any digit by themselves.
pub bit_xor_fields :
    (k a b r s : ℕ)
    → r < 2 ^ k
    → s < 2 ^ k
    → bit_xor (a * 2 ^ k + r) (b * 2 ^ k + s) ≡ bit_xor a b * 2 ^ k + bit_xor r s
bit_xor_fields zero a b r s p q =
    let r0 : r ≡ 0 = omega arith in
    let s0 : s ≡ 0 = omega arith in
    let ea : a * 1 + 0 ≡ a = omega arith in
    let eb : b * 1 + 0 ≡ b = omega arith in rw (r0, s0, ea, eb) (omega arith)
bit_xor_fields (suc k) a b r s p q =
    let ea : (a * 2 ^ suc k + r) / 2 ≡ a * 2 ^ k + r / 2 = omega (arith, double_power a k) in
    let eb : (b * 2 ^ suc k + s) / 2 ≡ b * 2 ^ k + s / 2 = omega (arith, double_power b k) in
    rw (bit_xor_step (a * 2 ^ suc k + r) (b * 2 ^ suc k + s), ea, eb)
      (omega (
        arith,
        double_power a k,
        double_power b k,
        double_power (bit_xor a b) k,
        bit_xor_step r s,
        bit_xor_fields k a b (r / 2) (s / 2) (omega (arith, pow-suc 2 k))
            (omega (arith, pow-suc 2 k)),
      ))

-- The exclusive or of numbers cut after the same digit.
pub bit_xor-div : (k a b : ℕ) → bit_xor a b / 2 ^ k ≡ bit_xor (a / 2 ^ k) (b / 2 ^ k)
bit_xor-div k a b =
    let pos : 0 < 2 ^ k = one-le-pow k 2 (omega arith) in
    let low : bit_xor (a % 2 ^ k) (b % 2 ^ k) < 2 ^ k =
      bit_xor-lt k _ _ (mod-lt a pos) (mod-lt b pos) in
    let split : bit_xor a b
        ≡ bit_xor (a / 2 ^ k) (b / 2 ^ k) * 2 ^ k + bit_xor (a % 2 ^ k) (b % 2 ^ k) =
      simp div-add-mod' at (
        bit_xor_fields k (a / 2 ^ k) (b / 2 ^ k) (a % 2 ^ k) (b % 2 ^ k) (mod-lt a pos)
          (mod-lt b pos)) in
    ap (λ (t : ℕ). t / 2 ^ k) split
    ∙ mul-add-div_right pos (bit_xor (a / 2 ^ k) (b / 2 ^ k)) _
    ∙ omega (arith, div-eq_of_lt low)

-- `a ^ b` is 0 only for equal numbers.
pub eq_of_bit_xor : (a b : ℕ) → bit_xor a b ≡ 0 → a ≡ b
eq_of_bit_xor a b e = sym (bit_xor-zero a) ∙ ap (bit_xor a) (sym e) ∙ bit_xor_cancel a b

pub pow-add : (m a b : ℕ) → m ^ (a + b) ≡ m ^ a * m ^ b
pow-add m a zero = let e : a + 0 ≡ a = omega arith in rw (e, pow-zero m) (omega arith)
pow-add m a (suc b) =
    let e : a + suc b ≡ suc (a + b) = omega arith in
    rw e (
      omega (
        arith,
        pow-suc m (a + b),
        ap (λ (t : ℕ). m ^ a * t) (pow-suc m b),
        ap (λ (t : ℕ). t * m) (pow-add m a b),
      ))

pub pow-eight : (n : ℕ) → 256 ^ n ≡ 2 ^ (8 * n)
pow-eight zero = refl
pow-eight (suc n) =
    let e : 8 * suc n ≡ suc (suc (suc (suc (suc (suc (suc (suc (8 * n)))))))) = omega arith in
    rw e (simp pow-suc (omega (arith, pow-eight n)))
