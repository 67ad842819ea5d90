-- ===== src/NodeId/Value.antt =====
-- The number that an id stands for, and the comparisons of `TKadId` as comparisons of numbers.
use native.Mathlib.Nat.{mul-le-mul_right}
use kad.Common.{sym, ◌∙◌, ℕ, ◌+◌, ◌*◌, ◌^◌, ◌<◌, ◌≡◌, refl, arith, compare}
use kad.Common.{[], ◌∷◌, length, pow-suc, ap, ap₂, subst, ◌↔◌, true}
use kad.NodeId.{KadId, memcmp, id_eq, id_lt}

abbrev pub AllBytes : KadId → Type 0
AllBytes [] = Unit {0}
AllBytes (b ∷ bs) = (b < 256) × AllBytes bs

-- An id of `n` bytes.
pub record IsId (n : ℕ) (d : KadId) : Type 0 where
  pub size : length d ≡ n
  pub bytes : AllBytes d

abbrev pub value : KadId → ℕ
value [] = 0
value (b ∷ bs) = b * 256 ^ length bs + value bs

pub value-lt : (d : KadId) → AllBytes d → value d < 256 ^ length d
value-lt [] h = omega arith
value-lt (b ∷ bs) h =
    omega (arith, pow-suc 256 (length bs), value-lt bs h.1, mul-le-mul_right (256 ^ length bs) h.0)

-- The higher digit decides.
lt_of_digit : (m x y r s : ℕ) → r < m → x < y → x * m + r < y * m + s
lt_of_digit m x y r s h k = omega (arith, mul-le-mul_right m k)

digit_eq : (m x y r s : ℕ) → r < m → s < m → x * m + r ≡ y * m + s → x ≡ y
digit_eq m x y r s h k e = ground (arith, lt_of_digit m x y r s h, lt_of_digit m y x s r k)

-- `memcmp` compares the numbers.
pub memcmp-compare :
    (a b : KadId)
    → length a ≡ length b
    → AllBytes a
    → AllBytes b
    → memcmp a b ≡ compare (value a) (value b)
unfolding memcmp
memcmp-compare [] [] e p q = refl
memcmp-compare [] (y ∷ ys) e p q = absurd (omega arith)
memcmp-compare (x ∷ xs) [] e p q = absurd (omega arith)
memcmp-compare (x ∷ xs) (y ∷ ys) e p q =
    let l : length xs ≡ length ys = omega arith in
    let m = 256 ^ length ys in
    let below : value xs < m = subst (λ (t : ℕ). value xs < 256 ^ t) l (value-lt xs p.1) in
    rw l (
      ground (
        arith,
        memcmp-compare xs ys l p.1 q.1,
        lt_of_digit m x y (value xs) (value ys) below,
        lt_of_digit m y x (value ys) (value xs) (value-lt ys q.1),
      ))

-- Ids of one size with the same number are the same id.
pub value_injective :
    (a b : KadId) → length a ≡ length b → AllBytes a → AllBytes b → value a ≡ value b → a ≡ b
value_injective [] [] e p q v = refl
value_injective [] (y ∷ ys) e p q v = absurd (omega arith)
value_injective (x ∷ xs) [] e p q v = absurd (omega arith)
value_injective (x ∷ xs) (y ∷ ys) e p q v =
    let l : length xs ≡ length ys = omega arith in
    let m = 256 ^ length ys in
    let below : value xs < m = subst (λ (t : ℕ). value xs < 256 ^ t) l (value-lt xs p.1) in
    let v' : x * m + value xs ≡ y * m + value ys =
      subst (λ (t : ℕ). x * 256 ^ t + value xs ≡ y * 256 ^ length ys + value ys) l v in
    let head : x ≡ y = digit_eq m x y (value xs) (value ys) below (value-lt ys q.1) v' in
    let tail : value xs ≡ value ys = omega (arith, ap (λ (t : ℕ). t * m) head) in
    ap₂ ◌∷◌ head (value_injective xs ys l p.1 q.1 tail)

-- `operator ==` is equality of ids.
pub id_eq_iff : (n : ℕ) (a b : KadId) → IsId n a → IsId n b → (id_eq a b ≡ true) ↔ (a ≡ b)
unfolding id_eq
id_eq_iff n a b p q =
    let l : length a ≡ length b = omega arith in
    ground (
      arith,
      memcmp-compare a b l p.bytes q.bytes,
      value_injective a b l p.bytes q.bytes,
      λ (e : a ≡ b). ap value e,
    )

-- For ids of n bytes `operator <` is the order of the numbers.
pub id_lt_iff :
    (n : ℕ) (a b : KadId) → IsId n a → IsId n b → (id_lt a b ≡ true) ↔ (value a < value b)
unfolding id_lt
id_lt_iff n a b p q =
    let l : length a ≡ length b = omega arith in
    ground (arith, memcmp-compare a b l p.bytes q.bytes)

-- Ids of one size are equal if their numbers are.
pub id_of_value : (n : ℕ) (a b : KadId) → IsId n a → IsId n b → value a ≡ value b → a ≡ b
id_of_value n a b p q = value_injective a b (p.size ∙ sym q.size) p.bytes q.bytes

pub value_bound : (n : ℕ) (d : KadId) → IsId n d → value d < 256 ^ n
value_bound n d p = subst (λ (t : ℕ). value d < 256 ^ t) p.size (value-lt d p.bytes)
