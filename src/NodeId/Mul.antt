-- ===== src/NodeId/Mul.antt =====
-- `Mul` of src/KadNodeId.h: long multiplication in a matrix of 2 * SIZE + 1 rows of 2 * SIZE bytes. A cell
-- is addressed by its place in the memory of the matrix, and a write before it is `none`. `carry` is an
-- `int16_t`, kept as its 16 bits.
use kad.Common.{
  ℕ, zero, suc, ◌+◌, ◌-◌, ◌*◌, ◌/◌, ◌%◌, ◌^◌, ◌≤◌, ◌≡◌, refl, subst, arith, true, false, Option,
  none, some, ◌||◌,
}
use kad.Common.{
  List, length, get_or, set, take, drop, replicate, ltb, leb, if◌then◌else◌, Option-cases, inl, inr,
}
use kad.NodeId.{KadId, u8, u16}

-- The byte that is stored for `carry`, and the carry that is left; a negative one is less than 0x100.
abbrev pub store_carry : ℕ → ℕ × ℕ
store_carry carry =
    if ltb carry 256 || leb (2 ^ 15) carry then (u8 carry, 0) else (carry % 256, carry / 256)

-- A row of products, over the columns below `j`, for byte `x` at `i` of the first factor.
unfoldable pub product_row : ℕ → ℕ → ℕ → ℕ → KadId → ℕ → List ℕ → Option (ℕ × List ℕ)
product_row zero n i x b carry mat = some (carry, mat)
product_row (suc j) n i x b carry mat =
    let c = store_carry (u16 (carry + x * get_or b j 0)) in
    let rest = product_row j n i x b c.1 (set mat (i * (2 * n) + j - (n - 1 - i)) c.0) in
    if ltb (i * (2 * n) + j) (n - 1 - i) then none else rest

-- The rows below `i`.
unfoldable pub product_rows : ℕ → ℕ → KadId → KadId → ℕ → List ℕ → Option (ℕ × List ℕ)
product_rows zero n a b carry mat = some (carry, mat)
product_rows (suc i) n a b carry mat = elim (product_row n n i (get_or a i 0) b carry mat) [
  | none ↦ none
  | some (carry', mat') ↦ product_rows i n a b carry' mat'
]

-- The sum of row `i` and the row above it.
unfoldable pub sum_row : ℕ → ℕ → ℕ → ℕ → List ℕ → ℕ × List ℕ
sum_row zero n i carry mat = (carry, mat)
sum_row (suc j) n i carry mat =
    let above = get_or mat ((i - 1) * (2 * n) + j) 0 in
    let c = store_carry (u16 (carry + get_or mat (i * (2 * n) + j) 0 + above)) in
    sum_row j n i c.1 (set mat (i * (2 * n) + j) c.0)

-- `left` rows from row `i` on.
unfoldable pub sum_rows : ℕ → ℕ → ℕ → ℕ → List ℕ → List ℕ
sum_rows zero n i carry mat = mat
sum_rows (suc left) n i carry mat =
    let (carry', mat') = sum_row n n i carry mat in sum_rows left n (i + 1) carry' mat'

unfoldable pub mul : KadId → KadId → Option KadId
mul a b =
    let n = length a in
    elim (product_rows n n a b 0 (replicate ((2 * n + 1) * (2 * n)) 0)) [
      | none ↦ none
      | some (carry, mat) ↦ some (take n (drop (n * (2 * n)) (sum_rows n n 1 carry mat)))
    ]

-- In the first row the last column but one lies before the matrix.
first_row_none :
    (n x : ℕ) (b : KadId) (carry : ℕ) (mat : List ℕ)
    → 2 ≤ n
    → product_row n n 0 x b carry mat ≡ none
unfolding product_row
first_row_none zero x b carry mat h = absurd (omega arith)
first_row_none (suc zero) x b carry mat h = absurd (omega arith)
first_row_none (suc (suc n)) x b carry mat h =
    let inside : ltb (0 * (2 * suc (suc n)) + suc n) (suc (suc n) - 1 - 0) ≡ false = ground arith in
    let outside : ltb (0 * (2 * suc (suc n)) + n) (suc (suc n) - 1 - 0) ≡ true = ground arith in
    rw (inside, outside) refl

rows_none :
    (i n : ℕ) (a b : KadId) (carry : ℕ) (mat : List ℕ)
    → 2 ≤ n
    → product_rows (suc i) n a b carry mat ≡ none
unfolding product_rows
rows_none zero n a b carry mat h =
    rw (first_row_none n (get_or a 0 0) b carry mat h, product_rows) refl
rows_none (suc i) n a b carry mat h =
    elim (Option-cases (product_row n n (suc i) (get_or a (suc i) 0) b carry mat)) [
      | inl e ↦ rw (e, product_rows) refl
      | inr (s, e) ↦ rw (e, product_rows) (rows_none i n a b s.0 s.1 h)
    ]

-- For a first factor of two bytes or more `Mul` writes a product before the first cell of its
-- matrix, whatever the second factor.
pub mul_outside : (a b : KadId) → 2 ≤ length a → mul a b ≡ none
unfolding mul
mul_outside a b h =
    let n = length a in
    let one : suc (n - 1) ≡ n = omega arith in
    let outside : product_rows n n a b 0 (replicate ((2 * n + 1) * (2 * n)) 0) ≡ none =
      subst (λ (k : ℕ). product_rows k n a b 0 (replicate ((2 * n + 1) * (2 * n)) 0) ≡ none) one
        (rows_none (n - 1) n a b 0 (replicate ((2 * n + 1) * (2 * n)) 0) h) in
    rw (outside, mul) refl
