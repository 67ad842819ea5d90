-- ===== src/NodeId/Metric.antt =====
-- `^` and `Closer`: the exclusive or of ids as a distance between the numbers they stand for.
use kad.Common.{ℕ, suc, ◌+◌, ◌*◌, ◌^◌, ◌≤◌, ◌<◌, ◌≡◌, refl, sym, arith}
use kad.Common.{[], ◌∷◌, length, ap, ap₂, ◌↔◌, ◌∙◌, ◌≢◌, ◌⊎◌, true, false, bit_xor}
use kad.Common.Bits.{bit_xor_fields, bit_xor-lt, bit_xor_comm, bit_xor_self, bit_xor-le}
use kad.Common.Bits.{bit_xor_assoc, bit_xor_cancel, pow-eight, eq_of_bit_xor}
use kad.NodeId.{KadId, xor, closer}
use kad.NodeId.Value.{AllBytes, IsId, value, value-lt, id_of_value, id_lt_iff}

pub length-xor : (a b : KadId) → length a ≡ length b → length (xor a b) ≡ length a
unfolding xor
length-xor [] b e = refl
length-xor (x ∷ xs) [] e = absurd (omega arith)
length-xor (x ∷ xs) (y ∷ ys) e = ap suc (length-xor xs ys (omega arith))

pub AllBytes-xor : (a b : KadId) → AllBytes a → AllBytes b → AllBytes (xor a b)
unfolding xor
AllBytes-xor [] b p q = tt
AllBytes-xor (x ∷ xs) [] p q = tt
AllBytes-xor (x ∷ xs) (y ∷ ys) p q = (bit_xor-lt 8 x y p.0 q.0, AllBytes-xor xs ys p.1 q.1)

pub xor-IsId : (n : ℕ) (a b : KadId) → IsId n a → IsId n b → IsId n (xor a b)
xor-IsId n a b p q = record {
  size = length-xor a b (p.size ∙ sym q.size) ∙ p.size;
  bytes = AllBytes-xor a b p.bytes q.bytes;
}

value-bytewise :
    (a b : KadId)
    → length a ≡ length b
    → AllBytes a
    → AllBytes b
    → value (xor a b) ≡ bit_xor (value a) (value b)
unfolding xor
value-bytewise [] [] e p q = refl
value-bytewise [] (y ∷ ys) e p q = absurd (omega arith)
value-bytewise (x ∷ xs) [] e p q = absurd (omega arith)
value-bytewise (x ∷ xs) (y ∷ ys) e p q =
    let l : length xs ≡ length ys = omega arith in
    let low : value xs < 2 ^ (8 * length xs) = rw (pow-eight (length xs)) at (value-lt xs p.1) in
    let low' : value ys < 2 ^ (8 * length xs) =
      rw (← l, pow-eight (length xs)) at (value-lt ys q.1) in
    rw (length-xor xs ys l, ← l, value-bytewise xs ys l p.1 q.1, pow-eight (length xs))
      (sym (bit_xor_fields (8 * length xs) x y (value xs) (value ys) low low'))

-- For ids of n bytes `a ^ b` stands for the exclusive or of the two numbers.
pub value-xor :
    (n : ℕ) (a b : KadId) → IsId n a → IsId n b → value (xor a b) ≡ bit_xor (value a) (value b)
value-xor n a b p q = value-bytewise a b (p.size ∙ sym q.size) p.bytes q.bytes

-- For ids of n bytes the distance is 0 just if they are equal.
pub distance_zero_iff :
    (n : ℕ) (a b : KadId) → IsId n a → IsId n b → (value (xor a b) ≡ 0) ↔ (a ≡ b)
distance_zero_iff n a b p q = (
  λ e. id_of_value n a b p q (eq_of_bit_xor (value a) (value b) (sym (value-xor n a b p q) ∙ e)),
  λ e. value-xor n a b p q ∙ ap (bit_xor (value a)) (ap value (sym e)) ∙ bit_xor_self (value a),
)

pub xor_comm : (a b : KadId) → xor a b ≡ xor b a
unfolding xor
xor_comm [] [] = refl
xor_comm [] (y ∷ ys) = refl
xor_comm (x ∷ xs) [] = refl
xor_comm (x ∷ xs) (y ∷ ys) = ap₂ ◌∷◌ (bit_xor_comm x y) (xor_comm xs ys)

-- For ids of n bytes `a ^ (a ^ b)` is `b`.
pub xor_cancel : (n : ℕ) (a b : KadId) → IsId n a → IsId n b → xor a (xor a b) ≡ b
xor_cancel n a b p q =
    let r = xor-IsId n a b p q in
    id_of_value n (xor a (xor a b)) b (xor-IsId n a (xor a b) p r) q (
      value-xor n a (xor a b) p r
      ∙ ap (bit_xor (value a)) (value-xor n a b p q)
      ∙ bit_xor_cancel (value a) (value b))

-- For ids of n bytes the distance, the number of `a ^ c`, is at most the sum of those of `a ^ b`
-- and `b ^ c`.
pub distance_triangle :
    (n : ℕ) (a b c : KadId)
    → IsId n a
    → IsId n b
    → IsId n c
    → value (xor a c) ≤ value (xor a b) + value (xor b c)
distance_triangle n a b c p q r =
    let x = value a in
    let y = value b in
    let z = value c in
    let through : bit_xor (bit_xor x y) (bit_xor y z) ≡ bit_xor x z =
      bit_xor_assoc x y (bit_xor y z) ∙ ap (bit_xor x) (bit_xor_cancel y z) in
    rw (value-xor n a c p r, value-xor n a b p q, value-xor n b c q r)
      (omega (arith, through, bit_xor-le (bit_xor x y) (bit_xor y z)))

-- For ids of n bytes `Closer(to, than)` holds just if the distance to `to` is less than that to
-- `than`.
pub closer_iff :
    (n : ℕ) (id to than : KadId)
    → IsId n id
    → IsId n to
    → IsId n than
    → (closer id to than ≡ true) ↔ (value (xor id to) < value (xor id than))
unfolding closer
closer_iff n id to than p q r =
    id_lt_iff n (xor id to) (xor id than) (xor-IsId n id to p q) (xor-IsId n id than p r)

-- For ids of n bytes exactly one of two different ids is closer to a third.
pub closer_total :
    (n : ℕ) (id a b : KadId)
    → IsId n id
    → IsId n a
    → IsId n b
    → a ≢ b
    → ((closer id a b ≡ true) × (closer id b a ≡ false))
      ⊎ ((closer id a b ≡ false) × (closer id b a ≡ true))
closer_total n id a b p q r ne = ground (
  arith,
  closer_iff n id a b p q r,
  closer_iff n id b a p r q,
  λ (e : value (xor id a) ≡ value (xor id b)). ne (
      sym (xor_cancel n id a p q)
      ∙ ap (xor id)
          (id_of_value n (xor id a) (xor id b) (xor-IsId n id a p q) (xor-IsId n id b p r) e)
      ∙ xor_cancel n id b p r),
)
