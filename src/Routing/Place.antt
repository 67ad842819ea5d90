-- ===== src/Routing/Place.antt =====
-- `mDepth` and `mIndex`: the node at depth d and index i is for the ids whose distance to the local
-- id begins with the d binary digits of i. Which indices exist, and which may split.
use kad.Common.{ℕ, zero, suc, ◌+◌, ◌-◌, ◌*◌, ◌/◌, ◌%◌, ◌^◌, ◌≤◌, ◌<◌, ◌≡◌, sym, ap, ◌∙◌, arith}
use kad.Common.{true, if◌then◌else◌, pow-suc, inl, inr, Bool-cases}
use native.Mathlib.Nat.{div-div-eq-div-mul}
use kad.Config.{id_bits, id_size, log_base}
use kad.NodeId.{KadId, xor, get_bit, id_lt, from_num, power_of_two}
use kad.NodeId.Value.{IsId, value, id_lt_iff}
use kad.NodeId.Metric.{xor-IsId}
use kad.NodeId.Bit.{get_bit-value}
use kad.NodeId.Number.{from_num-IsId, power_of_two-IsId, value-from_num, value-power_of_two}
use kad.Routing.{may_split, low_index, high_index}

-- The id of a contact, under a node.
abbrev pub Under : KadId → ℕ → ℕ → KadId → Type 0
Under local d i id = IsId id_size id × (value (xor local id) / 2 ^ (id_bits - d) ≡ i)

-- The indices that the splits of a table can reach: they stay below 8, so that 32 bits hold them.
pub record IsPlace (d i : ℕ) : Type 0 where
  pub deep : d < id_bits
  pub prefix : i < 2 ^ d
  pub small : i < 8

pub root-IsPlace : IsPlace 0 0
root-IsPlace = record { deep = omega arith; prefix = omega arith; small = omega arith }

-- `KadId(mIndex) < PowerOfTwo(mDepth % KADEMLIA_B)` compares numbers.
index_test :
    (d i : ℕ)
    → i < 8
    → id_lt (from_num id_size i) (power_of_two id_size (d % log_base)) ≡ true
    → i < 2 ^ (d % log_base)
index_test d i h t =
    let n = value-from_num id_size i (omega arith) in
    let p = value-power_of_two id_size (d % 2) (omega arith) in
    let lt =
      (id_lt_iff id_size _ _ (from_num-IsId id_size i) (power_of_two-IsId id_size (d % 2))).0 t in
    omega (arith, n, p, lt)

pow_below_three : (d : ℕ) → d < 3 → 2 ^ d ≤ 4
pow_below_three zero h = omega arith
pow_below_three (suc zero) h = omega arith
pow_below_three (suc (suc zero)) h = omega arith
pow_below_three (suc (suc (suc d))) h = absurd (omega arith)

pow_parity : (e : ℕ) → e < 2 → 2 ^ e ≤ 2
pow_parity zero h = omega arith
pow_parity (suc zero) h = omega arith
pow_parity (suc (suc e)) h = absurd (omega arith)

may_split-bounds : (d i : ℕ) → IsPlace d i → may_split d i ≡ true → (d < id_bits - 1) × (i < 4)
unfolding may_split
may_split-bounds d i p h =
    ground (arith, index_test d i p.small, pow_below_three d, pow_parity (d % 2) (omega arith))

-- The children of a node that may split are places again, at twice its index.
pub split-IsPlace :
    (d i : ℕ)
    → IsPlace d i
    → may_split d i ≡ true
    → (d < id_bits - 1)
      × IsPlace (d + 1) (i * 2)
      × IsPlace (d + 1) (i * 2 + 1)
      × (low_index i ≡ i * 2)
      × (high_index i ≡ i * 2 + 1)
split-IsPlace d i p h =
    let (deep, low) = may_split-bounds d i p h in
    let e : d + 1 ≡ suc d = omega arith in
    let twice : 2 ^ (d + 1) ≡ 2 ^ d * 2 = ap (λ (t : ℕ). 2 ^ t) e ∙ pow-suc 2 d in
    (
      deep,
      record { deep = omega arith; prefix = omega arith; small = omega arith },
      record { deep = omega arith; prefix = omega arith; small = omega arith },
      omega arith,
      omega arith,
    )

-- The child that `Closest` picks has the next digit of the distance.
pub Under-child :
    (local : KadId) (d i : ℕ) (id : KadId)
    → IsId id_size local
    → d < id_bits
    → Under local d i id
    → Under local (d + 1) (if get_bit (xor local id) d then i * 2 + 1 else i * 2) id
Under-child local d i id p h (v, e) =
    let k = id_bits - 1 - d in
    let x = value (xor local id) in
    let here : id_bits - d ≡ suc k = omega arith in
    let child : id_bits - (d + 1) ≡ k = omega arith in
    let digit = get_bit-value id_size (xor local id) d (xor-IsId id_size local id p v) h in
    let above : x / 2 ^ k / 2 ≡ i =
      div-div-eq-div-mul x (2 ^ k) 2
      ∙ ap (λ (t : ℕ). x / t) (sym (pow-suc 2 k))
      ∙ ap (λ (t : ℕ). x / 2 ^ t) (sym here)
      ∙ e in
    (
      v,
      ap (λ (t : ℕ). x / 2 ^ t) child ∙ elim (Bool-cases (get_bit (xor local id) d)) [
        | inl one ↦ rw one (omega (arith, rw one at digit))
        | inr nil ↦ rw nil (omega (arith, rw nil at digit))
      ],
    )
