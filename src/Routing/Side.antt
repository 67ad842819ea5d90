-- ===== src/Routing/Side.antt =====
-- Contacts and the children of a node: one in a child is under the node, and of two in different
-- children the one on the side of an id is closer to it.
use kad.Common.{ℕ, suc, ◌+◌, ◌-◌, ◌*◌, ◌/◌, ◌%◌, ◌^◌, ◌<◌, ◌≡◌, sym, ap, ap₂, ◌∙◌, arith}
use kad.Common.{bit_xor}
use native.Mathlib.Nat.{pow-suc, div-div-eq-div-mul, div-lt_iff_lt-mul, div-mul-le_self}
use kad.Common.{one-le-pow}
use kad.Common.Bits.{bit_xor-div, bit_xor_step, bit_xor_cancel, bit_xor_assoc, bit_xor_comm}
use kad.Config.{id_bits, id_size}
use kad.NodeId.{KadId, xor, get_bit}
use kad.NodeId.Value.{IsId, value}
use kad.NodeId.Metric.{value-xor, xor-IsId}
use kad.NodeId.Byte.{bit_value}
use kad.NodeId.Bit.{get_bit-value}
use kad.Routing.Place.{Under}

pub Under-parent :
    (local : KadId) (d i b : ℕ) (r : KadId)
    → d < id_bits
    → b < 2
    → Under local (d + 1) (i * 2 + b) r
    → Under local d i r
Under-parent local d i b r h small (w, e) =
    let k = id_bits - (d + 1) in
    let x = value (xor local r) in
    let here : id_bits - d ≡ suc k = omega arith in
    (
      w,
      ap (λ (t : ℕ). x / 2 ^ t) here
          ∙ ap (λ (t : ℕ). x / t) (pow-suc 2 k)
          ∙ sym (div-div-eq-div-mul x (2 ^ k) 2)
          ∙ ap (λ (t : ℕ). t / 2) e
          ∙ omega arith,
    )

-- Of two contacts under the two children of a node, the one in the child that `Closest` picks for
-- `id` is closer to it.
module _ (local id : KadId) (l : IsId id_size local) (v : IsId id_size id) (d i : ℕ)
    (h : d < id_bits) where
  xor_through :
      (r : KadId)
      → IsId id_size r
      → value (xor id r) ≡ bit_xor (value (xor local id)) (value (xor local r))
  xor_through r w =
      let a = value local in
      let b = value id in
      let c = value r in
      value-xor id_size id r v w
      ∙ ap (bit_xor b) (sym (bit_xor_cancel a c))
      ∙ sym (bit_xor_assoc b a (bit_xor a c))
      ∙ ap (λ (t : ℕ). bit_xor t (bit_xor a c)) (bit_xor_comm b a)
      ∙ ap₂ bit_xor (sym (value-xor id_size local id l v)) (sym (value-xor id_size local r l w))

  -- The distance of a contact under a child, without the digits below.
  distance_above :
      (r : KadId) (b : ℕ)
      → b < 2
      → Under local (d + 1) (i * 2 + b) r
      → value (xor id r) / 2 ^ (id_bits - 1 - d)
        ≡ bit_xor (value (xor local id) / 2 ^ (id_bits - 1 - d) / 2) i * 2
          + (bit_value (get_bit (xor local id) d) + b) % 2
  distance_above r b small (w, e) =
      let k = id_bits - 1 - d in
      let x = value (xor local id) / 2 ^ k in
      let digit = get_bit-value id_size (xor local id) d (xor-IsId id_size local id l v) h in
      let child : id_bits - (d + 1) ≡ k = omega arith in
      let e' : value (xor local r) / 2 ^ k ≡ i * 2 + b =
        ap (λ (t : ℕ). value (xor local r) / 2 ^ t) (sym child) ∙ e in
      let half : (i * 2 + b) / 2 ≡ i = omega arith in
      let odd : (x % 2 + (i * 2 + b) % 2) % 2 ≡ (bit_value (get_bit (xor local id) d) + b) % 2 =
        omega (arith, digit) in
      ap (λ (t : ℕ). t / 2 ^ k) (xor_through r w)
      ∙ bit_xor-div k (value (xor local id)) (value (xor local r))
      ∙ ap (bit_xor x) e'
      ∙ bit_xor_step x (i * 2 + b)
      ∙ ap₂ (λ (t u : ℕ). bit_xor (x / 2) t * 2 + u) half odd

  below : (x y p : ℕ) → 0 < p → x / p < y / p → x < y
  below x y p pos less =
      omega (arith, (div-lt_iff_lt-mul {x = x} {y = y / p} pos).0 less, div-mul-le_self y p)

  pub near_child :
      (r y : KadId)
      → (b : ℕ) → b < 2
      → bit_value (get_bit (xor local id) d) ≡ b
      → Under local (d + 1) (i * 2 + b) r
      → Under local (d + 1) (i * 2 + (1 - b)) y
      → value (xor id r) < value (xor id y)
  near_child r y b small digit u w =
      below _ _ (2 ^ (id_bits - 1 - d)) (one-le-pow (id_bits - 1 - d) 2 (omega arith))
        (omega (arith, digit, distance_above r b small u, distance_above y (1 - b) (omega arith) w))
