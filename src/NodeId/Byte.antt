-- ===== src/NodeId/Byte.antt =====
-- The bit operations on one byte, by a table of all bytes and bits.
use kad.Common.{
  ℕ, zero, suc, ◌+◌, ◌-◌, ◌/◌, ◌%◌, ◌^◌, ◌≤◌, ◌<◌, ◌≡◌, refl, arith, Bool, true, false,
}
use kad.Common.{bit_or, subst, inl, inr, Bool-cases, ◌==◌, ==_iff, if◌then◌else◌}
use kad.NodeId.{test_byte, set_byte, swap_byte}

-- The test holds of `count` numbers from `start` on.
pub holds_from : ℕ → ℕ → (ℕ → Bool) → Bool
holds_from zero start test = true
holds_from (suc count) start test = if test start then holds_from count (suc start) test else false

pub holds_from_lem :
    (count start : ℕ) (test : ℕ → Bool)
    → holds_from count start test ≡ true
    → (k : ℕ) → start ≤ k
    → k < start + count
    → test k ≡ true
unfolding holds_from
holds_from_lem zero start test all k from to = absurd (omega arith)
holds_from_lem (suc count) start test all k from to = elim (Bool-cases (test start)) [
  | inl yes_here ↦ elim (Bool-cases (start == k)) [
    | inl same ↦ subst (λ (t : ℕ). test t ≡ true) ((==_iff start k).0 same) yes_here
    | inr other ↦
        holds_from_lem count (suc start) test (rw yes_here at all) k
          (ground (arith, ==_iff start k)) (omega arith)
  ]
  | inr no_here ↦ absurd (cc (rw no_here at all))
]

-- Every byte with every pair of its bits.
abbrev table : (ℕ → ℕ → ℕ → Bool) → Bool
table p = holds_from 256 0 (λ b. holds_from 8 0 (λ s. holds_from 8 0 (λ t. p b s t)))

table_sound :
    (p : ℕ → ℕ → ℕ → Bool) (b s t : ℕ) → table p ≡ true → b < 256 → s < 8 → t < 8 → p b s t ≡ true
table_sound p b s t h hb hs ht =
    let bytes = holds_from_lem 256 0 (λ b. holds_from 8 0 (λ s. holds_from 8 0 (λ t. p b s t))) h in
    let bits =
      holds_from_lem 8 0 (λ s. holds_from 8 0 (λ t. p b s t))
        (bytes b (omega arith) (omega arith)) in
    holds_from_lem 8 0 (λ t. p b s t) (bits s (omega arith) (omega arith)) t (omega arith)
      (omega arith)

abbrev pub bit_value : Bool → ℕ
bit_value true = 1
bit_value false = 0

-- What `test_byte` reads after a write.
abbrev set_reads : Bool → ℕ → ℕ → ℕ → Bool
set_reads val b s t =
    test_byte (set_byte b s val) t == (if s == t then bit_value val else test_byte b t)

set_table : (val : Bool) → table (set_reads val) ≡ true
unfolding holds_from
set_table true = refl
set_table false = refl

pub test_byte-set_byte :
    (val : Bool) (b s t : ℕ)
    → b < 256
    → s < 8
    → t < 8
    → test_byte (set_byte b s val) t ≡ (if s == t then bit_value val else test_byte b t)
test_byte-set_byte val b s t hb hs ht =
    (==_iff _ _).0 (table_sound (set_reads val) b s t (set_table val) hb hs ht)

abbrev pub bit_not : ℕ → ℕ
bit_not n = 1 - n

abbrev swap_reads : ℕ → ℕ → ℕ → Bool
swap_reads b s t =
    test_byte (swap_byte b s) t == (if s == t then bit_not (test_byte b t) else test_byte b t)

swap_table : table swap_reads ≡ true
unfolding holds_from
swap_table = refl

pub test_byte-swap_byte :
    (b s t : ℕ)
    → b < 256
    → s < 8
    → t < 8
    → test_byte (swap_byte b s) t ≡ (if s == t then bit_not (test_byte b t) else test_byte b t)
test_byte-swap_byte b s t hb hs ht =
    (==_iff _ _).0 (table_sound swap_reads b s t swap_table hb hs ht)

abbrev digit_reads : ℕ → ℕ → ℕ → Bool
digit_reads b s t = test_byte b s == b / 2 ^ s % 2

digit_table : table digit_reads ≡ true
unfolding holds_from
digit_table = refl

pub test_byte_lem : (b s : ℕ) → b < 256 → s < 8 → test_byte b s ≡ b / 2 ^ s % 2
test_byte_lem b s hb hs =
    (==_iff _ _).0 (table_sound digit_reads b s 0 digit_table hb hs (omega arith))

abbrev raised_zero : ℕ → ℕ → ℕ → Bool
raised_zero b s t = set_byte 0 s true == 2 ^ s

raised_table : table raised_zero ≡ true
unfolding holds_from
raised_table = refl

pub set_byte-zero : (s : ℕ) → s < 8 → set_byte 0 s true ≡ 2 ^ s
set_byte-zero s hs =
    (==_iff _ _).0 (table_sound raised_zero 0 s 0 raised_table (omega arith) hs (omega arith))

pub set_byte-lt : (b s : ℕ) (val : Bool) → set_byte b s val < 256
set_byte-lt b s true = omega arith
set_byte-lt b s false = omega arith

pub swap_byte-lt : (b s : ℕ) → swap_byte b s < 256
swap_byte-lt b s = ground arith

abbrev joined_byte : ℕ → ℕ → ℕ → Bool
joined_byte b s t =
    if bit_or b 0 == b then bit_or b (set_byte 0 s true) == set_byte b s true else false

joined_table : table joined_byte ≡ true
unfolding holds_from
joined_table = refl

pub bit_or-set_byte :
    (b s : ℕ)
    → b < 256
    → s < 8
    → (bit_or b 0 ≡ b) × (bit_or b (set_byte 0 s true) ≡ set_byte b s true)
bit_or-set_byte b s hb hs =
    let h = table_sound joined_byte b s 0 joined_table hb hs (omega arith) in
    joined_lem (bit_or b 0) b (bit_or b (set_byte 0 s true)) (set_byte b s true) h
  where
    joined_lem : (x y z w : ℕ) → (if x == y then z == w else false) ≡ true → (x ≡ y) × (z ≡ w)
    joined_lem x y z w h = (ground arith, ground arith)
