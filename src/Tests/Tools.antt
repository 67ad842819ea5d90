-- ===== src/Tests/Tools.antt =====
-- A small packer, checksum and signature that keep what src/signtool.cpp relies on.
use mathlib.Core.List.{append_assoc}
use kad.Common.{
  ℕ, zero, suc, ◌+◌, ◌*◌, ◌/◌, ◌%◌, ◌≡◌, refl, arith, Option, some, none, [], ◌∷◌, ◌++◌,
}
use kad.Common.{
  length, take, drop, replicate, ltb, ◌==◌, if◌then◌else◌, Bytes, bytes_eq, bytes_eq_refl,
  Bool-cases, inl, inr,
}
use kad.Common.{take-append, drop-append, length-append, length-replicate}
use kad.Message.Format.{
  Object, Objects, raw, positive, mapping, nil, boolean, negative, array, end, item,
}
use kad.Signing.Laws.{Laws, KeyPair, IsFlat, packed_size}
use kad.Signing.{Tools}

abbrev mutual
  pub toy_pack : Object → Bytes
  toy_pack (raw b) = if ltb (length b) 32 then (4 * length b) ∷ b else 1 ∷ length b ∷ 0 ∷ b
  toy_pack (positive n) = (4 * n + 2) ∷ []
  toy_pack (mapping os) = 3 ∷ toy_count os ∷ toy_items os
  toy_pack (array os) = 7 ∷ []
  toy_pack nil = 7 ∷ []
  toy_pack (boolean b) = 7 ∷ []
  toy_pack (negative n) = 7 ∷ []

  pub toy_items : Objects → Bytes
  toy_items end = []
  toy_items (item o os) = toy_pack o ++ toy_items os

  pub toy_count : Objects → ℕ
  toy_count end = 0
  toy_count (item o os) = suc (toy_count os)

abbrev read_long : Bytes → Option (Object × ℕ)
read_long (n ∷ z ∷ b) = some (raw (take n b), n + 3)
read_long _ = none

abbrev read_one : Bytes → Option (Object × ℕ)
read_one [] = none
read_one (c ∷ rest) =
    if c % 4 == 0
    then some (raw (take (c / 4) rest), c / 4 + 1)
    else if c % 4 == 2
    then some (positive (c / 4), 1)
    else read_long rest

abbrev read_items : ℕ → Bytes → Option (Objects × ℕ)
read_items zero bytes = some (end, 0)
read_items (suc k) bytes = elim (read_one bytes) [
  | none ↦ none
  | some (o, n) ↦ elim (read_items k (drop n bytes)) [
    | none ↦ none
    | some (os, m) ↦ some (item o os, n + m)
  ]
]

abbrev read_map : Bytes → Option (Object × ℕ)
read_map [] = none
read_map (count ∷ rest) = elim (read_items count rest) [
  | none ↦ none
  | some (os, m) ↦ some (mapping os, m + 2)
]

abbrev toy_unpack : Bytes → Option (Object × ℕ)
toy_unpack [] = none
toy_unpack (c ∷ rest) = if c == 3 then read_map rest else read_one (c ∷ rest)

abbrev toy_hex : Bytes → Bytes
toy_hex [] = []
toy_hex (b ∷ bs) = (b / 16) ∷ (b % 16) ∷ toy_hex bs

abbrev toy_sum : Bytes → ℕ
toy_sum [] = 1
toy_sum (b ∷ bs) = b + 2 * toy_sum bs

abbrev toy_sha256 : Bytes → Bytes
toy_sha256 b = replicate 32 (toy_sum b)

abbrev toy_sign : ℕ → ℕ → Bytes → Bytes
toy_sign private random b = replicate 512 (private + toy_sum b)

-- A key is a number, the public one is the private one, and a key file holds it alone.
abbrev toy_key : Bytes → Option ℕ
toy_key (k ∷ []) = some k
toy_key _ = none

abbrev pub toy : Tools
toy = record {
  Public = ℕ;
  Private = ℕ;
  read_public = toy_key;
  read_private = toy_key;
  valid_public = λ k. ltb 0 k;
  valid_private = λ k. ltb 0 k;
  verify = λ k b s. bytes_eq s (replicate 512 (k + toy_sum b));
  sign = toy_sign;
  sha256 = toy_sha256;
  hex = toy_hex;
  pack = toy_pack;
  unpack = toy_unpack;
}

read_raw :
    (b rest : Bytes) → read_one (toy_pack (raw b) ++ rest) ≡ some (raw b, length (toy_pack (raw b)))
read_raw b rest = elim (Bool-cases (ltb (length b) 32)) [
  | inl short ↦
      let zero_tag : (4 * length b) % 4 ≡ 0 = omega arith in
      let tag : 4 * length b / 4 ≡ length b = omega arith in
      let size : length b + 1 ≡ suc (length b) = omega arith in
      rw short (rw (zero_tag, tag, size) (rw (take-append (length b) b rest refl) refl))
  | inr long ↦
      let size : length b + 3 ≡ suc (suc (suc (length b))) = omega arith in
      rw long (rw (size) (rw (take-append (length b) b rest refl) refl))
]

read_items_step :
    (k n m : ℕ) (o : Object) (os : Objects) (bytes : Bytes)
    → read_one bytes ≡ some (o, n)
    → read_items k (drop n bytes) ≡ some (os, m)
    → read_items (suc k) bytes ≡ some (item o os, n + m)
read_items_step k n m o os bytes p q = rw (p, read_items) (rw q refl)

read_item :
    (o : Object) (os : Objects) (rest : Bytes)
    → ((more : Bytes) → read_one (toy_pack o ++ more) ≡ some (o, length (toy_pack o)))
    → read_items (toy_count os) (toy_items os ++ rest) ≡ some (os, length (toy_items os))
    → read_items (suc (toy_count os)) (toy_pack o ++ toy_items os ++ rest)
      ≡ some (item o os, length (toy_pack o ++ toy_items os))
read_item o os rest one ih =
    let whole = append_assoc (toy_pack o) (toy_items os) rest in
    let past = drop-append (length (toy_pack o)) (toy_pack o) (toy_items os ++ rest) refl in
    rw (whole, length-append (toy_pack o) (toy_items os))
      (read_items_step (toy_count os) (length (toy_pack o)) (length (toy_items os)) o os
        (toy_pack o ++ (toy_items os ++ rest)) (one (toy_items os ++ rest)) (rw past ih))

read_positive :
    (n : ℕ) (more : Bytes) → read_one (toy_pack (positive n) ++ more) ≡ some (positive n, 1)
read_positive n more = ground arith

read_packed :
    (os : Objects) (rest : Bytes)
    → IsFlat os
    → read_items (toy_count os) (toy_items os ++ rest) ≡ some (os, length (toy_items os))
read_packed end rest flat = refl
read_packed (item (raw b) os) rest flat =
    read_item (raw b) os rest (read_raw b) (read_packed os rest flat)
read_packed (item (positive n) os) rest flat =
    read_item (positive n) os rest (read_positive n) (read_packed os rest flat)
read_packed (item nil os) rest flat = elim flat [ ]
read_packed (item (boolean b) os) rest flat = elim flat [ ]
read_packed (item (negative n) os) rest flat = elim flat [ ]
read_packed (item (array l) os) rest flat = elim flat [ ]
read_packed (item (mapping l) os) rest flat = elim flat [ ]

toy_unpack-raw :
    (b rest : Bytes)
    → toy_unpack (toy_pack (raw b) ++ rest) ≡ some (raw b, length (toy_pack (raw b)))
toy_unpack-raw b rest = ground (arith, read_raw b rest)

toy_unpack-map :
    (os : Objects) (rest : Bytes)
    → IsFlat os
    → toy_unpack (toy_pack (mapping os) ++ rest) ≡ some (mapping os, length (toy_pack (mapping os)))
toy_unpack-map os rest flat =
    let size : length (toy_items os) + 2 ≡ suc (suc (length (toy_items os))) = omega arith in
    rw (read_packed os rest flat, read_map) (rw size refl)

packed_size-toy : (os : Objects) → packed_size toy_pack os ≡ length (toy_items os)
packed_size-toy end = refl
packed_size-toy (item o os) =
    omega (arith, packed_size-toy os, length-append (toy_pack o) (toy_items os))

toy_hex_size : (b : Bytes) → length (toy_hex b) ≡ length b * 2
toy_hex_size [] = refl
toy_hex_size (b ∷ bs) = omega (arith, toy_hex_size bs)

pub toy-Laws : Laws toy
toy-Laws = record {
  unpack-raw = toy_unpack-raw;
  unpack-map = toy_unpack-map;
  short_raw = λ b h. ground arith;
  long_raw = λ b h k. ground arith;
  packed_map = λ os. omega (arith, packed_size-toy os);
  sum_size = λ b. length-replicate 32 (toy_sum b);
  hex_size = toy_hex_size;
}

pub toy-KeyPair : KeyPair toy 5 5
toy-KeyPair = record {
  verifies = λ r b. bytes_eq_refl (replicate 512 (5 + toy_sum b));
  signature_512 = λ r b. length-replicate 512 (5 + toy_sum b);
}
