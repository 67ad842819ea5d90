-- ===== src/Signing/Laws.antt =====
-- What src/signtool.cpp relies on in CryptoPP and msgpack.
use kad.Common.{ℕ, ◌+◌, ◌*◌, ◌≤◌, ◌<◌, ◌≡◌, some, true, ◌++◌, length, Bytes}
use kad.Message.Format.{Object, Objects, positive, raw, mapping, end, item}
use kad.Signing.{Tools}

-- What the tool relies on: msgpack reads back what it packed, and takes the bytes of it; a raw object
-- has a head of one byte, or of three from 32 bytes on, and a map is longer than its items together;
-- a checksum of 32 bytes, and two hexadecimal digits to a byte.
abbrev pub packed_size : (Object → Bytes) → Objects → ℕ
packed_size pack end = 0
packed_size pack (item o os) = length (pack o) + packed_size pack os

-- A map's items that are texts and numbers.
abbrev pub IsFlat : Objects → Type 0
IsFlat end = Unit
IsFlat (item (raw b) os) = IsFlat os
IsFlat (item (positive n) os) = IsFlat os
IsFlat _ = ⊥

pub record Laws (t : Tools) : Type 1 where
  pub unpack-raw :
      (b rest : Bytes) → t.unpack (t.pack (raw b) ++ rest) ≡ some (raw b, length (t.pack (raw b)))
  pub unpack-map :
      (os : Objects) (rest : Bytes)
      → IsFlat os
      → t.unpack (t.pack (mapping os) ++ rest) ≡ some (mapping os, length (t.pack (mapping os)))
  pub short_raw : (b : Bytes) → length b < 32 → length (t.pack (raw b)) ≡ length b + 1
  pub long_raw :
      (b : Bytes) → 32 ≤ length b → length b < 65536 → length (t.pack (raw b)) ≡ length b + 3
  pub packed_map : (os : Objects) → packed_size t.pack os < length (t.pack (mapping os))
  pub sum_size : (b : Bytes) → length (t.sha256 b) ≡ 32
  pub hex_size : (b : Bytes) → length (t.hex b) ≡ length b * 2

-- A pair of keys of 4096 bits: what the one signs the other verifies, and signatures have 512 bytes.
pub record KeyPair (t : Tools) (private : t.Private) (public : t.Public) : Type 0 where
  pub verifies : (random : ℕ) (b : Bytes) → t.verify public b (t.sign private random b) ≡ true
  pub signature_512 : (random : ℕ) (b : Bytes) → length (t.sign private random b) ≡ 512
