-- ===== src/Signing/Check.antt =====
-- `VerifyFile` of src/signtool.cpp on a file that is laid out as `SignFile` writes it.
use mathlib.Core.List.{append_assoc}
use kad.Common.{ℕ, ◌+◌, ◌≤◌, ◌≡◌, refl, arith, true, some, ◌++◌}
use kad.Common.{
  length, take, drop, leb, ◌==◌, length-append, take-append, drop-append, Bytes, codes, bytes_eq,
  ◌&&◌,
}
use kad.Message.Format.{Object, raw}
use kad.Signing.Laws.{Laws}
use kad.Signing.{Tools, returned, bad_hash, need, ◌>>◌, check_bytes, descriptor, descriptor_items}
use kad.Signing.{as_map, field}

module _ (t : Tools) (laws : Laws t) where
  open t use {pack, hex, sha256}
  open laws use {unpack-raw, unpack-map, short_raw, long_raw, packed_map, sum_size, hex_size}

  -- A descriptor of a 16-byte seed and a checksum is longer than the 128 bytes asked for.
  pub descriptor_long :
      (timestamp seed b : Bytes) (size : ℕ)
      → length seed ≡ 16
      → 128 ≤ length (pack (descriptor t timestamp seed size (hex (sha256 b))))
  descriptor_long timestamp seed b size h = omega (
    arith,
    packed_map (descriptor_items t timestamp seed size (hex (sha256 b))),
    long_raw (hex seed),
    long_raw (hex (sha256 b)),
    hex_size seed,
    hex_size (sha256 b),
    sum_size b,
    short_raw (codes "ver"),
    short_raw (codes "0.1.0"),
    short_raw (codes "timestamp"),
    short_raw (codes "seed"),
    short_raw (codes "size"),
    short_raw (codes "sha256"),
  )

  pub check_bytes-signed :
      (key : t.Public) (timestamp seed sum signature data' : Bytes) (size : ℕ)
      → length signature ≡ 512
      → 128 ≤ length (pack (descriptor t timestamp seed size sum))
      → t.verify key (pack (descriptor t timestamp seed size sum)) signature ≡ true
      → check_bytes t key
          (pack (descriptor t timestamp seed size sum) ++ pack (raw signature) ++ data')
        ≡ (need (bytes_eq sum (hex (sha256 data'))) bad_hash >> returned data')
  unfolding check_bytes as_map field
  check_bytes-signed key timestamp seed sum signature data' size h long good =
      let d : Object = descriptor t timestamp seed size sum in
      let whole : pack d ++ pack (raw signature) ++ data'
          ≡ pack d ++ (pack (raw signature) ++ data') =
        append_assoc (pack d) (pack (raw signature)) data' in
      let first : t.unpack (pack d ++ pack (raw signature) ++ data') ≡ some (d, length (pack d)) =
        rw whole (
          unpack-map (descriptor_items t timestamp seed size sum) (pack (raw signature) ++ data')
            tt) in
      let rest : drop (length (pack d)) (pack d ++ pack (raw signature) ++ data')
          ≡ pack (raw signature) ++ data' =
        rw whole (drop-append (length (pack d)) (pack d) (pack (raw signature) ++ data') refl) in
      let second : t.unpack (pack (raw signature) ++ data')
          ≡ some (raw signature, length (pack (raw signature))) =
        unpack-raw signature data' in
      let size_s : length (pack (raw signature)) ≡ 515 = omega (arith, long_raw signature) in
      let front : take (length (pack d)) (pack d ++ pack (raw signature) ++ data') ≡ pack d =
        rw whole (take-append (length (pack d)) (pack d) (pack (raw signature) ++ data') refl) in
      let back : drop (length (pack d) + length (pack (raw signature)))
            (pack d ++ pack (raw signature) ++ data')
          ≡ data' =
        drop-append (length (pack d) + length (pack (raw signature)))
          (pack d ++ pack (raw signature)) data' (length-append (pack d) (pack (raw signature))) in
      let at : (leb 128 (length (pack d))
            && length (pack d) + length (pack (raw signature)) == length (pack d) + 515
            && true)
          ≡ true =
        ground arith in
      rw (first, rest, second, at, front, good, back) refl
