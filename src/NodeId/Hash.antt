-- ===== src/NodeId/Hash.antt =====
-- src/KadNodeId.cpp: ids from hashes. The digests are CryptoPP's, which is not in the repository: a
-- record of functions from bytes to bytes. The 16-byte MD5, for ids of 128 bits, is not compiled.
use kad.Common.{ℕ, zero, suc, ◌*◌, ◌/◌, Bytes}
use kad.Common.{take, drop, ◌==◌, if◌then◌else◌}
use kad.Common.{Option, none, some}
use kad.NodeId.{KadId, clear, xor}

pub record Digests : Type 0 where
  pub sha512 : Bytes → Bytes
  pub sha384 : Bytes → Bytes
  pub sha256 : Bytes → Bytes
  pub sha224 : Bytes → Bytes
  pub sha1 : Bytes → Bytes

-- The loop that joins `count` pieces of `n` bytes of a digest.
unfoldable pub fold_pieces : ℕ → ℕ → Bytes → KadId → KadId
fold_pieces zero n bytes result = result
fold_pieces (suc count) n bytes result =
    fold_pieces count n (drop n bytes) (xor result (take n bytes))

-- `FromHash` of the template, for sizes with no digest of their own. Unless the pieces are as long as
-- the digest together, which they need not be, the code writes outside of them: `none`.
abbrev pub folded_hash : Digests → ℕ → Bytes → Option KadId
folded_hash d n bytes =
    if 32 / n * n == 32 then some (fold_pieces (32 / n) n (d.sha256 bytes) (clear n)) else none

-- `FromHash` of the specialisation for 20 bytes, the size of the node's ids.
abbrev pub hash_20 : Digests → Bytes → KadId
hash_20 d bytes = d.sha1 bytes

-- `FromHash(data, len)` for ids of `n` bytes.
unfoldable pub from_hash : Digests → ℕ → Bytes → Option KadId
from_hash d n bytes =
    if n == 64
    then some (d.sha512 bytes)
    else if n == 48
    then some (d.sha384 bytes)
    else if n == 32
    then some (d.sha256 bytes)
    else if n == 28
    then some (d.sha224 bytes)
    else if n == 20
    then some (hash_20 d bytes)
    else folded_hash d n bytes
