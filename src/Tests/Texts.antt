-- ===== src/Tests/Texts.antt =====
-- Ids made of texts and hashes, and their product (src/KadNodeId.h, src/KadNodeId.cpp).
use kad.Common.{◌≡◌, refl, arith, some, none, [], ◌∷◌, replicate, codes}
use kad.NodeId.{KadId, xor}
use kad.NodeId.Value.{IsId}
use kad.NodeId.Text.{from_text, text_loop, text_byte, scan, to_string}
use kad.NodeId.Text.RoundTrip.{from_text-to_string}
use kad.NodeId.Hash.{Digests, from_hash, fold_pieces}
use kad.NodeId.Mul.{mul, mul_outside}

abbrev d : KadId
d = 3 ∷ 200 ∷ []

d-IsId : IsId 2 d
d-IsId = record { size = refl; bytes = (omega arith, (omega arith, tt)) }

from_text-to_string_example : from_text 2 (to_string d) ≡ d
from_text-to_string_example = from_text-to_string 2 d d-IsId

short_text : from_text 4 (codes "10000") ≡ 0 ∷ 1 ∷ 0 ∷ 0 ∷ []
unfolding from_text text_loop text_byte scan
short_text = refl

abbrev pub digests : Digests
digests = record {
  sha512 = λ b. replicate 64 7;
  sha384 = λ b. replicate 48 7;
  sha256 = λ b. replicate 32 7;
  sha224 = λ b. replicate 28 7;
  sha1 = λ b. replicate 20 7;
}

-- The four pieces of 8 bytes are the same; ten pieces of 3 bytes do not hold the digest.
folded_8 : from_hash digests 8 (1 ∷ []) ≡ some (replicate 8 0)
unfolding from_hash fold_pieces xor
folded_8 = refl

outside_3 : from_hash digests 3 (1 ∷ []) ≡ none
unfolding from_hash
outside_3 = refl

mul_outside_example : mul d (2 ∷ 1 ∷ []) ≡ none
mul_outside_example = mul_outside d (2 ∷ 1 ∷ []) (omega arith)
