-- ===== src/NodeId/Text.antt =====
-- Ids and texts (src/KadNodeId.h): `ToString` and the constructor from a text, which reads two digits at
-- a time with `sscanf` from the end of the text. A text is its characters, without the final NUL.
-- `sscanf` is the standard's for "%x" with a width of 1 or 2: it skips blanks, and takes a sign and digits
-- of the width together; "0x" with no digit after it, for which the width leaves no room, fails.
pub mod RoundTrip
use mathlib.Core.List.{append-nil, append_assoc}
use kad.Common.{
  ℕ, zero, suc, ◌+◌, ◌-◌, ◌*◌, ◌/◌, ◌%◌, ◌^◌, ◌≤◌, ◌<◌, ◌≡◌, refl, sym, ap, subst, ◌∙◌, arith, Bool,
  true, false, ◌&&◌, ◌||◌, Option, none, some,
}
use kad.Common.{
  [], ◌∷◌, ◌++◌, length, drop, set, ltb, leb, ◌==◌, if◌then◌else◌, Bytes, drop-append,
  length-append,
}
use kad.NodeId.{KadId, clear}
use kad.NodeId.Value.{AllBytes, IsId}

-- "%02x" of a byte.
abbrev pub hex_digit : ℕ → ℕ
hex_digit n = if ltb n 10 then 48 + n else 87 + n

unfoldable pub to_string : KadId → Bytes
to_string [] = []
to_string (b ∷ bs) = hex_digit (b / 16) ∷ hex_digit (b % 16) ∷ to_string bs

abbrev pub digit_value : ℕ → Option ℕ
digit_value c =
    if leb 48 c && leb c 57
    then some (c - 48)
    else if leb 97 c && leb c 102
    then some (c - 87)
    else if leb 65 c && leb c 70
    then some (c - 55)
    else none

-- The digits of the number, of which at most `more` follow the first.
abbrev pub second_digit : ℕ → ℕ → Bytes → Option ℕ
second_digit c value [] = some value
second_digit c value (e ∷ rest) =
    if c == 48 && (e == 120 || e == 88)
    then none
    else elim (digit_value e) [ none ↦ some value | some low ↦ some (value * 16 + low) ]

abbrev pub scan_digits : ℕ → Bytes → Option ℕ
scan_digits zero text = none
scan_digits (suc more) [] = none
scan_digits (suc more) (c ∷ rest) = elim (digit_value c) [
  | none ↦ none
  | some value ↦ if more == 0 then some value else second_digit c value rest
]

abbrev pub negated : Option ℕ → Option ℕ
negated none = none
negated (some u) = some ((2 ^ 32 - u) % 2 ^ 32)

-- `sscanf` with "%x" of width `width`, at most 2.
unfoldable pub scan : ℕ → Bytes → Option ℕ
scan width [] = none
scan width (c ∷ rest) =
    let after_blank = scan width rest in
    if c == 32 || (leb 9 c && leb c 13)
    then after_blank
    else if c == 43
    then scan_digits (width - 1) rest
    else if c == 45
    then negated (scan_digits (width - 1) rest)
    else scan_digits width (c ∷ rest)

-- A round of the constructor's loop: it stops, stores a byte and stops, or stores a byte and goes on.
pub data TextByte : Type 0 where
  stop : TextByte
  last : ℕ → TextByte
  byte : ℕ → TextByte

abbrev pub one_digit : Option ℕ → TextByte
one_digit none = stop
one_digit (some u) = last (u % 2 ^ 8)

abbrev pub two_digits : Option ℕ → Option ℕ → TextByte
two_digits (some u) one = byte (u % 2 ^ 8)
two_digits none one = one_digit one

-- The round, with `k` characters before `strBuff`.
unfoldable pub text_byte : Bytes → ℕ → TextByte
text_byte str k =
    if leb 2 k
    then two_digits (scan 2 (drop (k - 2) str)) (scan 1 (drop (k - 1) str))
    else if k == 1
    then one_digit (scan 1 (drop (k - 1) str))
    else stop

unfoldable pub text_loop : ℕ → Bytes → ℕ → KadId → KadId
text_loop zero str k d = d
text_loop (suc i) str k d = elim (text_byte str k) [
  | stop ↦ d
  | last u ↦ set d i u
  | byte u ↦ text_loop i str (k - 2) (set d i u)
]

-- `TKadId(const char*)`.
unfoldable pub from_text : ℕ → Bytes → KadId
from_text n str = text_loop n str (length str) (clear n)
