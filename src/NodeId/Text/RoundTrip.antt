-- ===== src/NodeId/Text/RoundTrip.antt =====
-- An id is read back from its text (src/KadNodeId.h).
use mathlib.Core.List.{append-nil, append_assoc}
use kad.Common.{
  ℕ, zero, suc, ◌+◌, ◌-◌, ◌*◌, ◌/◌, ◌%◌, ◌^◌, ◌<◌, ◌≡◌, refl, ap, subst, ◌∙◌, arith, Bool, true,
  false, ◌&&◌, ◌||◌, some,
}
use kad.Common.{[], ◌∷◌, ◌++◌, length, drop, set, leb, ◌==◌, Bytes, drop-append}
use kad.NodeId.{KadId, clear}
use kad.NodeId.Value.{AllBytes, IsId}
use kad.NodeId.Text.{hex_digit, to_string, digit_value, second_digit, scan_digits, scan, byte}
use kad.NodeId.Text.{text_byte, text_loop, from_text}

to_string-append : (xs ys : KadId) → to_string (xs ++ ys) ≡ to_string xs ++ to_string ys
unfolding to_string
to_string-append [] ys = refl
to_string-append (x ∷ xs) ys =
    ap (λ (t : Bytes). hex_digit (x / 16) ∷ hex_digit (x % 16) ∷ t) (to_string-append xs ys)

length-to_string : (xs : KadId) → length (to_string xs) ≡ 2 * length xs
unfolding to_string
length-to_string [] = refl
length-to_string (x ∷ xs) = omega (arith, length-to_string xs)

-- What `sscanf` sees in a digit: no blank, no sign, no `x`, and its value.
abbrev blank : ℕ → Bool
blank c = c == 32 || (leb 9 c && leb c 13)

record IsDigit (c x : ℕ) : Type 0 where
  no_blank : blank c ≡ false
  no_plus : (c == 43) ≡ false
  no_minus : (c == 45) ≡ false
  no_x : (e : ℕ) → (e == 48 && (c == 120 || c == 88)) ≡ false
  read : digit_value c ≡ some x

and_false : (a b : Bool) → b ≡ false → (a && b) ≡ false
and_false true b h = h
and_false false b h = refl

scanned-IsDigit : (x : ℕ) → x < 16 → IsDigit (hex_digit x) x
scanned-IsDigit x h = record {
  no_blank = ground arith;
  no_plus = ground arith;
  no_minus = ground arith;
  no_x = λ e. and_false (e == 48) _ (ground arith);
  read = ground arith;
}

digits_two :
    (c e x y : ℕ) (rest : Bytes)
    → IsDigit c x
    → IsDigit e y
    → scan_digits 2 (c ∷ e ∷ rest) ≡ some (x * 16 + y)
digits_two c e x y rest p q =
    rw (p.read, scan_digits) (rw (q.no_x c, second_digit) (rw q.read refl))

scan_two :
    (c e x y : ℕ) (rest : Bytes)
    → IsDigit c x
    → IsDigit e y
    → scan 2 (c ∷ e ∷ rest) ≡ some (x * 16 + y)
unfolding scan
scan_two c e x y rest p q = rw (p.no_blank, p.no_plus, p.no_minus) (digits_two c e x y rest p q)

-- Two digits are read as the byte that they print, whatever follows.
scan-to_string : (b : ℕ) (bs : KadId) → b < 256 → scan 2 (to_string (b ∷ bs)) ≡ some b
unfolding to_string
scan-to_string b bs h =
    let whole : b / 16 * 16 + b % 16 ≡ b = omega arith in
    scan_two (hex_digit (b / 16)) (hex_digit (b % 16)) (b / 16) (b % 16) (to_string bs)
      (scanned-IsDigit (b / 16) (omega arith)) (scanned-IsDigit (b % 16) (omega arith))
    ∙ ap some whole

-- A round on the text of `xs ++ b ∷ ys`, with the text of `ys` read.
round_lem :
    (xs : KadId) (b : ℕ) (ys : KadId)
    → b < 256
    → text_byte (to_string (xs ++ b ∷ ys)) (2 * suc (length xs)) ≡ byte b
unfolding text_byte
round_lem xs b ys h =
    let two : leb 2 (2 * suc (length xs)) ≡ true = ground arith in
    let start : 2 * suc (length xs) - 2 ≡ 2 * length xs = omega arith in
    let rest : drop (2 * length xs) (to_string (xs ++ b ∷ ys)) ≡ to_string (b ∷ ys) =
      ap (drop (2 * length xs)) (to_string-append xs (b ∷ ys))
      ∙ drop-append (2 * length xs) (to_string xs) (to_string (b ∷ ys)) (length-to_string xs) in
    let same : b % 2 ^ 8 ≡ b = omega arith in
    rw (two, start, rest, scan-to_string b ys h) (ap byte same)

set_last :
    (xs : KadId) (b : ℕ) (ys : KadId)
    → set (clear (suc (length xs)) ++ ys) (length xs) b ≡ clear (length xs) ++ b ∷ ys
set_last [] b ys = refl
set_last (x ∷ xs) b ys = ap (λ (t : KadId). 0 ∷ t) (set_last xs b ys)

-- The last byte of an id that has one.
split_last :
    (n : ℕ) (xs : KadId)
    → length xs ≡ suc n
    → AllBytes xs
    → (ws : KadId) × (b : ℕ) × (xs ≡ ws ++ b ∷ []) × (length ws ≡ n) × AllBytes ws × (b < 256)
split_last n [] h p = absurd (omega (arith, h))
split_last n (x ∷ []) h p = ([], x, refl, omega (arith, h), tt, p.0)
split_last n (x ∷ y ∷ xs) h p =
    let (ws, b, e, size, all, small) = split_last (n - 1) (y ∷ xs) (omega (arith, h)) p.1 in
    (x ∷ ws, b, ap (λ (t : KadId). x ∷ t) e, omega (arith, h, size), (p.0, all), small)

text_loop_byte :
    (i : ℕ) (str : Bytes) (k : ℕ) (d : KadId) (u : ℕ)
    → text_byte str k ≡ byte u
    → text_loop (suc i) str k d ≡ text_loop i str (k - 2) (set d i u)
unfolding text_loop
text_loop_byte i str k d u e = rw (e, text_loop) refl

loop_lem :
    (n : ℕ) (xs ys : KadId)
    → length xs ≡ n
    → AllBytes xs
    → text_loop n (to_string (xs ++ ys)) (2 * n) (clear n ++ ys) ≡ xs ++ ys
unfolding text_loop
loop_lem zero [] ys h p = refl
loop_lem zero (x ∷ xs) ys h p = absurd (omega (arith, h))
loop_lem (suc n) xs ys h p =
    let (ws, b, e, size, all, small) = split_last n xs h p in
    let whole : xs ++ ys ≡ ws ++ b ∷ ys =
      ap (λ (t : KadId). t ++ ys) e ∙ append_assoc ws (b ∷ []) ys in
    let round : text_byte (to_string (ws ++ b ∷ ys)) (2 * suc n) ≡ byte b =
      subst (λ (k : ℕ). text_byte (to_string (ws ++ b ∷ ys)) (2 * suc k) ≡ byte b) size
        (round_lem ws b ys small) in
    let stored : set (clear (suc n) ++ ys) n b ≡ clear n ++ b ∷ ys =
      subst (λ (k : ℕ). set (clear (suc k) ++ ys) k b ≡ clear k ++ b ∷ ys) size
        (set_last ws b ys) in
    let next : 2 * suc n - 2 ≡ 2 * n = omega arith in
    rw whole (
      rw (text_loop_byte n _ _ (clear (suc n) ++ ys) b round)
        (rw (stored, next) (loop_lem n ws (b ∷ ys) size all)))

-- An id of n bytes is read back from the hexadecimal text that `ToString` makes of it.
pub from_text-to_string : (n : ℕ) (d : KadId) → IsId n d → from_text n (to_string d) ≡ d
unfolding from_text
from_text-to_string n d p =
    let size : length (to_string d) ≡ 2 * n = omega (arith, length-to_string d, p.size) in
    rw size (
      subst (λ (t : KadId). text_loop n (to_string t) (2 * n) (clear n) ≡ d) (append-nil d)
        (subst (λ (t : KadId). text_loop n (to_string (d ++ [])) (2 * n) t ≡ d)
          (append-nil (clear n)) (loop_lem n d [] p.size p.bytes ∙ append-nil d)))
