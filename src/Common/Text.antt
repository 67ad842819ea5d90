-- ===== src/Common/Text.antt =====
-- File names and texts: the native `String`, and the bytes of one.
use Prim.Native.Nat.{ℕ}
use Prim.Native.Char.{code}
use Prim.Native.String.{String}
use mathlib.Core.Path.{◌≡◌, refl, sym, ◌∙◌}
use mathlib.Core.Logic.{◌≢◌}
use mathlib.Core.Bool.{Bool, true, false}
use mathlib.Core.List.{List, [], ◌∷◌}
use mathlib.Core.Option.{Option, none, some}
use native.Mathlib.Omega.{arith}
use text.Mathlib.Text.{◌==◌ as str_eq}
use text.Mathlib.TextEquality.{eq_iff}
use text.Mathlib.TextPositions.{eq_refl}
use kad.Common.Tests.{◌==◌, if◌then◌else◌}

abbrev pub Bytes : Type 0
Bytes = List ℕ

abbrev pub codes : String → Bytes
codes String.[] = []
codes (String.◌∷◌ c s) = code c ∷ codes s

-- Equality of two `std::string`s.
abbrev pub bytes_eq : Bytes → Bytes → Bool
bytes_eq [] [] = true
bytes_eq [] (y ∷ ys) = false
bytes_eq (x ∷ xs) [] = false
bytes_eq (x ∷ xs) (y ∷ ys) = let rest = bytes_eq xs ys in if x == y then rest else false

pub bytes_eq_refl : (xs : Bytes) → bytes_eq xs xs ≡ true
bytes_eq_refl [] = refl
bytes_eq_refl (x ∷ xs) = ground (arith, bytes_eq_refl xs)

pub bytes_eq-eq : (xs ys : Bytes) → bytes_eq xs ys ≡ true → xs ≡ ys
bytes_eq-eq [] [] h = refl
bytes_eq-eq [] (y ∷ ys) h = cc
bytes_eq-eq (x ∷ xs) [] h = cc
bytes_eq-eq (x ∷ xs) (y ∷ ys) h = ground (arith, bytes_eq-eq xs ys)

pub bytes_eq_ne : (xs ys : Bytes) → xs ≢ ys → bytes_eq xs ys ≡ false
bytes_eq_ne xs ys ne = by_value (bytes_eq xs ys) refl
  where
    by_value : (b : Bool) → bytes_eq xs ys ≡ b → b ≡ false
    by_value true e = absurd (ne (bytes_eq-eq xs ys e))
    by_value false e = refl

-- The files of a directory, by name.
abbrev pub Files : Type 0
Files = String → Option Bytes

abbrev pub name_eq : String → String → Bool
name_eq = str_eq

unfoldable pub write_file : String → Bytes → Files → Files
write_file name bytes files other = if name_eq name other then some bytes else files other

unfoldable pub delete_file : String → Files → Files
delete_file name files other = if name_eq name other then none else files other

pub name_eq_refl : (s : String) → name_eq s s ≡ true
name_eq_refl s = eq_refl s

pub name_eq_ne : (s t : String) → s ≢ t → name_eq s t ≡ false
name_eq_ne s t ne = ground (arith, eq_iff s t)

pub write_file_self :
    (name : String) (b : Bytes) (files : Files) → write_file name b files name ≡ some b
unfolding write_file
write_file_self name b files = rw (name_eq_refl name) refl

pub write_file_ne :
    (name other : String) (b : Bytes) (files : Files)
    → name ≢ other
    → write_file name b files other ≡ files other
unfolding write_file
write_file_ne name other b files ne = rw (name_eq_ne name other ne) refl

pub name_ne : (s t : String) → name_eq s t ≡ false → s ≢ t
name_ne s t differ e = false_ne_true (sym differ ∙ (eq_iff s t).1 e)
  where
    false_ne_true : ◌≡◌ {A = Bool} false true → ⊥
    false_ne_true h = cc
