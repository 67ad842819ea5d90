-- ===== src/Program/Bootstrap.antt =====
-- The file of addresses that src/kad_node.cpp writes when it leaves and reads when it starts.
use mathlib.Core.List.{append-nil, append_assoc}
use kad.Common.{
  ℕ, zero, suc, ◌+◌, ◌/◌, ◌%◌, ◌≡◌, ◌≢◌, refl, sym, arith, Bool, true, false, List, [], ◌∷◌, ◌++◌,
  All, All-append,
}
use kad.Common.{
  length, get_or, ltb, ◌==◌, ==_iff, Bool-cases, inl, inr, Bytes, Files, String, write_file_self,
}
use kad.Program.{Names, lines, decimal, load_lines, load_bsp, bsp_line, bsp_text, save_bsp}

-- No newline among the bytes.
abbrev pub OneLine : Bytes → Type 0
OneLine = All (λ c. c ≢ 10)

-- What the program relies on: a name or an address is printed on one line, which does not begin with
-- `;`. What is looked up for such a line is whatever the resolver says.
pub record Printed {ℓ} {Addr : Type ℓ} (names : Names Addr) : Type ℓ where
  pub name_line : (a : Addr) → OneLine (names.resolve_name a)
  pub text_line : (a : Addr) → OneLine (names.to_string a)
  pub name_first : (a : Addr) → get_or (names.resolve_name a) 0 0 ≢ 59
  pub text_first : (a : Addr) → get_or (names.to_string a) 0 0 ≢ 59

test_ne : (m n : ℕ) → m ≢ n → (m == n) ≡ false
test_ne m n ne = ground (arith, ==_iff m n)

lines-append : (l rest : Bytes) → OneLine l → lines (l ++ 10 ∷ rest) ≡ l ∷ lines rest
unfolding lines
lines-append [] rest p = refl
lines-append (c ∷ cs) rest p =
    let other : (c == 10) ≡ false = test_ne c 10 p.0 in rw (other, lines-append cs rest p.1) refl

decimal-OneLine : (more n : ℕ) → OneLine (decimal more n)
unfolding decimal
decimal-OneLine zero n = ((λ e. absurd (omega (arith, e))), tt)
decimal-OneLine (suc more) n = elim (Bool-cases (ltb n 10)) [
  | inl small ↦ rw small ((λ e. absurd (omega (arith, e))), tt)
  | inr big ↦ rw big (
      All-append (λ c. c ≢ 10) (decimal more (n / 10)) ((48 + n % 10) ∷ [])
        (decimal-OneLine more (n / 10)) ((λ e. absurd (omega (arith, e))), tt))
]

first_kept : (name digits : Bytes) → get_or name 0 0 ≢ 59 → get_or (name ++ 58 ∷ digits) 0 0 ≢ 59
first_kept [] digits ne e = absurd (omega (arith, e))
first_kept (c ∷ cs) digits ne e = ne e

module _ {ℓ} {Addr : Type ℓ} (names : Names Addr) where
  -- What the resolver gives for the line of each address, one after the other.
  abbrev pub looked_up : List Addr → List Addr
  looked_up [] = []
  looked_up (a ∷ addrs) = names.lookup (bsp_line names a) ++ looked_up addrs

module _ {ℓ} {Addr : Type ℓ} (names : Names Addr) (p : Printed names) where
  bsp_line-OneLine : (a : Addr) → OneLine (bsp_line names a)
  unfolding bsp_line
  bsp_line-OneLine a = elim (Bool-cases (length (names.resolve_name a) == 0)) [
    | inl none' ↦ rw none' (p.text_line a)
    | inr name ↦ rw name (
        All-append (λ c. c ≢ 10) (names.resolve_name a) (58 ∷ decimal 4 (names.port a))
          (p.name_line a) ((λ e. absurd (omega (arith, e))), decimal-OneLine 4 (names.port a)))
  ]

  bsp_line_first : (a : Addr) → (get_or (bsp_line names a) 0 0 == 59) ≡ false
  unfolding bsp_line
  bsp_line_first a = elim (Bool-cases (length (names.resolve_name a) == 0)) [
    | inl none' ↦ rw none' (test_ne _ 59 (p.text_first a))
    | inr name ↦ rw name (
        test_ne _ 59
          (first_kept (names.resolve_name a) (decimal 4 (names.port a)) (p.name_first a)))
  ]

  no_lines : load_lines names (lines []) ≡ names.lookup []
  unfolding lines load_lines
  no_lines = append-nil (names.lookup [])

  load-bsp_text :
      (addrs : List Addr)
      → load_lines names (lines (bsp_text names addrs)) ≡ looked_up names addrs ++ names.lookup []
  unfolding load_lines bsp_text
  load-bsp_text [] = no_lines
  load-bsp_text (a ∷ addrs) =
      rw
        (
          lines-append (bsp_line names a) (bsp_text names addrs) (bsp_line-OneLine a),
          bsp_line_first a,
          load-bsp_text addrs,
        )
        (sym (
          append_assoc (names.lookup (bsp_line names a)) (looked_up names addrs) (names.lookup [])))

  -- What `LoadBspFromFile` reads from a file that `SaveBspToFile` wrote: what is looked up for the
  -- line of each address, and then for an empty text, since the last line is empty.
  pub load-save_bsp :
      (opens : String → Bool) (fn : String) (addrs : List Addr) (files : Files)
      → opens fn ≡ true
      → load_bsp names (save_bsp names opens fn addrs files fn)
        ≡ looked_up names addrs ++ names.lookup []
  unfolding save_bsp
  load-save_bsp opens fn addrs files can =
      rw can (rw (write_file_self fn (bsp_text names addrs) files) (load-bsp_text addrs))
