-- ===== src/Common/Every.antt =====
-- A predicate on every item of a list, by recursion.
use mathlib.Core.Path.{sym}
use mathlib.Core.Logic.{◌⊎◌, ◌≢◌, inl, inr}
use mathlib.Core.List.{List, [], ◌∷◌, ◌++◌}

module _ {ℓ κ} {A : Type ℓ} where
  abbrev pub All : (A → Type κ) → List A → Type κ
  All P [] = Unit
  All P (x ∷ xs) = P x × All P xs

  pub All-append : (P : A → Type κ) (xs ys : List A) → All P xs → All P ys → All P (xs ++ ys)
  All-append P [] ys p q = q
  All-append P (x ∷ xs) ys p q = (p.0, All-append P xs ys p.1 q)

  pub All-left : (P : A → Type κ) (xs ys : List A) → All P (xs ++ ys) → All P xs
  All-left P [] ys p = tt
  All-left P (x ∷ xs) ys p = (p.0, All-left P xs ys p.1)

  pub All-right : (P : A → Type κ) (xs ys : List A) → All P (xs ++ ys) → All P ys
  All-right P [] ys p = p
  All-right P (x ∷ xs) ys p = All-right P xs ys p.1

  -- Taking an item out, and putting it at the end.
  pub All-removed :
      (P : A → Type κ) (xs : List A) (x : A) (ys : List A) → All P (xs ++ x ∷ ys) → All P (xs ++ ys)
  All-removed P xs x ys p =
      All-append P xs ys (All-left P xs (x ∷ ys) p) (All-right P xs (x ∷ ys) p).1

  pub All-moved :
      (P : A → Type κ) (xs : List A) (x : A) (ys : List A)
      → All P (xs ++ x ∷ ys)
      → All P ((xs ++ ys) ++ x ∷ [])
  All-moved P xs x ys p =
      All-append P (xs ++ ys) (x ∷ []) (All-removed P xs x ys p) ((All-right P xs (x ∷ ys) p).0, tt)

pub All-imp {ℓ κ μ} :
    {A : Type ℓ} {P : A → Type κ} {Q : A → Type μ}
    → ((x : A) → P x → Q x)
    → (xs : List A) → All P xs
    → All Q xs
All-imp f [] p = tt
All-imp f (x ∷ xs) p = (f x p.0, All-imp f xs p.1)

-- A predicate on some item of a list.
abbrev pub Any {ℓ} : {A : Type ℓ} → (A → Type 0) → List A → Type 0
Any P [] = ⊥
Any P (x ∷ xs) = P x ⊎ Any P xs

module _ {ℓ} {A : Type ℓ} (P : A → Type 0) where
  pub Any-left : (xs ys : List A) → Any P xs → Any P (xs ++ ys)
  Any-left [] ys a = elim a [ ]
  Any-left (x ∷ xs) ys (inl p) = inl p
  Any-left (x ∷ xs) ys (inr a) = inr (Any-left xs ys a)

  pub Any-right : (xs ys : List A) → Any P ys → Any P (xs ++ ys)
  Any-right [] ys a = a
  Any-right (x ∷ xs) ys a = inr (Any-right xs ys a)

pub All-zip {ℓ κ μ ν} :
    {A : Type ℓ} {P : A → Type κ} {Q : A → Type μ} {R : A → Type ν}
    → ((x : A) → P x → Q x → R x)
    → (xs : List A) → All P xs
    → All Q xs
    → All R xs
All-zip f [] p q = tt
All-zip f (x ∷ xs) p q = (f x p.0 q.0, All-zip f xs p.1 q.1)

-- No item stands twice in a list.
module _ {ℓ} {A : Type ℓ} where
  abbrev pub Apart : A → List A → Type ℓ
  Apart s = All (λ x. x ≢ s)

  abbrev pub Distinct : List A → Type ℓ
  Distinct [] = Unit
  Distinct (x ∷ xs) = Apart x xs × Distinct xs

  pub Distinct-append : (xs : List A) (s : A) → Distinct xs → Apart s xs → Distinct (xs ++ s ∷ [])
  Distinct-append [] s d p = (tt, tt)
  Distinct-append (x ∷ xs) s d p = (
    All-append (λ y. y ≢ x) xs (s ∷ []) d.0 ((λ e. p.0 (sym e)), tt),
    Distinct-append xs s d.1 p.1,
  )
