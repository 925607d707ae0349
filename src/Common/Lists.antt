-- ===== src/Common/Lists.antt =====
-- Lists measured by native numbers, membership of texts, and predicates by recursion.
use Prim.Native.Nat.{ℕ, suc, ◌+◌, ◌≤◌}
use Prim.Native.String.{String}
use mathlib.Core.Path.{◌≡◌, refl}
use mathlib.Core.Bool.{Bool, false, ◌||◌}
use mathlib.Core.List.{List, [], ◌∷◌, ◌++◌}
use native.Mathlib.Omega.{arith}
use text.Mathlib.Text.{◌==◌ as str_eq}
use text.Mathlib.TextEquality.{eq_iff}
use excelsior.Common.Tests.{if◌then◌else◌}

module _ {ℓ} {A : Type ℓ} where
  abbrev pub length : List A → ℕ
  length [] = 0
  length (x ∷ xs) = suc (length xs)

  pub length-append : (xs ys : List A) → length (xs ++ ys) ≡ length xs + length ys
  length-append [] ys = omega arith
  length-append (x ∷ xs) ys = omega (arith, length-append xs ys)

  -- The sum of a measure over a list.
  abbrev pub sum_of : (A → ℕ) → List A → ℕ
  sum_of f [] = 0
  sum_of f (x ∷ xs) = f x + sum_of f xs

  pub sum_of-append : (f : A → ℕ) (xs ys : List A) → sum_of f (xs ++ ys) ≡ sum_of f xs + sum_of f ys
  sum_of-append f [] ys = omega arith
  sum_of-append f (x ∷ xs) ys = omega (arith, sum_of-append f xs ys)

abbrev pub All {ℓ κ} : {A : Type ℓ} → (A → Type κ) → List A → Type κ
All P [] = Unit
All P (x ∷ xs) = P x × All P xs

pub All-append {ℓ κ} :
    {A : Type ℓ} (P : A → Type κ) (xs ys : List A) → All P xs → All P ys → All P (xs ++ ys)
All-append P [] ys hx hy = hy
All-append P (x ∷ xs) ys hx hy = (hx.0, All-append P xs ys hx.1 hy)

-- Membership of a text, and lists without repetition.
abbrev pub contains : String → List String → Bool
contains k [] = false
contains k (x ∷ xs) = str_eq x k || contains k xs

abbrev pub Distinct : List String → Type 0
Distinct [] = Unit {0}
Distinct (x ∷ xs) = (contains x xs ≡ false) × Distinct xs

-- The first occurrence taken out.
abbrev pub remove_first : String → List String → List String
remove_first k [] = []
remove_first k (x ∷ xs) = if str_eq x k then xs else x ∷ remove_first k xs

pub contains-append :
    (k : String) (xs ys : List String) → contains k (xs ++ ys) ≡ (contains k xs || contains k ys)
contains-append k [] ys = refl
contains-append k (x ∷ xs) ys = ground (arith, contains-append k xs ys)

pub contains-remove_first :
    (k j : String) (xs : List String)
    → Distinct xs
    → contains j (remove_first k xs) ≡ (if str_eq k j then false else contains j xs)
contains-remove_first k j [] d = ground arith
contains-remove_first k j (x ∷ xs) d =
    ground (arith, contains-remove_first k j xs d.1, eq_iff x k, eq_iff x j, eq_iff k j)

pub remove_first-Distinct :
    (k : String) (xs : List String) → Distinct xs → Distinct (remove_first k xs)
remove_first-Distinct k [] d = tt
remove_first-Distinct k (x ∷ xs) d =
    ground (arith, remove_first-Distinct k xs d.1, contains-remove_first k x xs d.1, eq_iff k x)

pub length-remove_first : (k : String) (xs : List String) → length (remove_first k xs) ≤ length xs
length-remove_first k [] = omega arith
length-remove_first k (x ∷ xs) = ground (arith, length-remove_first k xs)

pub append-Distinct :
    (k : String) (xs : List String) → Distinct xs → contains k xs ≡ false → Distinct (xs ++ k ∷ [])
append-Distinct k [] d h = (refl, tt)
append-Distinct k (x ∷ xs) d h =
    ground (arith, append-Distinct k xs d.1, contains-append x xs (k ∷ []), eq_iff k x, eq_iff x k)
