-- ===== src/Common/Positions.antt =====
-- Elements of a list by position, where the list grows at its end.
use Prim.Native.Nat.{ℕ, zero, suc, ◌<◌}
use mathlib.Core.Path.{◌≡◌, refl, ap}
use mathlib.Core.Logic.{◌⊎◌, inl, inr}
use mathlib.Core.Option.{some}
use mathlib.Core.List.{List, [], ◌∷◌, ◌++◌}
use native.Mathlib.Omega.{arith}
use vlor_ql.Common.Lists.{length, get_elem?}

module _ {ℓ} {A : Type ℓ} where
  pub length-append_one : (xs : List A) (x : A) → length (xs ++ x ∷ []) ≡ suc (length xs)
  length-append_one [] x = refl
  length-append_one (y ∷ xs) x = ap suc (length-append_one xs x)

  pub get_elem?_bound : (xs : List A) (i : ℕ) {a : A} → get_elem? xs i ≡ some a → i < length xs
  get_elem?_bound [] i h = cc
  get_elem?_bound (x ∷ xs) zero h = omega arith
  get_elem?_bound (x ∷ xs) (suc i) h = let ih = get_elem?_bound xs i h in omega arith

  pub get_elem?_append :
      (xs ys : List A) (i : ℕ) {a : A} → get_elem? xs i ≡ some a → get_elem? (xs ++ ys) i ≡ some a
  get_elem?_append [] ys i h = cc
  get_elem?_append (x ∷ xs) ys zero h = h
  get_elem?_append (x ∷ xs) ys (suc i) h = get_elem?_append xs ys i h

  pub get_elem?_end : (xs : List A) (x : A) → get_elem? (xs ++ x ∷ []) (length xs) ≡ some x
  get_elem?_end [] x = refl
  get_elem?_end (y ∷ xs) x = get_elem?_end xs x

  pub get_elem?_append_cases :
      (xs : List A) (x : A) (i : ℕ) {a : A}
      → get_elem? (xs ++ x ∷ []) i ≡ some a
      → (get_elem? xs i ≡ some a) ⊎ ((i ≡ length xs) × (x ≡ a))
  get_elem?_append_cases [] x zero h = inr (refl, cc)
  get_elem?_append_cases [] x (suc i) h = cc
  get_elem?_append_cases (y ∷ xs) x zero h = inl h
  get_elem?_append_cases (y ∷ xs) x (suc i) h = elim (get_elem?_append_cases xs x i h) [
    | inl e ↦ inl e
    | inr e ↦ inr (ap suc e.0, e.1)
  ]
