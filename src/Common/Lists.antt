-- ===== src/Common/Lists.antt =====
-- Lists by native numbers, tests over lists, and the predicate that holds of all elements.
use Prim.Native.Nat.{ℕ, zero, suc}
use mathlib.Core.Path.{◌≡◌, refl, subst}
use mathlib.Core.Logic.{◌↔◌, inl, inr}
use mathlib.Core.Bool.{Bool, true, false, ◌&&◌, ◌||◌}
use mathlib.Core.Option.{Option, none, some}
use mathlib.Core.List.{List, [], ◌∷◌, ◌++◌}
use native.Mathlib.Omega.{arith}
use vlor_ql.Common.Tests.{if◌then◌else◌, Bool-cases}

module _ {ℓ} {A : Type ℓ} where
  abbrev pub length : List A → ℕ
  length [] = 0
  length (x ∷ xs) = suc (length xs)

  abbrev pub drop : ℕ → List A → List A
  drop zero xs = xs
  drop (suc n) [] = []
  drop (suc n) (x ∷ xs) = drop n xs

  abbrev pub take : ℕ → List A → List A
  take zero xs = []
  take (suc n) [] = []
  take (suc n) (x ∷ xs) = x ∷ take n xs

  abbrev pub get_elem? : List A → ℕ → Option A
  get_elem? [] i = none
  get_elem? (x ∷ xs) zero = some x
  get_elem? (x ∷ xs) (suc i) = get_elem? xs i

  -- `iter().any(..)`
  unfoldable pub any : (A → Bool) → List A → Bool
  any p [] = false
  any p (x ∷ xs) = p x || any p xs

  -- `iter().all(..)`
  unfoldable pub all : (A → Bool) → List A → Bool
  all p [] = true
  all p (x ∷ xs) = p x && all p xs

  -- `iter().filter(..).collect()`
  unfoldable pub keep : (A → Bool) → List A → List A
  keep p [] = []
  keep p (x ∷ xs) = let rest = keep p xs in if p x then x ∷ rest else rest

  -- `iter().find(..)`
  unfoldable pub find : (A → Bool) → List A → Option A
  find p [] = none
  find p (x ∷ xs) = let rest = find p xs in if p x then some x else rest

  abbrev pub is_empty : List A → Bool
  is_empty [] = true
  is_empty (x ∷ xs) = false

module _ {ℓ κ} {A : Type ℓ} {S : Type κ} where
  -- `for x in xs { .. }`, where the body changes a state.
  abbrev pub for_each : (A → S → S) → List A → S → S
  for_each f [] s = s
  for_each f (x ∷ xs) s = for_each f xs (f x s)

module _ {ℓ κ} {A : Type ℓ} where
  abbrev pub All : (A → Type κ) → List A → Type κ
  All P [] = Unit
  All P (x ∷ xs) = P x × All P xs

  pub All-append : (P : A → Type κ) (xs ys : List A) → All P (xs ++ ys) ↔ (All P xs × All P ys)
  All-append P [] ys = (λ h. (tt, h), λ h. h.1)
  All-append P (x ∷ xs) ys =
      let ih = All-append P xs ys in
      (λ h. ((h.0, (ih.0 h.1).0), (ih.0 h.1).1), λ h. (h.0.0, ih.1 (h.0.1, h.1)))

-- A member of a list, by position.
pub data Member {ℓ} {A : Type ℓ} (a : A) : List A → Type ℓ where
  here : {x : A} {xs : List A} → x ≡ a → Member a (x ∷ xs)
  there : {x : A} {xs : List A} → Member a xs → Member a (x ∷ xs)

pub Member-append_left {ℓ} :
    {A : Type ℓ} (xs ys : List A) {a : A} → Member a xs → Member a (xs ++ ys)
Member-append_left [] ys m = elim m [ ]
Member-append_left (x ∷ xs) ys (here e) = here e
Member-append_left (x ∷ xs) ys (there m) = there (Member-append_left xs ys m)

pub Member-append_right {ℓ} :
    {A : Type ℓ} (xs ys : List A) {a : A} → Member a ys → Member a (xs ++ ys)
Member-append_right [] ys m = m
Member-append_right (x ∷ xs) ys m = there (Member-append_right xs ys m)

pub All-Member {ℓ κ} :
    {A : Type ℓ} (P : A → Type κ) (xs : List A) {a : A} → All P xs → Member a xs → P a
All-Member P [] h m = elim m [ ]
All-Member P (x ∷ xs) h (here e) = subst P e h.0
All-Member P (x ∷ xs) h (there m) = All-Member P xs h.1 m

pub find-Member {ℓ} :
    {A : Type ℓ} (p : A → Bool) (xs : List A) (a : A)
    → find p xs ≡ some a
    → Member a xs × (p a ≡ true)
unfolding find
find-Member p [] a h = cc
find-Member p (x ∷ xs) a h = elim (Bool-cases (p x)) [
  | inl e ↦ let same : x ≡ a = ground arith in (here same, rw same at e)
  | inr e ↦ let (m, t) = find-Member p xs a (rw e at h) in (there m, t)
]

-- `any` answers whether some member passes.
pub any_sound {ℓ} :
    {A : Type ℓ} (p : A → Bool) (xs : List A)
    → any p xs ≡ true
    → (a : A) × Member a xs × (p a ≡ true)
unfolding any
any_sound p [] h = cc
any_sound p (x ∷ xs) h = elim (Bool-cases (p x)) [
  | inl e ↦ (x, here refl, e)
  | inr e ↦ let (a, m, t) = any_sound p xs (rw e at h) in (a, there m, t)
]

pub any_complete {ℓ} :
    {A : Type ℓ} (p : A → Bool) (xs : List A) {a : A} → Member a xs → p a ≡ true → any p xs ≡ true
unfolding any
any_complete p [] m t = elim m [ ]
any_complete p (x ∷ xs) (here e) t = rw (e, t)
any_complete p (x ∷ xs) (there m) t = ground (arith, any_complete p xs m t)

pub append-not_empty : {A : Type 0} (xs : List A) (x : A) → ¬ (xs ++ x ∷ [] ≡ [])
append-not_empty [] x h = cc
append-not_empty (y ∷ xs) x h = cc
