-- ===== src/Llm/Sse/Lines/Cut.antt =====
-- How `take_line` of crates/vlorql-llm/src/sse.rs finds the end of a line.
use vlor_ql.Common.{
  ℕ, ◌+◌, ◌<◌, ◌≡◌, ap, ◌∙◌, ◌⊎◌, inl, inr, List, [], ◌∷◌, ◌++◌, true, false, nat_eq, length, arith,
  Bool-cases, none, some, Option-cases,
}
use vlor_ql.Llm.Sse.Lines.{cut}

pub length-append : (xs ys : List ℕ) → length (xs ++ ys) ≡ length xs + length ys
length-append [] ys = omega arith
length-append (x ∷ xs) ys = let ih = length-append xs ys in omega arith

pub cut-some :
    (c : ℕ) (b x y : List ℕ)
    → cut (c ∷ b) ≡ some (x, y)
    → ((nat_eq c 10 ≡ true) × ([] ≡ x) × (b ≡ y))
      ⊎ ((nat_eq c 10 ≡ false) × (before : List ℕ) × (cut b ≡ some (before, y)) × (c ∷ before ≡ x))
unfolding cut
cut-some c b x y h = elim (Bool-cases (nat_eq c 10)) [
  | inl e ↦ inl (e, ground arith, ground arith)
  | inr e ↦ elim (Option-cases (cut b)) [
    | inl n ↦ let never = rw (cut, e, n) at h in cc
    | inr (p, s) ↦
        let same : some (c ∷ p.0, p.1) ≡ some (x, y) = rw (cut, e, s) at h in
        let rest : p.1 ≡ y = cc in
        let first : c ∷ p.0 ≡ x = cc in inr (e, p.0, s ∙ ap (λ z. some (p.0, z)) rest, first)
  ]
]

pub cut-none : (c : ℕ) (b : List ℕ) → cut (c ∷ b) ≡ none → (nat_eq c 10 ≡ false) × (cut b ≡ none)
unfolding cut
cut-none c b h = elim (Bool-cases (nat_eq c 10)) [
  | inl e ↦ let never = rw (cut, e) at h in cc
  | inr e ↦ elim (Option-cases (cut b)) [
    | inl n ↦ (e, n)
    | inr (p, s) ↦ let never = rw (cut, e, s) at h in cc
  ]
]

pub cut-length : (b x y : List ℕ) → cut b ≡ some (x, y) → length y < length b
unfolding cut
cut-length [] x y h = cc
cut-length (c ∷ b) x y h = elim (cut-some c b x y h) [
  | inl (e, first, rest) ↦ rw (← rest) (omega arith)
  | inr (e, before, s, same) ↦ let ih = cut-length b before y s in omega arith
]
