-- ===== src/Validate/Dialect/Uses/Pushes.antt =====
-- When a test that pushes an error leaves the errors empty, for the tests of
-- crates/vlorql-core/src/validate/dialect.rs.
use vlor_ql.Common.{
  ℕ, ◌≡◌, refl, subst, ◌↔◌, ◌⊎◌, inl, inr, Bool, true, false, not, ◌&&◌, ◌||◌, nat_eq, Option, none,
  some, List, [], ◌∷◌, ◌++◌, is_empty, arith, Bool-cases,
}
use vlor_ql.Common.Checks.{Checks, Checks-iff}
use vlor_ql.Common.Lists.{append-not_empty, any, Member, here, there}
use vlor_ql.Errors.{VlorQlError}
use vlor_ql.Schema.Types.{JoinType}
use vlor_ql.Validate.Dialect.{Errors, push_if, join_index, exceeds}
use vlor_ql.Validate.Dialect.Uses.{WithinLimit}

abbrev pub errors_of : Errors → Errors
errors_of es = es

abbrev pub Always : Errors → Type 0
Always es = Unit

abbrev pub Leaves : (Errors → Errors) → Type 0 → Type 0
Leaves f P = Checks errors_of Always f P

pub push-Leaves : (e : VlorQlError) → Leaves (λ es. es ++ e ∷ []) ⊥
push-Leaves e = record {
  keeps = λ es _. tt;
  sound = λ es _ h. elim (append-not_empty es e h) [ ];
  complete = λ es _ h p. elim p [ ];
}

push_if-Leaves : (b : Bool) (e : VlorQlError) → Leaves (push_if b e) (b ≡ false)
push_if-Leaves false e = record {
  keeps = λ es _. tt;
  sound = λ es _ h. (h, refl);
  complete = λ es _ h p. h;
}
push_if-Leaves true e = record {
  keeps = λ es _. tt;
  sound = λ es _ h. elim (append-not_empty es e h) [ ];
  complete = λ es _ h p. cc;
}

-- A push whose test is the negation of `P`.
pub push_if_iff :
    (b : Bool) (e : VlorQlError) {P : Type 0} → (b ≡ false) ↔ P → Leaves (push_if b e) P
push_if_iff b e same = Checks-iff errors_of Always (push_if b e) same (push_if-Leaves b e)

pub not_iff : (b : Bool) → (not b ≡ false) ↔ (b ≡ true)
not_iff true = (λ h. refl, λ h. refl)
not_iff false = (λ h. cc, λ h. cc)

pub without_iff : (b c : Bool) → (b && not c ≡ false) ↔ ((b ≡ false) ⊎ (c ≡ true))
without_iff true true = (λ h. inr refl, λ h. refl)
without_iff true false = (λ h. cc, λ h. elim h [ inl e ↦ cc | inr e ↦ cc ])
without_iff false c = (λ h. inl refl, λ h. refl)

pub neither_iff : (b c : Bool) → (b || not c ≡ false) ↔ ((b ≡ false) × (c ≡ true))
neither_iff true c = (λ h. cc, λ h. let never = h.0 in cc)
neither_iff false c = let e = not_iff c in (λ h. (refl, e.0 h), λ h. e.1 h.1)

pub exceeds_iff : (max : Option ℕ) (n : ℕ) → (exceeds max n ≡ false) ↔ WithinLimit max n
exceeds_iff none n = (λ h. tt, λ h. refl)
exceeds_iff (some max) n = ground arith

join_index-injective : (a b : JoinType) → nat_eq (join_index a) (join_index b) ≡ true → a ≡ b
join_index-injective a b h = ground arith

any_join-Member :
    (kind : JoinType) (l : List JoinType)
    → (any (λ t. nat_eq (join_index t) (join_index kind)) l ≡ true) ↔ Member kind l
unfolding any
any_join-Member kind [] = (λ h. cc, λ m. elim m [ ])
any_join-Member kind (t ∷ l) =
    let ih = any_join-Member kind l in
    (
      λ h. elim (Bool-cases (nat_eq (join_index t) (join_index kind))) [
        | inl e ↦ here (join_index-injective t kind e)
        | inr e ↦ there (ih.0 (ground arith))
      ],
      λ m. elim m [
        | here e ↦
            subst
              (λ k.
                (nat_eq (join_index t) (join_index k)
                  || any (λ u. nat_eq (join_index u) (join_index k)) l)
                ≡ true)
              e (ground arith)
        | there n ↦ let found = ih.1 n in ground arith
      ],
    )

-- A list of kinds that is empty allows all of them.
pub kinds_iff :
    (kind : JoinType) (l : List JoinType)
    → (not (is_empty l) && not (any (λ t. nat_eq (join_index t) (join_index kind)) l) ≡ false)
      ↔ ((l ≡ []) ⊎ Member kind l)
kinds_iff kind [] = (λ h. inl refl, λ h. refl)
kinds_iff kind (t ∷ l) =
    let m = any_join-Member kind (t ∷ l) in
    let n = not_iff (any (λ t. nat_eq (join_index t) (join_index kind)) (t ∷ l)) in
    (λ h. inr (m.0 (n.0 h)), λ h. elim h [ inl e ↦ cc | inr found ↦ n.1 (m.1 found) ])
