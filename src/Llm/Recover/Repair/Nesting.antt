-- ===== src/Llm/Recover/Repair/Nesting.antt =====
-- Proper nesting of the delimiters of JSON, by which `repair_truncated_json` of
-- crates/vlorql-llm/src/parser_v2/recover/bracket.rs is judged.
use vlor_ql.Common.{
  ℕ, ◌≡◌, refl, subst, ap, some-injective, List, [], ◌∷◌, ◌++◌, map, if◌then◌else◌, nat_eq, ◌⊎◌,
  inl, inr, Option, none, some, ◌>>=◌, Option-cases, arith, All,
}
use vlor_ql.Llm.Recover.Chars.{
  Str, quote, backslash, open_brace, close_brace, open_bracket, close_bracket,
}

-- The delimiter that closes what an opening delimiter opens.
abbrev pub closer_of : ℕ → ℕ
closer_of opener = if nat_eq opener open_brace then close_brace else close_bracket

-- A closing delimiter has to match the innermost open one.
unfoldable pub close_innermost : ℕ → List ℕ → Option (List ℕ)
close_innermost opener [] = none
close_innermost opener (o ∷ opened) = if nat_eq o opener then some opened else none

-- What a character outside string literals does to the open delimiters, the innermost first.
unfoldable pub nesting_step : List ℕ → ℕ → Option (List ℕ)
unfolding close_innermost
nesting_step opened ch =
    let by_brace = close_innermost open_brace opened in
    let by_bracket = close_innermost open_bracket opened in
    if nat_eq ch open_brace
    then some (open_brace ∷ opened)
    else if nat_eq ch open_bracket
    then some (open_bracket ∷ opened)
    else if nat_eq ch close_brace
    then by_brace
    else if nat_eq ch close_bracket
    then by_bracket
    else some opened

-- Where a text stands: outside string literals, inside one, or behind a backslash inside one.
pub data Position : Type 0 where
  outside : Position
  inside : Position
  behind_backslash : Position

abbrev pub inside_step : ℕ → Position
inside_step ch =
    if nat_eq ch backslash then behind_backslash else if nat_eq ch quote then outside else inside

-- The delimiters that the text leaves open, and the position at its end; nothing if a delimiter is closed
-- by another one than its own.
unfoldable pub nesting : List ℕ → Position → Str → Option (List ℕ × Position)
unfolding nesting_step
nesting opened at [] = some (opened, at)
nesting opened behind_backslash (ch ∷ rest) = nesting opened inside rest
nesting opened inside (ch ∷ rest) = nesting opened (inside_step ch) rest
nesting opened outside (ch ∷ rest) = nesting_step opened ch >>= λ next.
    nesting next (if nat_eq ch quote then inside else outside) rest

pub nesting-append :
    (opened : List ℕ) (at : Position) (s t : Str) (opened' : List ℕ) (at' : Position)
    → nesting opened at s ≡ some (opened', at')
    → nesting opened at (s ++ t) ≡ nesting opened' at' t
unfolding nesting
nesting-append opened at [] t opened' at' h = cc
nesting-append opened behind_backslash (ch ∷ s) t opened' at' h =
    nesting-append opened inside s t opened' at' h
nesting-append opened inside (ch ∷ s) t opened' at' h =
    nesting-append opened (inside_step ch) s t opened' at' h
nesting-append opened outside (ch ∷ s) t opened' at' h =
    elim (Option-cases (nesting_step opened ch)) [
      | inl e ↦ let bad : none ≡ some (opened', at') = rw (nesting, e) at h in absurd cc
      | inr (next, e) ↦ rw e (
          nesting-append next (if nat_eq ch quote then inside else outside) s t opened' at'
            (rw (nesting, e) at h))
    ]

abbrev pub Openers : List ℕ → Type 0
Openers = All (λ o. (o ≡ open_brace) ⊎ (o ≡ open_bracket))

nesting_step-Openers :
    (opened : List ℕ) (ch : ℕ) (next : List ℕ)
    → Openers opened
    → nesting_step opened ch ≡ some next
    → Openers next
unfolding nesting_step close_innermost
nesting_step-Openers [] ch next h e = ground arith
nesting_step-Openers (o ∷ opened) ch next h e = ground arith

pub nesting-Openers :
    (opened : List ℕ) (at : Position) (s : Str) (opened' : List ℕ) (at' : Position)
    → Openers opened
    → nesting opened at s ≡ some (opened', at')
    → Openers opened'
unfolding nesting
nesting-Openers opened at [] opened' at' o h = subst Openers (ap (λ p. p.0) (some-injective h)) o
nesting-Openers opened behind_backslash (ch ∷ s) opened' at' o h =
    nesting-Openers opened inside s opened' at' o h
nesting-Openers opened inside (ch ∷ s) opened' at' o h =
    nesting-Openers opened (inside_step ch) s opened' at' o h
nesting-Openers opened outside (ch ∷ s) opened' at' o h =
    elim (Option-cases (nesting_step opened ch)) [
      | inl e ↦ let bad : none ≡ some (opened', at') = rw (nesting, e) at h in absurd cc
      | inr (next, e) ↦
          nesting-Openers next (if nat_eq ch quote then inside else outside) s opened' at'
            (nesting_step-Openers opened ch next o e) (rw (nesting, e) at h)
    ]

-- The closing delimiters of what is open close it.
pub nesting-closers :
    (opened : List ℕ)
    → Openers opened
    → nesting opened outside (map closer_of opened) ≡ some ([], outside)
unfolding nesting nesting_step close_innermost
nesting-closers [] h = refl
nesting-closers (o ∷ opened) h = elim h.0 [
  | inl e ↦ rw e (nesting-closers opened h.1)
  | inr e ↦ rw e (nesting-closers opened h.1)
]
