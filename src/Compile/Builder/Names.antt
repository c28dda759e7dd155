-- ===== src/Compile/Builder/Names.antt =====
-- The names that the query builder writes without quotes: `render_function_name` of
-- crates/vlorql-core/src/compile/builder/expr.rs, and `quote_identifier` of clause.rs under the style `never`.
use vlor_ql.Common.{
  ℕ, ◌+◌, ◌≤◌, ◌⊎◌, All, map, Bool, true, false, ◌||◌, List, [], ◌∷◌, ◌≡◌, refl, sym, inl, inr,
  arith, Bool-cases, if◌then◌else◌, nat_eq, is_empty,
}
use mathlib.Core.Path.{subst, ap₂}
use vlor_ql.Common.Lists.{all, any, Member, here, there}
use vlor_ql.Common.Text.{Text, bytes, ◌==◌, ==_refl}
use vlor_ql.Compile.Builder.{
  reserved_keywords, is_reserved_keyword, unquoted_identifier, quote_identifier,
}
use vlor_ql.Compile.Builder.Keywords.{split_dots, add_to_first, render_function_name}
use vlor_ql.Compile.Dialect.{DialectConfig, is_word_start, is_word_char, is_word, upper}
use vlor_ql.Errors.{VlorQlError}
use vlor_ql.Compile.Sql.{Outcome, ok, err}

-- A letter, a digit, an underscore or a dot.
unfoldable pub is_name_char : ℕ → Bool
is_name_char c = is_word_char c || nat_eq c b'.'

is_word-chars : (s : Text) → is_word s ≡ true → all is_word_char s ≡ true
unfolding is_word all is_word_char
is_word-chars [] h = refl
is_word-chars (c ∷ cs) h = ground arith

all_words-chars : (ss : List Text) → all is_word ss ≡ true → all (all is_word_char) ss ≡ true
unfolding all
all_words-chars [] h = refl
all_words-chars (s ∷ ss) h =
    let first = is_word-chars s (ground arith) in
    let rest = all_words-chars ss (ground arith) in rw (first, rest) refl

add_to_first-chars :
    (c : ℕ) (ss : List Text)
    → all (all is_word_char) (add_to_first c ss) ≡ true
    → (is_word_char c ≡ true) × (all (all is_word_char) ss ≡ true)
unfolding all
add_to_first-chars c [] h = (ground arith, refl)
add_to_first-chars c (s ∷ ss) h = (ground arith, ground arith)

split_dots-chars :
    (s : Text) → all (all is_word_char) (split_dots s) ≡ true → all is_name_char s ≡ true
unfolding split_dots all is_name_char
split_dots-chars [] h = refl
split_dots-chars (c ∷ cs) h = elim (Bool-cases (nat_eq c b'.')) [
  | inl dot ↦ let rest = split_dots-chars cs (rw dot at h) in rw (dot, rest) (ground arith)
  | inr other ↦
      let (first, below) = add_to_first-chars c (split_dots cs) (rw other at h) in
      rw (first, split_dots-chars cs below) refl
]

-- A test that gives an error when it fails, and a text else.
checked :
    (b : Bool) (e : VlorQlError) (o : Outcome) (t : Text)
    → (if b then o else err e) ≡ ok t
    → (b ≡ true) × (o ≡ ok t)
checked true e o t h = (refl, h)
checked false e o t h = cc

refused_or :
    (b : Bool) (e : VlorQlError) (o : Outcome) (t : Text)
    → (if b then err e else o) ≡ ok t
    → (b ≡ false) × (o ≡ ok t)
refused_or true e o t h = cc
refused_or false e o t h = (refl, h)

-- A function name that is accepted is written as it is, and each of its characters is an ASCII letter, a
-- digit, an underscore or a dot.
render_function_name-chars :
    (name t : Text) → render_function_name name ≡ ok t → (t ≡ name) × (all is_name_char t ≡ true)
unfolding render_function_name
render_function_name-chars name t h =
    let (_, named) = refused_or (is_empty name) _ _ t h in
    let (words, same) = checked (all is_word (split_dots name)) _ _ t named in
    let equal : name ≡ t = cc in
    let chars = split_dots-chars name (all_words-chars (split_dots name) words) in
    (sym equal, subst (λ x. all is_name_char x ≡ true) equal chars)

abbrev pub IsUpper : ℕ → Type 0
IsUpper c = (65 ≤ c) × (c ≤ 90)

abbrev pub IsLetter : ℕ → Type 0
IsLetter c = IsUpper c ⊎ ((97 ≤ c) × (c ≤ 122))

abbrev pub IsDigit : ℕ → Type 0
IsDigit c = (48 ≤ c) × (c ≤ 57)

abbrev pub IsUnderscore : ℕ → Type 0
IsUnderscore c = c ≡ 95

-- A letter or an underscore, and then letters, digits and underscores.
abbrev pub IsIdentifier : Text → Type 0
IsIdentifier [] = ⊥
IsIdentifier (c ∷ cs) =
    (IsLetter c ⊎ IsUnderscore c) × All (λ d. IsLetter d ⊎ (IsDigit d ⊎ IsUnderscore d)) cs

-- The text is the word of upper case letters, each in one of its two cases.
abbrev pub Spells : Text → Text → Type 0
Spells [] [] = Unit
Spells [] (k ∷ ks) = ⊥
Spells (c ∷ cs) [] = ⊥
Spells (c ∷ cs) (k ∷ ks) = (IsUpper k × ((c ≡ k) ⊎ (c ≡ k + 32))) × Spells cs ks

word_chars :
    (cs : Text)
    → all is_word_char cs ≡ true
    → All (λ d. IsLetter d ⊎ (IsDigit d ⊎ IsUnderscore d)) cs
unfolding all is_word_char is_word_start
word_chars [] h = tt
word_chars (c ∷ cs) h = (ground arith, word_chars cs (ground arith))

is_word-IsIdentifier : (s : Text) → is_word s ≡ true → IsIdentifier s
unfolding is_word is_word_start
is_word-IsIdentifier [] h = cc
is_word-IsIdentifier (c ∷ cs) h = (ground arith, word_chars cs (ground arith))

Spells-upper : (cs ks : Text) → Spells cs ks → map upper cs ≡ ks
unfolding upper
Spells-upper [] [] h = refl
Spells-upper [] (k ∷ ks) h = elim h [ ]
Spells-upper (c ∷ cs) [] h = elim h [ ]
Spells-upper (c ∷ cs) (k ∷ ks) h =
    let first : upper c ≡ k = ground arith in ap₂ (λ x xs. x ∷ xs) first (Spells-upper cs ks h.1)

any-Member :
    (p : Text → Bool) (ks : List Text) (k : Text) → any p ks ≡ false → Member k ks → p k ≡ false
unfolding any
any-Member p [] k h m = elim m [ ]
any-Member p (x ∷ ks) k h (here e) = subst (λ y. p y ≡ false) e (ground arith)
any-Member p (x ∷ ks) k h (there m) = any-Member p ks k (ground arith) m

is_reserved_keyword-Spells :
    (t k : Text) → is_reserved_keyword t ≡ false → Member k reserved_keywords → ¬ Spells t k
unfolding is_reserved_keyword
is_reserved_keyword-Spells t k free m spelt =
    let other = any-Member (λ keyword. keyword == map upper t) reserved_keywords k free m in
    let same : (k == map upper t) ≡ true = rw (Spells-upper t k spelt) (==_refl k) in absurd cc

-- Under the style `never`, an identifier that is accepted is written as it is; it is an ASCII letter or an
-- underscore, followed by ASCII letters, digits and underscores; and it spells none of the reserved keywords
-- of the builder, in whatever case its letters are.
pub quote_identifier-never :
    (config : DialectConfig) (ident t : Text)
    → (config.identifier_quote == bytes "never") ≡ true
    → quote_identifier config ident ≡ ok t
    → (t ≡ ident) × IsIdentifier t × ((k : Text) → Member k reserved_keywords → ¬ Spells t k)
unfolding quote_identifier unquoted_identifier
quote_identifier-never config ident t never h =
    let (_, styled) = refused_or (is_empty ident) _ _ t h in
    let unquoted : unquoted_identifier ident ≡ ok t = rw never at styled in
    let (word, free) = checked (is_word ident) _ _ t unquoted in
    let (reserved, same) = refused_or (is_reserved_keyword ident) _ _ t free in
    let equal : ident ≡ t = cc in
    (
      sym equal,
      subst IsIdentifier equal (is_word-IsIdentifier ident word),
      λ k m. subst (λ x. ¬ Spells x k) equal (is_reserved_keyword-Spells ident k reserved m),
    )
