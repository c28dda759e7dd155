-- ===== src/Compile/Dialect/Quoting.antt =====
-- Quoted identifiers read back: a lexer of quoted identifiers, as SQL defines them, recovers the name and
-- stops where it ends, whatever characters the name has.
use vlor_ql.Common.{
  ℕ, false, Option, none, some, [], ◌∷◌, ◌++◌, ◌≡◌, ◌≢◌, refl, ◌∙◌, arith, if◌then◌else◌, nat_eq,
}
use mathlib.Core.List.{append_assoc}
use vlor_ql.Common.Lists.{drop}
use vlor_ql.Common.Text.{Text, bytes, ◌==◌}
use vlor_ql.Compile.Dialect.{enclose, quote_with}

abbrev pub prepend : ℕ → Option (Text × Text) → Option (Text × Text)
prepend c none = none
prepend c (some (name, rest)) = some (c ∷ name, rest)

-- Behind the opening quote: a doubled quote stands for a quote, a single one ends the name.
unfoldable pub lex_body : ℕ → Text → Option (Text × Text)
lex_body q [] = none
lex_body q (c ∷ []) = if nat_eq c q then some ([], []) else none
lex_body q (c ∷ d ∷ cs) =
    let skip = prepend q (lex_body q cs) in
    let next = prepend c (lex_body q (d ∷ cs)) in
    if nat_eq c q then (if nat_eq d q then skip else some ([], d ∷ cs)) else next

unfoldable pub lex_identifier : Text → Option (Text × Text)
lex_identifier [] = none
lex_identifier (q ∷ cs) = lex_body q cs

abbrev pub NotBefore : ℕ → Text → Type 0
NotBefore q [] = Unit
NotBefore q (c ∷ cs) = nat_eq c q ≡ false

lex_body-end : (q : ℕ) (rest : Text) → NotBefore q rest → lex_body q (q ∷ rest) ≡ some ([], rest)
unfolding lex_body
lex_body-end q [] h = ground arith
lex_body-end q (c ∷ cs) h = ground arith

lex_body-plain :
    (q c : ℕ) (cs : Text)
    → nat_eq c q ≡ false
    → cs ≢ []
    → lex_body q (c ∷ cs) ≡ prepend c (lex_body q cs)
unfolding lex_body
lex_body-plain q c [] h n = absurd (n refl)
lex_body-plain q c (d ∷ cs) h n = rw h

append_ne_nil : (xs : Text) (q : ℕ) (ys : Text) → xs ++ q ∷ ys ≢ []
append_ne_nil [] q ys h = cc
append_ne_nil (x ∷ xs) q ys h = cc

-- The character that a style quotes with.
unfoldable pub quote_char : Text → ℕ
quote_char style = if style == bytes "backtick" then b'`' else b'"'

-- No character of the text is a closing bracket.
abbrev pub NoBracket : Text → Type 0
NoBracket [] = Unit
NoBracket (c ∷ cs) = (nat_eq c b']' ≡ false) × NoBracket cs

lex_body-bracket :
    (a rest : Text)
    → NoBracket a
    → NotBefore b']' rest
    → lex_body b']' (a ++ b']' ∷ rest) ≡ some (a, rest)
lex_body-bracket [] rest h n = lex_body-end b']' rest n
lex_body-bracket (c ∷ cs) rest h n =
    lex_body-plain b']' c (cs ++ b']' ∷ rest) h.0 (append_ne_nil cs b']' rest)
    ∙ rw (lex_body-bracket cs rest h.1 n)

bracket_style : (ident : Text) → quote_with (bytes "bracket") ident ≡ enclose b'[' b']' ident
unfolding quote_with ◌==◌
bracket_style ident = refl

-- Under the style `bracket`, a name whose first closing bracket is neither its last character nor followed by
-- another closing bracket ends its own quotes there: the lexer takes the part before the bracket for the
-- name, and what follows the bracket is left behind as SQL.
pub quote_with_bracket_leaks :
    (a b rest : Text)
    → NoBracket a
    → NotBefore b']' (b ++ b']' ∷ rest)
    → lex_body b']' (drop 1 (quote_with (bytes "bracket") (a ++ b']' ∷ b) ++ rest))
      ≡ some (a, b ++ b']' ∷ rest)
quote_with_bracket_leaks a b rest h n =
    rw bracket_style (simp append_assoc (lex_body-bracket a (b ++ b']' ∷ rest) h n))
