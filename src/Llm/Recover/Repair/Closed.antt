-- ===== src/Llm/Recover/Repair/Closed.antt =====
-- What `repair_truncated_json` of crates/vlorql-llm/src/parser_v2/recover/bracket.rs makes of a text that was
-- cut off.
use vlor_ql.Common.{
  ℕ, suc, ◌+◌, ◌≡◌, refl, sym, ap, ◌∙◌, List, [], ◌∷◌, ◌++◌, map, Bool, true, false, if◌then◌else◌,
  nat_eq, leb, none, some, some-injective, Option-cases, Bool-cases, inl, inr, arith,
}
use mathlib.Core.List.{append_assoc, append-nil}
use std.Path.{ap₂}
use vlor_ql.Common.Lists.{length}
use vlor_ql.Llm.Recover.Bracket.{string_step}
use vlor_ql.Llm.Recover.Chars.{Str, quote, trim}
use vlor_ql.Llm.Recover.Json.{JsonParser, is_valid_json}
use vlor_ql.Llm.Recover.Repair.{
  is_opener, is_closer, scan_depth, stack_step, scan_stack, starts_open, append_closers,
  repair_truncated_json,
}
use vlor_ql.Llm.Recover.Repair.Nesting.{
  closer_of, close_innermost, nesting_step, Position, outside, inside, behind_backslash,
  inside_step, nesting, nesting-append, nesting-Openers, nesting-closers,
}

-- `in_string` and `escaped`
in_string_at : Position → Bool
in_string_at outside = false
in_string_at inside = true
in_string_at behind_backslash = true

escaped_at : Position → Bool
escaped_at outside = false
escaped_at inside = false
escaped_at behind_backslash = true

string_step-inside :
    (ch : ℕ) → string_step false ch ≡ (in_string_at (inside_step ch), escaped_at (inside_step ch))
unfolding string_step in_string_at escaped_at
string_step-inside ch = ground arith

string_step-behind : (ch : ℕ) → string_step true ch ≡ (true, false)
unfolding string_step
string_step-behind ch = refl

outside_step-quote :
    (ch : ℕ)
    → let next = if nat_eq ch quote then inside else outside in
      (in_string_at next ≡ nat_eq ch quote) × (escaped_at next ≡ false)
unfolding in_string_at escaped_at
outside_step-quote ch = elim (Bool-cases (nat_eq ch quote)) [
  | inl e ↦ rw e (refl, refl)
  | inr e ↦ rw e (refl, refl)
]

stack_step-nesting :
    (opened : List ℕ) (ch : ℕ) (next : List ℕ)
    → nesting_step opened ch ≡ some next
    → stack_step (map closer_of opened) ch ≡ map closer_of next
unfolding stack_step nesting_step close_innermost
stack_step-nesting [] ch next h = ground arith
stack_step-nesting (o ∷ opened) ch next h = ground arith

scan_stack-nesting :
    (opened : List ℕ) (at : Position) (s : Str) (opened' : List ℕ) (at' : Position)
    → nesting opened at s ≡ some (opened', at')
    → (scan_stack (map closer_of opened) (in_string_at at) (escaped_at at) s).0
      ≡ map closer_of opened'
unfolding nesting scan_stack in_string_at escaped_at
scan_stack-nesting opened outside [] opened' at' h = ap (λ p. map closer_of p.0) (some-injective h)
scan_stack-nesting opened inside [] opened' at' h = ap (λ p. map closer_of p.0) (some-injective h)
scan_stack-nesting opened behind_backslash [] opened' at' h =
    ap (λ p. map closer_of p.0) (some-injective h)
scan_stack-nesting opened behind_backslash (ch ∷ s) opened' at' h =
    rw (string_step-behind ch) (scan_stack-nesting opened inside s opened' at' h)
scan_stack-nesting opened inside (ch ∷ s) opened' at' h =
    rw (string_step-inside ch) (scan_stack-nesting opened (inside_step ch) s opened' at' h)
scan_stack-nesting opened outside (ch ∷ s) opened' at' h =
    elim (Option-cases (nesting_step opened ch)) [
      | inl e ↦ let bad : none ≡ some (opened', at') = rw (nesting, e) at h in absurd cc
      | inr (next, e) ↦
          let at2 = if nat_eq ch quote then inside else outside in
          let (quoted, plain) = outside_step-quote ch in
          let ih = scan_stack-nesting next at2 s opened' at' (rw (nesting, e) at h) in
          rw (stack_step-nesting opened ch next e)
            (ap₂ (λ b c. (scan_stack (map closer_of next) b c s).0) (sym quoted) (sym plain) ∙ ih)
    ]

count_step-nesting :
    (opened : List ℕ) (ch : ℕ) (next : List ℕ) (o c : ℕ)
    → nesting_step opened ch ≡ some next
    → (if is_opener ch then suc o else o) + c + length opened
      ≡ o + (if is_closer ch then suc c else c) + length next
unfolding nesting_step close_innermost
count_step-nesting [] ch next o c h = ground arith
count_step-nesting (x ∷ opened) ch next o c h = ground arith

-- The counts of opening and closing delimiters differ by what is opened and not closed.
scan_depth-nesting :
    (opened : List ℕ) (at : Position) (s : Str) (opened' : List ℕ) (at' : Position) (o c : ℕ)
    → nesting opened at s ≡ some (opened', at')
    → let depth = scan_depth o c (in_string_at at) (escaped_at at) s in
      depth.0 + c + length opened ≡ depth.1 + o + length opened'
unfolding nesting scan_depth in_string_at escaped_at
scan_depth-nesting opened outside [] opened' at' o c h =
    let same = ap (λ p. length p.0) (some-injective h) in omega arith
scan_depth-nesting opened inside [] opened' at' o c h =
    let same = ap (λ p. length p.0) (some-injective h) in omega arith
scan_depth-nesting opened behind_backslash [] opened' at' o c h =
    let same = ap (λ p. length p.0) (some-injective h) in omega arith
scan_depth-nesting opened behind_backslash (ch ∷ s) opened' at' o c h =
    rw (string_step-behind ch) (scan_depth-nesting opened inside s opened' at' o c h)
scan_depth-nesting opened inside (ch ∷ s) opened' at' o c h =
    rw (string_step-inside ch) (scan_depth-nesting opened (inside_step ch) s opened' at' o c h)
scan_depth-nesting opened outside (ch ∷ s) opened' at' o c h =
    elim (Option-cases (nesting_step opened ch)) [
      | inl e ↦ let bad : none ≡ some (opened', at') = rw (nesting, e) at h in absurd cc
      | inr (next, e) ↦
          let at2 = if nat_eq ch quote then inside else outside in
          let o2 = if is_opener ch then suc o else o in
          let c2 = if is_closer ch then suc c else c in
          let (quoted, plain) = outside_step-quote ch in
          let ih = scan_depth-nesting next at2 s opened' at' o2 c2 (rw (nesting, e) at h) in
          let step = count_step-nesting opened ch next o c e in
          let same = ap₂ (λ x y. scan_depth o2 c2 x y s) quoted plain in
          let first = ap (λ d. d.0) same in let second = ap (λ d. d.1) same in omega arith
    ]

append_closers-append : (s : Str) (stack : List ℕ) → append_closers s stack ≡ s ++ stack
unfolding append_closers
append_closers-append s [] = sym (append-nil s)
append_closers-append s (c ∷ stack) =
    append_closers-append (s ++ c ∷ []) stack ∙ append_assoc s (c ∷ []) stack

-- If a text is not JSON, and its trimmed form starts with an opening delimiter, closes no delimiter by
-- another one than its own, ends outside string literals and leaves some delimiters open, then the repair
-- appends to the trimmed form the closing delimiters of those, the innermost first, and the longer text
-- leaves none open.
pub repair_truncated_json-closed :
    (serde : JsonParser) (json : Str) (o : ℕ) (opened : List ℕ)
    → is_valid_json serde json ≡ false
    → starts_open (trim json) ≡ true
    → nesting [] outside (trim json) ≡ some (o ∷ opened, outside)
    → (repair_truncated_json serde json ≡ trim json ++ map closer_of (o ∷ opened))
      × (nesting [] outside (repair_truncated_json serde json) ≡ some ([], outside))
unfolding repair_truncated_json in_string_at escaped_at
repair_truncated_json-closed serde json o opened broken starts nested =
    let depth = scan_depth-nesting [] outside (trim json) (o ∷ opened) outside 0 0 nested in
    let deep : leb (scan_depth 0 0 false false (trim json)).0
          (scan_depth 0 0 false false (trim json)).1
        ≡ false =
      ground arith in
    let stack = scan_stack-nesting [] outside (trim json) (o ∷ opened) outside nested in
    let longer : repair_truncated_json serde json ≡ trim json ++ map closer_of (o ∷ opened) =
      rw (repair_truncated_json, broken, starts, deep)
        (append_closers-append (trim json) _ ∙ ap (λ x. trim json ++ x) stack) in
    let closed =
      nesting-append [] outside (trim json) (map closer_of (o ∷ opened)) (o ∷ opened) outside nested
      ∙ nesting-closers (o ∷ opened)
          (nesting-Openers [] outside (trim json) (o ∷ opened) outside tt nested) in
    (longer, ap (nesting [] outside) longer ∙ closed)
