-- ===== src/Llm/Recover/Bracket.antt =====
-- The scan for a matching delimiter: crates/vlorql-llm/src/parser_v2/recover/bracket.rs.
pub mod Structure
use vlor_ql.Common.{
  ℕ, zero, suc, ◌+◌, ◌-◌, List, [], ◌∷◌, ◌++◌, Bool, true, false, ◌&&◌, ◌||◌, if◌then◌else◌, nat_eq,
  ltb, leb, Option, none, some, take, ◌>>=◌,
}
use vlor_ql.Llm.Recover.Chars.{
  Str, quote, backslash, open_brace, close_brace, open_bracket, close_bracket, from_char, trim, len,
}

-- What a character does inside a string literal: the new `(in_string, escaped)`.
unfoldable pub string_step : Bool → ℕ → Bool × Bool
string_step true ch = (true, false)
string_step false ch =
    if nat_eq ch backslash
    then (true, true)
    else if nat_eq ch quote
    then (false, false)
    else (true, false)

abbrev pub u32_size : ℕ
u32_size = 4_294_967_296

-- The loop of `find_matching_close` at index `i`, with `depth`, `in_string` and `escaped`. A step of
-- the depth that leaves `u32` ends the search.
unfoldable pub find_matching_close_from : ℕ → ℕ → ℕ → ℕ → Bool → Bool → Str → Option ℕ
find_matching_close_from opener closer i depth in_string escaped [] = none
find_matching_close_from opener closer i depth true escaped (ch ∷ rest) =
    let next = string_step escaped ch in
    find_matching_close_from opener closer (suc i) depth next.0 next.1 rest
find_matching_close_from opener closer i depth false escaped (ch ∷ rest) =
    let opened = find_matching_close_from opener closer (suc i) (suc depth) false escaped rest in
    let closed = find_matching_close_from opener closer (suc i) (depth - 1) false escaped rest in
    let quoted = find_matching_close_from opener closer (suc i) depth true escaped rest in
    let passed = find_matching_close_from opener closer (suc i) depth false escaped rest in
    if nat_eq ch opener
    then (if ltb (suc depth) u32_size then opened else none)
    else if nat_eq ch closer
    then (if nat_eq depth 0 then none else if nat_eq (depth - 1) 0 then some i else closed)
    else if nat_eq ch quote
    then quoted
    else passed

unfoldable pub find_matching_close : Str → ℕ → ℕ → Option ℕ
find_matching_close text opener closer = find_matching_close_from opener closer 0 0 false false text

-- `&text[start..=start + end]`, where `rest` is `&text[start..]`.
unfoldable pub balanced_prefix : ℕ → ℕ → Str → Option Str
balanced_prefix opener closer rest =
    find_matching_close rest opener closer >>= λ end. some (take (suc end) rest)

unfoldable pub find_outermost_json_obj : Str → Option Str
find_outermost_json_obj text = from_char open_brace text >>= balanced_prefix open_brace close_brace

unfoldable pub find_outermost_array : Str → Option Str
find_outermost_array text =
    from_char open_bracket text >>= balanced_prefix open_bracket close_bracket

-- `found.len() == text.len()`, where there is a result.
unfoldable pub has_length_of : Str → Option Str → Bool
has_length_of text none = false
has_length_of text (some found) = nat_eq (len found) (len text)

unfoldable pub is_balanced_object : Str → Bool
is_balanced_object text =
    starts_with_brace (trim text) && has_length_of (trim text) (find_outermost_json_obj (trim text))
  where
    starts_with_brace : Str → Bool
    starts_with_brace [] = false
    starts_with_brace (c ∷ s) = nat_eq c open_brace
