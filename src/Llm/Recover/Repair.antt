-- ===== src/Llm/Recover/Repair.antt =====
-- Closing a truncated text: `repair_truncated_json` of
-- crates/vlorql-llm/src/parser_v2/recover/bracket.rs.
pub mod Nesting
pub mod Closed
use vlor_ql.Common.{
  ℕ, suc, List, [], ◌∷◌, ◌++◌, Bool, true, false, ◌&&◌, ◌||◌, not, if◌then◌else◌, nat_eq, leb,
  Option, none, some, drop,
}
use vlor_ql.Llm.Recover.Chars.{
  Str, quote, open_brace, close_brace, open_bracket, close_bracket, trim,
}
use vlor_ql.Llm.Recover.Bracket.{string_step}
use vlor_ql.Llm.Recover.Json.{JsonParser, is_valid_json}

abbrev pub is_opener : ℕ → Bool
is_opener ch = nat_eq ch open_brace || nat_eq ch open_bracket

abbrev pub is_closer : ℕ → Bool
is_closer ch = nat_eq ch close_brace || nat_eq ch close_bracket

-- The first loop. Its `depth` is `opened - closed`, which may be negative.
unfoldable pub scan_depth : ℕ → ℕ → Bool → Bool → Str → ℕ × ℕ
scan_depth opened closed in_string escaped [] = (opened, closed)
scan_depth opened closed true escaped (ch ∷ rest) =
    let next = string_step escaped ch in scan_depth opened closed next.0 next.1 rest
scan_depth opened closed false escaped (ch ∷ rest) =
    scan_depth (if is_opener ch then suc opened else opened)
      (if is_closer ch then suc closed else closed) (nat_eq ch quote) escaped rest

-- What a character outside string literals does to the stack of missing closers, whose top comes first.
unfoldable pub stack_step : List ℕ → ℕ → List ℕ
stack_step stack ch =
    if nat_eq ch open_brace
    then close_brace ∷ stack
    else if nat_eq ch open_bracket
    then close_bracket ∷ stack
    else if is_closer ch
    then drop 1 stack
    else stack

-- The second loop: the stack with `in_string` and `escaped` at the end.
unfoldable pub scan_stack : List ℕ → Bool → Bool → Str → List ℕ × (Bool × Bool)
scan_stack stack in_string escaped [] = (stack, (in_string, escaped))
scan_stack stack true escaped (ch ∷ rest) =
    let next = string_step escaped ch in scan_stack stack next.0 next.1 rest
scan_stack stack false escaped (ch ∷ rest) =
    scan_stack (stack_step stack ch) (nat_eq ch quote) escaped rest

unfoldable pub starts_open : Str → Bool
starts_open [] = false
starts_open (c ∷ _) = is_opener c

-- `while let Some(closer) = stack.pop() { repaired.push(closer) }`
unfoldable pub append_closers : Str → List ℕ → Str
append_closers repaired [] = repaired
append_closers repaired (closer ∷ stack) = append_closers (repaired ++ closer ∷ []) stack

unfoldable pub repair_truncated_json : JsonParser → Str → Str
repair_truncated_json serde json =
    let trimmed = trim json in
    let depth = scan_depth 0 0 false false trimmed in
    if is_valid_json serde json
    then json
    else if not (starts_open trimmed)
    then json
    else if leb depth.0 depth.1
    then json
    else append_closers trimmed (scan_stack [] false false trimmed).0
