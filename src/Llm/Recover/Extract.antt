-- ===== src/Llm/Recover/Extract.antt =====
-- The recovery pipeline: crates/vlorql-llm/src/parser_v2/recover/extract.rs.
pub mod Fallback
pub mod Recovered
use vlor_ql.Common.{
  ℕ, zero, suc, List, [], ◌∷◌, Bool, true, false, ◌&&◌, ◌||◌, not, if◌then◌else◌, nat_eq, ltb,
  Option, none, some, ◌>>=◌, take,
}
use vlor_ql.Common.Text.{bytes}
use vlor_ql.Llm.Recover.Chars.{Str, open_brace, close_brace, len, trim, contains}
use vlor_ql.Llm.Recover.Bracket.{find_matching_close, find_outermost_json_obj}
use vlor_ql.Llm.Recover.Json.{
  JsonParser, is_valid_json, is_valid_json_object, is_valid_json_array,
  extract_first_json_obj_from_array, fix_escaped_quotes,
}
use vlor_ql.Llm.Recover.Markdown.{unwrap_or, strip_markdown_fence}
use vlor_ql.Llm.Recover.Best.{find_best_json_obj}

-- The first of two results.
infixr 30 ◌or_else◌
abbrev pub ◌or_else◌ {ℓ} : {A : Type ℓ} → Option A → Option A → Option A
none or_else b = b
(some a) or_else b = some a

module _ (serde : JsonParser) where
  -- The loop of `find_longest_valid_json`: `skip` characters of a balanced object are still to pass.
  unfoldable pub longest_from : ℕ → Option Str → ℕ → Str → Option Str
  longest_from skip best best_len [] = best
  longest_from (suc skip) best best_len (c ∷ rest) = longest_from skip best best_len rest
  longest_from zero best best_len (c ∷ rest) =
      let end =
        if nat_eq c open_brace
        then find_matching_close (c ∷ rest) open_brace close_brace
        else none in
      elim end [
        | none ↦ longest_from 0 best best_len rest
        | some n ↦
            let candidate = take (suc n) (c ∷ rest) in
            let better = longest_from n (some candidate) (len candidate) rest in
            let same = longest_from n best best_len rest in
            if ltb best_len (len candidate) && is_valid_json serde candidate then better else same
      ]

  unfoldable pub find_longest_valid_json : Str → Option Str
  find_longest_valid_json text = longest_from 0 none 0 text

  -- Step 0: a text in which `\"` was replaced, if that makes it valid.
  unfoldable pub unescaped_object : Option Str → Option Str
  unescaped_object none = none
  unescaped_object (some s) =
      if is_valid_json_object serde s
      then some s
      else if is_valid_json_array serde s
      then extract_first_json_obj_from_array serde s
      else none

  -- Step 1.
  unfoldable pub whole_object : Str → Option Str
  whole_object trimmed = if is_valid_json_object serde trimmed then some trimmed else none

  -- Step 2.
  unfoldable pub wrapped_object : Str → Option Str
  wrapped_object trimmed =
      if is_valid_json_array serde trimmed
      then extract_first_json_obj_from_array serde trimmed
      else none

  -- Step 3.
  unfoldable pub fenced_object : Option Str → Option Str
  fenced_object none = none
  fenced_object (some cleaned) =
      if is_valid_json serde cleaned then some cleaned else find_outermost_json_obj cleaned

  -- The steps in their order.
  unfoldable pub steps : Str → Option Str
  steps trimmed =
      unescaped_object (fix_escaped_quotes serde trimmed)
      or_else whole_object trimmed
      or_else wrapped_object trimmed
      or_else fenced_object (strip_markdown_fence trimmed)
      or_else find_best_json_obj serde trimmed
      or_else find_longest_valid_json trimmed

  -- Without a result the trimmed text is returned.
  unfoldable pub extract_json_content : Str → Str
  extract_json_content raw = unwrap_or (steps (trim raw)) (trim raw)

-- `detect_template_leak`: which of the two tokens the message names.
pub data TemplateLeak : Type 0 where
  start_and_end start_only end_only : TemplateLeak

unfoldable pub detect_template_leak : Str → Option TemplateLeak
detect_template_leak content =
    let has_start = contains (bytes "<|im_start|>") content in
    let has_end = contains (bytes "<|im_end|>") content in
    if not has_start && not has_end
    then none
    else some
        (if has_start && has_end then start_and_end else if has_start then start_only else end_only)
