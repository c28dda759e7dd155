-- ===== src/Llm/Recover/Json.antt =====
-- JSON tests and extractions: crates/vlorql-llm/src/parser_v2/recover/json.rs. The parser of
-- `serde_json` is a parameter.
use vlor_ql.Common.{
  List, [], ◌∷◌, Bool, false, ◌&&◌, not, if◌then◌else◌, nat_eq, Option, none, some, ◌>>=◌,
}
use vlor_ql.Common.Tests.{is_some, is_some_and}
use vlor_ql.Llm.Recover.Chars.{Str, quote, backslash, contains}
use vlor_ql.Llm.Recover.Bracket.{find_outermost_json_obj}

-- `serde_json`: what the recovery asks of a parsed value.
pub record JsonParser : Type 1 where
  pub Value : Type 0
  pub from_str : Str → Option Value
  pub is_object : Value → Bool
  pub as_array : Value → Option (List Value)
  pub has_key : Str → Value → Bool

abbrev pub first {ℓ} : {A : Type ℓ} → List A → Option A
first [] = none
first (x ∷ xs) = some x

-- `text.replace("\\\"", "\"")`: one backslash before a quote is dropped, from left to right.
unfoldable pub unescape : Str → Str
unescape [] = []
unescape (c ∷ s) =
    let rest = unescape s in if nat_eq c backslash && starts_with_quote s then rest else c ∷ rest
  where
    starts_with_quote : Str → Bool
    starts_with_quote [] = false
    starts_with_quote (d ∷ _) = nat_eq d quote

module _ (serde : JsonParser) where
  unfoldable pub is_valid_json : Str → Bool
  is_valid_json text = is_some (serde.from_str text)

  unfoldable pub is_valid_json_object : Str → Bool
  is_valid_json_object text = is_some_and serde.is_object (serde.from_str text)

  unfoldable pub is_valid_json_array : Str → Bool
  is_valid_json_array text = is_some_and (λ v. is_some (serde.as_array v)) (serde.from_str text)

  unfoldable pub extract_first_json_obj_from_array : Str → Option Str
  extract_first_json_obj_from_array text = serde.from_str text >>= λ value.
      serde.as_array value >>= λ arr.
      first arr >>= λ head. if serde.is_object head then find_outermost_json_obj text else none

  unfoldable pub fix_escaped_quotes : Str → Option Str
  fix_escaped_quotes text =
      if not (contains (backslash ∷ quote ∷ []) text)
      then none
      else if is_some (serde.from_str text)
      then none
      else some (unescape text)
