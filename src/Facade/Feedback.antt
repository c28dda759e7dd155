-- ===== src/Facade/Feedback.antt =====
-- What the model is told about a failed plan: crates/vlorql/src/retry.rs.
use vlor_ql.Common.{
  ℕ, ◌+◌, ◌-◌, List, [], ◌∷◌, ◌++◌, ◌&&◌, ◌||◌, if◌then◌else◌, leb, ltb, nat_eq, length, take,
  is_empty, map,
}
use vlor_ql.Common.Text.{Text, bytes, starts_with}
use vlor_ql.Errors.{
  VlorQlError, Details, available_columns, column_not_found, schema, validation, multiple_errors,
}

-- The derived texts of errors and numbers, the hint on a single error, and the JSON of a list of errors.
pub record Texts : Type 0 where
  pub to_string : VlorQlError → Text
  pub number : ℕ → Text
  pub build_hint : VlorQlError → Text
  pub errors_json : List VlorQlError → Details

abbrev pub max_retry_feedback_errors : ℕ
max_retry_feedback_errors = 3

abbrev pub line_feed : Text
line_feed = 10 ∷ []

-- The first of `lines()`: a carriage return before the line feed belongs to the line's end.
unfoldable pub first_line : Text → Text
first_line [] = []
first_line (c ∷ s) =
    let rest = first_line s in
    if nat_eq c 10 || (nat_eq c 13 && starts_with s line_feed) then [] else c ∷ rest

unfoldable pub min : ℕ → ℕ → ℕ
min a b = if leb a b then a else b

-- `parts.join(separator)`
unfoldable pub join : Text → List Text → Text
join separator [] = []
join separator (t ∷ []) = t
join separator (t ∷ u ∷ ts) = t ++ separator ++ join separator (u ∷ ts)

-- `details().get("available_columns")`, joined.
unfoldable pub available_in : Details → Text
available_in (available_columns _ _ columns) = join (bytes ", ") columns
available_in _ = []

unfoldable pub column_tip : Text → Text → Text → Text
column_tip table column available =
    bytes "TIP: Column `"
    ++ column
    ++ bytes "` does not exist on table `"
    ++ table
    ++ (if is_empty available
        then bytes "`. Use exact column names from the Schema."
        else bytes "`. Available: `" ++ available ++ bytes "`.")

-- The tips of the errors that have one.
unfoldable pub tips : List VlorQlError → List Text
tips [] = []
tips (schema (column_not_found table column) details ∷ es) =
    column_tip table column (available_in details) ∷ tips es
tips (_ ∷ es) = tips es

unfoldable pub introduction : Text
introduction =
    line_feed
    ++ line_feed
    ++ bytes "*** FEEDBACK ***"
    ++ line_feed
    ++ bytes
        "The previous query plan failed. Fix the specific errors below and return ONLY the corrected JSON QueryPlan."
    ++ line_feed

-- How many of `count` errors the retry after `attempt` shows.
unfoldable pub shown_errors : ℕ → ℕ → ℕ
shown_errors attempt count = min count (min (1 + attempt) max_retry_feedback_errors)

module _ (texts : Texts) where
  unfoldable pub omitted_text : ℕ → Text
  omitted_text omitted =
      if ltb 0 omitted
      then line_feed
        ++ bytes "("
        ++ 226 ∷ 128 ∷ 166 ∷ bytes " and "
        ++ texts.number omitted
        ++ bytes " more errors omitted)"
      else []

  unfoldable pub format_retry_question : Text → List VlorQlError → ℕ → Text
  format_retry_question question errors attempt =
      let shown = shown_errors attempt (length errors) in
      let hints = tips (take shown errors) in
      question
      ++ introduction
      ++ bytes "Errors:"
      ++ line_feed
      ++ join (bytes "; ") (map texts.to_string (take shown errors))
      ++ (if is_empty hints then [] else line_feed ++ join line_feed hints)
      ++ omitted_text (length errors - shown)

  unfoldable pub format_retry_question_str : Text → VlorQlError → ℕ → Text
  format_retry_question_str question error attempt =
      let raw = texts.to_string error in
      question
      ++ introduction
      ++ bytes "Error: "
      ++ (if nat_eq attempt 0 then first_line raw else raw)
      ++ texts.build_hint error

  unfoldable pub validation_errors_to_error : List VlorQlError → VlorQlError
  validation_errors_to_error (e ∷ []) = e
  validation_errors_to_error es = validation (multiple_errors (length es)) (texts.errors_json es)
