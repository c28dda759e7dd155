-- ===== src/Tests/RecoverRuns.antt =====
-- Runs of the recovery of JSON and the results about it at concrete texts.
use vlor_ql.Common.{◌≡◌, ◌↔◌, ◌≤◌, refl, [], ◌∷◌, ◌++◌, true, none, some, if◌then◌else◌, arith}
use vlor_ql.Common.Lists.{any}
use vlor_ql.Common.Text.{bytes, starts_with}
use vlor_ql.Llm.Recover.Chars.{
  Str, quote, open_brace, open_bracket, close_brace, is_whitespace, trim, trim_start, trim_end, len,
  from_char, contains,
}
use vlor_ql.Llm.Recover.Bracket.{
  string_step, find_matching_close_from, find_matching_close, balanced_prefix,
  find_outermost_json_obj, find_outermost_array, has_length_of, is_balanced_object,
}
use vlor_ql.Llm.Recover.Bracket.Structure.{Matches, find_matching_close_iff}
use vlor_ql.Common.Tests.{is_some, is_some_and}
use vlor_ql.Llm.Recover.Json.{
  JsonParser, is_valid_json, is_valid_json_object, is_valid_json_array,
  extract_first_json_obj_from_array, fix_escaped_quotes, unescape,
}
use vlor_ql.Llm.Recover.Repair.{
  scan_depth, scan_stack, stack_step, starts_open, append_closers, repair_truncated_json,
}
use vlor_ql.Llm.Recover.Repair.Nesting.{nesting, nesting_step, close_innermost, outside}
use vlor_ql.Llm.Recover.Repair.Closed.{repair_truncated_json-closed}
use vlor_ql.Llm.Recover.Markdown.{
  strip_markdown_fence, before_last_fence, unwrap_or, nonempty, fence_language, first_line,
  is_fenced,
}
use vlor_ql.Llm.Recover.Best.{
  looks_like_plan, find_best_json_obj, keep_better, score_greater, try_balanced, visit, search_from,
  lacks_plan, try_repair,
}
use vlor_ql.Llm.Recover.Best.Chosen.{whole, later, Candidate}
use vlor_ql.Llm.Recover.Extract.{
  extract_json_content, steps, find_longest_valid_json, longest_from, unescaped_object,
  whole_object, wrapped_object, fenced_object, detect_template_leak, start_only,
}
use vlor_ql.Llm.Recover.Extract.Fallback.{find_longest_valid_json-none}
use vlor_ql.Llm.Recover.Extract.Recovered.{extract_json_content-plan}

-- A parser that accepts the texts with balanced braces, and finds a key by its quoted name.
abbrev braces : JsonParser
braces = record {
  Value = Str;
  from_str = λ s. if is_balanced_object s then some s else none;
  is_object = λ _. true;
  as_array = λ _. none;
  has_key = λ k v. contains (quote ∷ k ++ quote ∷ []) v;
}

abbrev plan : Str
plan = bytes "{\"from\":\"}\"}"

abbrev prose : Str
prose = bytes "so {x} " ++ plan ++ bytes " ok"

abbrev truncated : Str
truncated = bytes "{\"a\":[{\"b\":1"

recovery : Unit {0}
unfolding is_whitespace trim trim_start trim_end len from_char contains string_step
    find_matching_close_from find_matching_close balanced_prefix find_outermost_json_obj
    find_outermost_array has_length_of is_balanced_object is_some is_some_and is_valid_json
    is_valid_json_object is_valid_json_array extract_first_json_obj_from_array fix_escaped_quotes
    unescape scan_depth scan_stack stack_step starts_open append_closers repair_truncated_json
    strip_markdown_fence before_last_fence unwrap_or nonempty fence_language first_line is_fenced
    looks_like_plan find_best_json_obj keep_better score_greater try_balanced visit search_from
    lacks_plan try_repair extract_json_content steps find_longest_valid_json longest_from
    unescaped_object whole_object wrapped_object fenced_object detect_template_leak starts_with any
recovery = tt

finds_close : find_matching_close plan open_brace close_brace ≡ some 11
unfolding recovery
finds_close = refl

repairs : repair_truncated_json braces truncated ≡ bytes "{\"a\":[{\"b\":1}]}"
unfolding recovery
repairs = refl

extracts : extract_json_content braces prose ≡ plan
unfolding recovery
extracts = refl

strips_fence : strip_markdown_fence (bytes "```json\n{}\n```\ntrailing") ≡ some (bytes "{}")
unfolding recovery
strips_fence = refl

reads_language : fence_language (bytes "```json\n{}```") ≡ some (bytes "json")
unfolding recovery
reads_language = refl

leaks : detect_template_leak (bytes "a<|im_start|>") ≡ some start_only
unfolding recovery
leaks = refl

find_matching_close_iff_example :
    (find_matching_close plan open_brace close_brace ≡ some 11)
    ↔ Matches open_brace close_brace plan 11
find_matching_close_iff_example =
    find_matching_close_iff open_brace close_brace (omega arith) (omega arith) (omega arith)
      (omega arith) (omega arith) (bytes "\"from\":\"}\"}") 11 (omega arith)

repair_truncated_json-closed_example :
    (repair_truncated_json braces truncated ≡ trim truncated ++ bytes "}]}")
    × (nesting [] outside (repair_truncated_json braces truncated) ≡ some ([], outside))
unfolding recovery nesting nesting_step close_innermost
repair_truncated_json-closed_example =
    repair_truncated_json-closed braces truncated open_brace (open_bracket ∷ open_brace ∷ []) refl
      refl refl

find_longest_valid_json-none_example : find_longest_valid_json braces (bytes "no {object") ≡ none
unfolding recovery
find_longest_valid_json-none_example = find_longest_valid_json-none braces (bytes "no {object") refl

prose-Candidate : Candidate braces (trim prose) plan plan
unfolding recovery
prose-Candidate = (
  bytes "\"from\":\"}\"} ok",
  later (later (later (later (later (later (later (whole refl))))))),
  refl,
  refl,
)

extract_json_content-plan_example :
    (w : Str) × (braces.from_str (extract_json_content braces prose) ≡ some w)
    × (looks_like_plan braces w ≡ true)
    × (len plan ≤ len (extract_json_content braces prose))
unfolding recovery
extract_json_content-plan_example =
    extract_json_content-plan braces prose plan plan refl refl refl prose-Candidate refl
