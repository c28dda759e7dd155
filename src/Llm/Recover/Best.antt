-- ===== src/Llm/Recover/Best.antt =====
-- The choice among the JSON objects of a text: `find_best_json_obj` of
-- crates/vlorql-llm/src/parser_v2/recover/bracket.rs.
pub mod Chosen
use vlor_ql.Common.{
  ℕ, List, [], ◌∷◌, Bool, true, false, ◌&&◌, ◌||◌, not, if◌then◌else◌, nat_eq, ltb, Option, none,
  some,
}
use vlor_ql.Common.Text.{bytes}
use vlor_ql.Llm.Recover.Chars.{Str, open_brace, close_brace, len}
use vlor_ql.Llm.Recover.Bracket.{balanced_prefix}
use vlor_ql.Common.Tests.{is_some, is_some_and}
use vlor_ql.Llm.Recover.Json.{JsonParser}
use vlor_ql.Llm.Recover.Repair.{repair_truncated_json}

-- The local variables of the search: `outermost_start` is the text from that position on.
pub record Search : Type 0 where
  pub best : Option Str
  pub best_score : Bool × ℕ
  pub outermost_start : Option Str

-- `score > best_score`, by components.
unfoldable pub score_greater : Bool × ℕ → Bool × ℕ → Bool
score_greater (true, m) (true, n) = ltb n m
score_greater (true, m) (false, n) = true
score_greater (false, m) (true, n) = false
score_greater (false, m) (false, n) = ltb n m

abbrev pub search_start : Search
search_start = record { best = none; best_score = (false, 0); outermost_start = none }

module _ (serde : JsonParser) where
  -- An object with a `select` or a `from` key.
  unfoldable pub looks_like_plan : serde.Value → Bool
  looks_like_plan v = serde.has_key (bytes "select") v || serde.has_key (bytes "from") v

  unfoldable pub keep_better : Str → Option serde.Value → Search → Search
  keep_better candidate none st = st
  keep_better candidate (some v) st =
      let score : Bool × ℕ = (looks_like_plan v, len candidate) in
      if not (is_some st.best) || score_greater score st.best_score
      then record {
        best = some candidate;
        best_score = score;
        outermost_start = st.outermost_start;
      }
      else st

  unfoldable pub try_balanced : Option Str → Str → Search → Search
  try_balanced (some candidate) rest st = keep_better candidate (serde.from_str candidate) st
  try_balanced none rest st =
      if not (is_some st.outermost_start)
      then record { best = st.best; best_score = st.best_score; outermost_start = some rest }
      else st

  -- One position of the text, where `rest` starts.
  unfoldable pub visit : Str → Search → Search
  visit [] st = st
  visit (c ∷ rest) st =
      if nat_eq c open_brace
      then try_balanced (balanced_prefix open_brace close_brace (c ∷ rest)) (c ∷ rest) st
      else st

  -- The `while let` loop.
  unfoldable pub search_from : Str → Search → Search
  search_from [] st = st
  search_from (c ∷ rest) st = search_from rest (visit (c ∷ rest) st)

  -- `best.is_none_or(..)`
  unfoldable pub lacks_plan : Option Str → Bool
  lacks_plan none = true
  lacks_plan (some c) = is_some_and (λ v. not (looks_like_plan v)) (serde.from_str c)

  -- After the loop: the repair of the truncated span, where no candidate looks like a plan.
  unfoldable pub try_repair : Option Str → Option Str → Option Str
  try_repair best none = best
  try_repair best (some candidate) =
      let repaired = repair_truncated_json serde candidate in
      if is_some_and looks_like_plan (serde.from_str repaired) then some repaired else best

  unfoldable pub find_best_json_obj : Str → Option Str
  find_best_json_obj text =
      let st = search_from text search_start in
      if lacks_plan st.best then try_repair st.best st.outermost_start else st.best
