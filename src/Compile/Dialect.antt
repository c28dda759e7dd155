-- ===== src/Compile/Dialect.antt =====
-- Dialect settings, and the quoting of identifiers: crates/vlorql-core/src/compile/dialect_config.rs,
-- and `quote_identifier` with its helpers in crates/vlorql-core/src/compile/builder/clause.rs. A
-- configuration is read from a file by a library, and is a value here.
pub mod Quoting
use vlor_ql.Common.{
  ℕ, zero, suc, ◌+◌, ◌-◌, ◌/◌, ◌%◌, Bool, true, false, not, ◌&&◌, ◌||◌, Option, none, some, List,
  [], ◌∷◌, ◌++◌, map, if◌then◌else◌, nat_eq, leb,
}
use vlor_ql.Common.Lists.{any, all}
use vlor_ql.Common.Text.{Text, bytes, ◌==◌, starts_with}
use vlor_ql.Schema.Types.{SqlDialect, postgres, sqlite, mysql}

pub record DialectConfig : Type 0 where
  pub name : Text
  pub identifier_quote : Text
  pub placeholder : Text
  pub limit_offset : Text
  pub top_syntax : Option Text
  pub supports_cte : Bool
  pub supports_window_functions : Bool
  pub supports_json_operations : Bool
  pub supports_offset : Bool
  pub supports_fetch : Bool
  pub allow_distinct : Bool
  pub allow_select_distinct : Bool
  pub max_joins : Option ℕ
  pub allowed_join_types : List Text
  pub allowed_functions : List Text
  pub denied_functions : List Text
  pub max_group_by_columns : Option ℕ
  pub type_mappings : List (Text × Text)
  pub function_name_mappings : List (Text × Text)

abbrev pub default_postgres : DialectConfig
default_postgres = record {
  name = bytes "postgres";
  identifier_quote = bytes "double_quote";
  placeholder = bytes "${index}";
  limit_offset = bytes "LIMIT {limit} OFFSET {offset}";
  top_syntax = none;
  supports_cte = true;
  supports_window_functions = true;
  supports_json_operations = true;
  supports_offset = true;
  supports_fetch = true;
  allow_distinct = true;
  allow_select_distinct = true;
  max_joins = none;
  allowed_join_types = [];
  allowed_functions = [];
  denied_functions = [];
  max_group_by_columns = none;
  type_mappings = [];
  function_name_mappings = [];
}

abbrev pub default_sqlite : DialectConfig
default_sqlite = record default_postgres {
  name = bytes "sqlite";
  placeholder = bytes "?";
  limit_offset = bytes "LIMIT {limit} OFFSET {offset}";
}

abbrev pub default_mysql : DialectConfig
default_mysql = record default_postgres {
  name = bytes "mysql";
  identifier_quote = bytes "backtick";
  placeholder = bytes "?";
  limit_offset = bytes "LIMIT {offset}, {limit}";
  supports_json_operations = false;
  supports_fetch = false;
  type_mappings = (bytes "ilike", bytes "LIKE") ∷ [];
}

-- `str::to_lowercase` and `to_uppercase` on ASCII letters.
unfoldable pub lower : ℕ → ℕ
lower c = if leb b'A' c && leb c b'Z' then c + 32 else c

unfoldable pub upper : ℕ → ℕ
upper c = if leb b'a' c && leb c b'z' then c - 32 else c

-- `s.contains(pattern)`
unfoldable pub contains_text : Text → Text → Bool
contains_text [] pattern = starts_with [] pattern
contains_text (c ∷ cs) pattern = starts_with (c ∷ cs) pattern || contains_text cs pattern

unfoldable pub dialect_from_name : Text → Option SqlDialect
dialect_from_name name =
    let n = map lower name in
    if n == bytes "postgres" || n == bytes "postgresql"
    then some postgres
    else (if n == bytes "sqlite"
        then some sqlite
        else (if n == bytes "mysql" || n == bytes "my_sql" then some mysql else none))

-- The decimal digits of a number; a number has at most as many digits as the fuel, its successor.
unfoldable digits : ℕ → ℕ → Text → Text
digits zero n rest = rest
digits (suc fuel) n rest =
    let more = digits fuel (n / 10) ((48 + n % 10) ∷ rest) in
    if leb n 9 then (48 + n) ∷ rest else more

unfoldable pub decimal : ℕ → Text
unfolding digits
decimal n = digits (suc n) n []

-- `s.replace("{index}", value)`; the first number counts the bytes of a match that are still to be skipped.
unfoldable pub replace_index : ℕ → Text → Text → Text
replace_index skip value [] = []
replace_index (suc skip) value (c ∷ cs) = replace_index skip value cs
replace_index zero value (c ∷ cs) =
    let matched = value ++ replace_index 6 value cs in
    let other = c ∷ replace_index 0 value cs in
    if starts_with (c ∷ cs) (bytes "{index}") then matched else other

unfoldable pub placeholder_str : DialectConfig → ℕ → Text
placeholder_str config index =
    if contains_text config.placeholder (bytes "{index}")
    then replace_index 0 (decimal index) config.placeholder
    else config.placeholder

-- Whether `placeholder_str` depends on its index.
unfoldable pub is_indexed : DialectConfig → Bool
is_indexed config = contains_text config.placeholder (bytes "{index}")

-- `ident.replace(quote, quote quote)`
unfoldable pub double : ℕ → Text → Text
double q [] = []
double q (c ∷ cs) = let rest = double q cs in if nat_eq c q then q ∷ q ∷ rest else c ∷ rest

abbrev pub enclose : ℕ → ℕ → Text → Text
enclose l r s = l ∷ (s ++ r ∷ [])

-- `DialectConfig::quote_identifier`
unfoldable pub quote_with : Text → Text → Text
quote_with style ident =
    if style == bytes "double_quote"
    then enclose b'"' b'"' (double b'"' ident)
    else (if style == bytes "backtick"
        then enclose b'`' b'`' (double b'`' ident)
        else (if style == bytes "bracket"
            then enclose b'[' b']' ident
            else (if style == bytes "never" then ident else enclose b'"' b'"' (double b'"' ident))))

unfoldable pub is_word_start : ℕ → Bool
is_word_start c = nat_eq c b'_' || (leb b'a' c && leb c b'z' || leb b'A' c && leb c b'Z')

unfoldable pub is_word_char : ℕ → Bool
is_word_char c = is_word_start c || leb b'0' c && leb c b'9'

-- A letter or underscore, then letters, digits and underscores.
unfoldable pub is_word : Text → Bool
is_word [] = false
is_word (c ∷ cs) = is_word_start c && all is_word_char cs
