-- ===== src/Validate/Warnings.antt =====
-- The warnings of the audit, and the patterns that it looks for: crates/vlorql-core/src/validate/audit.rs.
use vlor_ql.Common.{
  ℕ, zero, suc, if◌then◌else◌, Bool, true, false, Option, none, some, List, [], ◌∷◌, ◌++◌, map,
  drop,
}
use vlor_ql.Common.Lists.{any, keep, find, length}
use vlor_ql.Common.Text.{Text, bytes, starts_with}
use vlor_ql.Compile.Dialect.{upper, contains_text}
use vlor_ql.Errors.{VlorQlError, audit, identifier_not_found, suspicious_pattern, no_details}

pub data Severity : Type 0 where
  warning error critical : Severity

pub data AuditWarningKind : Type 0 where
  missing_table missing_column suspicious_identifier : AuditWarningKind

pub record AuditWarning : Type 0 where
  pub kind : AuditWarningKind
  pub identifier : Text
  pub context : Text
  pub severity : Severity

-- `AuditReport`: its warnings.
abbrev pub Report : Type 0
Report = List AuditWarning

abbrev pub is_blocker : AuditWarning → Bool
is_blocker w = elim w.severity [ warning ↦ false | error ↦ true | critical ↦ true ]

unfoldable pub has_blockers : Report → Bool
has_blockers report = any is_blocker report

abbrev pub to_error : AuditWarning → VlorQlError
to_error w = elim w.kind [
  | missing_table ↦ audit (identifier_not_found w.identifier w.context) no_details
  | missing_column ↦ audit (identifier_not_found w.identifier w.context) no_details
  | suspicious_identifier ↦ audit (suspicious_pattern w.identifier w.context) no_details
]

unfoldable pub into_errors : Report → List VlorQlError
into_errors report = map to_error (keep is_blocker report)

abbrev pub suspicious_patterns : List Text
suspicious_patterns =
    bytes ";"
    ∷ bytes "--"
    ∷ bytes "/*"
    ∷ bytes "DROP "
    ∷ bytes "DELETE "
    ∷ bytes "INSERT "
    ∷ bytes "UPDATE "
    ∷ bytes "EXEC "
    ∷ bytes "UNION SELECT"
    ∷ bytes "INTO OUTFILE"
    ∷ bytes "OR 1=1"
    ∷ bytes "OR '1'='1'"
    ∷ []

-- The characters outside ASCII whose upper case has an ASCII letter, with their upper case, in UTF-8.
abbrev special_upper : List (Text × Text)
special_upper =
    (195 ∷ 159 ∷ [], 83 ∷ 83 ∷ [])
    ∷ (196 ∷ 177 ∷ [], 73 ∷ [])
    ∷ (197 ∷ 137 ∷ [], 202 ∷ 188 ∷ 78 ∷ [])
    ∷ (197 ∷ 191 ∷ [], 83 ∷ [])
    ∷ (199 ∷ 176 ∷ [], 74 ∷ 204 ∷ 140 ∷ [])
    ∷ (225 ∷ 186 ∷ 150 ∷ [], 72 ∷ 204 ∷ 177 ∷ [])
    ∷ (225 ∷ 186 ∷ 151 ∷ [], 84 ∷ 204 ∷ 136 ∷ [])
    ∷ (225 ∷ 186 ∷ 152 ∷ [], 87 ∷ 204 ∷ 138 ∷ [])
    ∷ (225 ∷ 186 ∷ 153 ∷ [], 89 ∷ 204 ∷ 138 ∷ [])
    ∷ (225 ∷ 186 ∷ 154 ∷ [], 65 ∷ 202 ∷ 190 ∷ [])
    ∷ (239 ∷ 172 ∷ 128 ∷ [], 70 ∷ 70 ∷ [])
    ∷ (239 ∷ 172 ∷ 129 ∷ [], 70 ∷ 73 ∷ [])
    ∷ (239 ∷ 172 ∷ 130 ∷ [], 70 ∷ 76 ∷ [])
    ∷ (239 ∷ 172 ∷ 131 ∷ [], 70 ∷ 70 ∷ 73 ∷ [])
    ∷ (239 ∷ 172 ∷ 132 ∷ [], 70 ∷ 70 ∷ 76 ∷ [])
    ∷ (239 ∷ 172 ∷ 133 ∷ [], 83 ∷ 84 ∷ [])
    ∷ (239 ∷ 172 ∷ 134 ∷ [], 83 ∷ 84 ∷ [])
    ∷ []

-- The upper case of the special character at the front of the text, and how many bytes follow its first.
unfoldable pub special_at : List (Text × Text) → Text → Option (ℕ × Text)
special_at [] s = none
special_at ((key, upper_case) ∷ entries) s =
    let rest = special_at entries s in
    if starts_with s key then some (length (drop 1 key), upper_case) else rest

-- `s.to_uppercase()`, behind the bytes of a character that is done. A letter whose upper case has no ASCII
-- letter stays as it is: no pattern has a character outside ASCII, so it makes no difference to the search.
unfoldable pub to_uppercase_from : ℕ → Text → Text
unfolding special_at upper
to_uppercase_from skip [] = []
to_uppercase_from (suc skip) (c ∷ cs) = to_uppercase_from skip cs
to_uppercase_from zero (c ∷ cs) = elim (special_at special_upper (c ∷ cs)) [
  | some (skip, upper_case) ↦ upper_case ++ to_uppercase_from skip cs
  | none ↦ upper c ∷ to_uppercase_from 0 cs
]

abbrev pub to_uppercase : Text → Text
to_uppercase s = to_uppercase_from 0 s

unfoldable pub has_suspicious_pattern : Text → Option Text
unfolding to_uppercase_from
has_suspicious_pattern ident =
    let upper_case = to_uppercase ident in
    find (λ pat. contains_text upper_case (to_uppercase pat)) suspicious_patterns

-- A warning about a pattern in `ident`, if there is one.
abbrev pub push_found : Option Text → Text → Report → Report
push_found none ident report = report
push_found (some pattern) ident report =
    report
    ++ (record {
      kind = suspicious_identifier;
      identifier = ident;
      context = pattern;
      severity = critical;
    })
      ∷ []

unfoldable pub check_pattern : Text → Report → Report
check_pattern ident report = push_found (has_suspicious_pattern ident) ident report
