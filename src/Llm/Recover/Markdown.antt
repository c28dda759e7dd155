-- ===== src/Llm/Recover/Markdown.antt =====
-- Markdown code fences: crates/vlorql-llm/src/parser_v2/recover/markdown.rs.
use vlor_ql.Common.{[], ◌∷◌, Bool, if◌then◌else◌, nat_eq, Option, none, some, ◌>>=◌, is_empty, drop}
use vlor_ql.Common.Text.{starts_with, bytes}
use vlor_ql.Llm.Recover.Chars.{Str, newline, trim, trim_end, from_char}

abbrev pub fence : Str
fence = bytes "```"

-- `&content[..content.rfind("```")?]`
unfoldable pub before_last_fence : Str → Option Str
before_last_fence [] = none
before_last_fence (c ∷ s) = elim (before_last_fence s) [
  | some kept ↦ some (c ∷ kept)
  | none ↦ if starts_with (c ∷ s) fence then some [] else none
]

unfoldable pub unwrap_or {ℓ} : {A : Type ℓ} → Option A → A → A
unwrap_or none a = a
unwrap_or (some b) a = b

unfoldable pub nonempty : Str → Option Str
nonempty s = if is_empty s then none else some s

unfoldable pub is_fenced : Str → Bool
is_fenced text = starts_with (trim text) fence

unfoldable pub strip_markdown_fence : Str → Option Str
strip_markdown_fence text =
    let inside = from_char newline (drop 3 (trim text)) >>= λ line_end.
    let content = drop 1 line_end in
    nonempty (trim_end (unwrap_or (before_last_fence content) content)) in
    if starts_with (trim text) fence then inside else none

-- `split('\n').next()`
unfoldable pub first_line : Str → Str
first_line [] = []
first_line (c ∷ s) = let rest = first_line s in if nat_eq c newline then [] else c ∷ rest

unfoldable pub fence_language : Str → Option Str
fence_language text =
    let lang = first_line (drop 3 (trim text)) in
    if starts_with (trim text) fence
    then (if is_empty lang then none else some (trim lang))
    else none
