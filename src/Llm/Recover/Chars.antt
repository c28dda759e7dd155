-- ===== src/Llm/Recover/Chars.antt =====
-- The string operations that crates/vlorql-llm/src/parser_v2/recover uses. A `str` is the list of its
-- characters here, and a byte offset the number of characters before it. `len` counts bytes.
use vlor_ql.Common.{
  ℕ, ◌+◌, List, [], ◌∷◌, Bool, ◌&&◌, ◌||◌, if◌then◌else◌, nat_eq, ltb, leb, Option, none, some,
  is_empty, any,
}
use vlor_ql.Common.Text.{starts_with}

abbrev pub Str : Type 0
Str = List ℕ

abbrev pub quote : ℕ
quote = 34

abbrev pub backslash : ℕ
backslash = 92

abbrev pub open_brace : ℕ
open_brace = 123

abbrev pub close_brace : ℕ
close_brace = 125

abbrev pub open_bracket : ℕ
open_bracket = 91

abbrev pub close_bracket : ℕ
close_bracket = 93

abbrev pub newline : ℕ
newline = 10

-- `char::is_whitespace`: Unicode's White_Space.
unfoldable pub is_whitespace : ℕ → Bool
is_whitespace c =
    (leb 9 c && leb c 13)
    || (leb 8192 c && leb c 8202)
    || any (nat_eq c) (32 ∷ 133 ∷ 160 ∷ 5760 ∷ 8232 ∷ 8233 ∷ 8239 ∷ 8287 ∷ 12288 ∷ [])

unfoldable pub trim_start : Str → Str
trim_start [] = []
trim_start (c ∷ s) = let rest = trim_start s in if is_whitespace c then rest else c ∷ s

unfoldable pub trim_end : Str → Str
trim_end [] = []
trim_end (c ∷ s) =
    let rest = trim_end s in if is_empty rest && is_whitespace c then [] else c ∷ rest

unfoldable pub trim : Str → Str
trim s = trim_end (trim_start s)

-- `char::len_utf8`
abbrev pub len_utf8 : ℕ → ℕ
len_utf8 c = if ltb c 128 then 1 else if ltb c 2048 then 2 else if ltb c 65536 then 3 else 4

-- `str::len`
unfoldable pub len : Str → ℕ
len [] = 0
len (c ∷ s) = len_utf8 c + len s

-- `text.find(c)` followed by the slice that starts there.
unfoldable pub from_char : ℕ → Str → Option Str
from_char c [] = none
from_char c (x ∷ s) = let rest = from_char c s in if nat_eq x c then some (x ∷ s) else rest

-- `text.contains(pat)`
unfoldable pub contains : Str → Str → Bool
contains pat [] = starts_with [] pat
contains pat (x ∷ s) = starts_with (x ∷ s) pat || contains pat s
