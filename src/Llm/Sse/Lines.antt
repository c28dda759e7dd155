-- ===== src/Llm/Sse/Lines.antt =====
-- The lines of a stream of bytes: `sse_lines` of crates/vlorql-llm/src/sse.rs. `from_utf8_lossy` is a
-- parameter.
pub mod Cut
pub mod Chunks
use vlor_ql.Common.{
  ℕ, zero, suc, List, [], ◌∷◌, ◌++◌, ◌&&◌, if◌then◌else◌, nat_eq, is_empty, Option, none, some,
  ◌>>=◌,
}
use vlor_ql.Common.Text.{Text}
use vlor_ql.Llm.Recover.Chars.{Str}

-- What the stream of bytes gives when it is polled.
pub data Inner : Type 0 where
  bytes_ready : List ℕ → Inner
  inner_error : Text → Inner
  inner_pending : Inner

pub data Poll : Type 0 where
  ready_line : Str → Poll
  ready_error : Text → Poll
  ready_none pending : Poll

-- The state: what is still to come, and the bytes of a line that has no end yet. A stream that is
-- exhausted stays so.
pub record SseLines : Type 0 where
  pub inner : List Inner
  pub buffer : List ℕ

-- The bytes before the first line feed and those behind it.
unfoldable pub cut : List ℕ → Option (List ℕ × List ℕ)
cut [] = none
cut (c ∷ s) =
    let rest = cut s in if nat_eq c 10 then some ([], s) else rest >>= λ p. some (c ∷ p.0, p.1)

-- Without a carriage return at the end.
unfoldable pub strip_cr : List ℕ → List ℕ
strip_cr [] = []
strip_cr (c ∷ s) = let rest = strip_cr s in if is_empty s && nat_eq c 13 then [] else c ∷ rest

module _ (from_utf8_lossy : List ℕ → Str) where
  -- The line that is taken, and the buffer after it.
  unfoldable pub take_line : List ℕ → Option (Str × List ℕ)
  take_line buffer = cut buffer >>= λ p. some (from_utf8_lossy (strip_cr p.0), p.1)

  unfoldable pub line_or_pending : List Inner → List ℕ → Option (Str × List ℕ) → SseLines × Poll
  line_or_pending inner buffer (some (text, rest)) =
      (record { inner = inner; buffer = rest }, ready_line text)
  line_or_pending inner buffer none = (record { inner = inner; buffer = buffer }, pending)

  -- `match inner.poll_next(context)`
  unfoldable pub poll_inner : List Inner → List ℕ → SseLines × Poll
  poll_inner [] [] = (record { inner = []; buffer = [] }, ready_none)
  poll_inner [] (c ∷ buffer) =
      (record { inner = []; buffer = [] }, ready_line (from_utf8_lossy (c ∷ buffer)))
  poll_inner (bytes_ready bs ∷ inner) buffer =
      line_or_pending inner (buffer ++ bs) (take_line (buffer ++ bs))
  poll_inner (inner_error e ∷ inner) buffer =
      (record { inner = inner; buffer = buffer }, ready_error e)
  poll_inner (inner_pending ∷ inner) buffer = (record { inner = inner; buffer = buffer }, pending)

  unfoldable pub line_or_inner : List Inner → List ℕ → Option (Str × List ℕ) → SseLines × Poll
  line_or_inner inner buffer (some (text, rest)) =
      (record { inner = inner; buffer = rest }, ready_line text)
  line_or_inner inner buffer none = poll_inner inner buffer

  unfoldable pub poll_next : SseLines → SseLines × Poll
  poll_next st = line_or_inner st.inner st.buffer (take_line st.buffer)
