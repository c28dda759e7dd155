-- ===== src/Llm/Sse/Lines/Chunks.antt =====
-- The lines that `sse_lines` of crates/vlorql-llm/src/sse.rs gives do not depend on how the bytes are
-- cut into chunks.
use vlor_ql.Llm.Sse.Lines.Cut.{length-append, cut-some, cut-none, cut-length}
use vlor_ql.Common.{
  never, ℕ, zero, suc, ◌+◌, ◌<◌, ◌≡◌, refl, sym, ap, ◌∙◌, inl, inr, List, [], ◌∷◌, ◌++◌,
  if◌then◌else◌, nat_eq, length, arith, Option, none, some, Option-cases, ◌>>=◌,
}
use mathlib.Core.List.{append-nil, append_assoc}
use vlor_ql.Common.Text.{Text}
use vlor_ql.Llm.Recover.Chars.{Str}
use vlor_ql.Llm.Sse.Lines.{
  Inner, bytes_ready, inner_error, inner_pending, Poll, ready_line, ready_error, ready_none,
  pending, SseLines, cut, strip_cr, take_line, line_or_pending, line_or_inner, poll_inner,
  poll_next,
}

-- The bytes that are still to come.
abbrev pub bytes_of : List Inner → List ℕ
bytes_of [] = []
bytes_of (bytes_ready bs ∷ inner) = bs ++ bytes_of inner
bytes_of (inner_error e ∷ inner) = bytes_of inner
bytes_of (inner_pending ∷ inner) = bytes_of inner

-- A bound on the polls that are left.
abbrev pub weight : List Inner → ℕ
weight [] = 0
weight (bytes_ready bs ∷ inner) = suc (length bs + weight inner)
weight (inner_error e ∷ inner) = suc (weight inner)
weight (inner_pending ∷ inner) = suc (weight inner)

module _ (from_utf8_lossy : List ℕ → Str) where
  -- The lines of a text of bytes whose first line starts with `acc`; the last may have no end.
  unfoldable pub lines_from : List ℕ → List ℕ → List Str
  lines_from [] [] = []
  lines_from (a ∷ acc) [] = from_utf8_lossy (a ∷ acc) ∷ []
  lines_from acc (c ∷ s) =
      let next = lines_from [] s in
      let more = lines_from (acc ++ c ∷ []) s in
      if nat_eq c 10 then from_utf8_lossy (strip_cr acc) ∷ next else more

  unfoldable pub after_poll : Poll → Option (List Str) → Option (List Str)
  after_poll (ready_line text) rest = rest >>= λ texts. some (text ∷ texts)
  after_poll (ready_error e) rest = rest
  after_poll ready_none rest = some []
  after_poll pending rest = rest

  -- The lines that come until the end, within so many polls.
  unfoldable pub lines_polled : ℕ → SseLines → Option (List Str)
  lines_polled zero st = none
  lines_polled (suc polls) st =
      let polled = poll_next from_utf8_lossy st in
      let rest = lines_polled polls polled.0 in after_poll polled.1 rest

  lines_from-cons :
      (acc : List ℕ) (c : ℕ) (s : List ℕ)
      → lines_from acc (c ∷ s) ≡ (
          if nat_eq c 10
          then from_utf8_lossy (strip_cr acc) ∷ lines_from [] s
          else lines_from (acc ++ c ∷ []) s)
  unfolding lines_from
  lines_from-cons [] c s = refl
  lines_from-cons (a ∷ acc) c s = refl

  lines_from_line :
      (acc b x y s : List ℕ)
      → cut b ≡ some (x, y)
      → lines_from acc (b ++ s) ≡ from_utf8_lossy (strip_cr (acc ++ x)) ∷ lines_from [] (y ++ s)
  unfolding cut
  lines_from_line acc [] x y s h = cc
  lines_from_line acc (c ∷ b) x y s h = elim (cut-some c b x y h) [
    | inl (e, first, rest) ↦
        lines_from-cons acc c (b ++ s) ∙ rw (e, ← first, ← rest, append-nil acc) refl
    | inr (e, before, t, same) ↦
        lines_from-cons acc c (b ++ s)
        ∙ rw e (
            lines_from_line (acc ++ c ∷ []) b before y s t
            ∙ ap (λ l. from_utf8_lossy (strip_cr l) ∷ lines_from [] (y ++ s))
                (append_assoc acc (c ∷ []) before ∙ ap (λ l. acc ++ l) same))
  ]

  lines_from_rest :
      (acc b s : List ℕ) → cut b ≡ none → lines_from acc (b ++ s) ≡ lines_from (acc ++ b) s
  lines_from_rest acc [] s h = ap (λ l. lines_from l s) (sym (append-nil acc))
  lines_from_rest acc (c ∷ b) s h =
      let (e, n) = cut-none c b h in
      lines_from-cons acc c (b ++ s)
      ∙ rw e (
          lines_from_rest (acc ++ c ∷ []) b s n
          ∙ ap (λ l. lines_from l s) (append_assoc acc (c ∷ []) b))

  lines_from_end : (acc : List ℕ) (b : ℕ) → lines_from (b ∷ acc) [] ≡ from_utf8_lossy (b ∷ acc) ∷ []
  unfolding lines_from
  lines_from_end acc b = refl

  take_line-some :
      (buffer : List ℕ) (p : List ℕ × List ℕ)
      → cut buffer ≡ some p
      → take_line from_utf8_lossy buffer ≡ some (from_utf8_lossy (strip_cr p.0), p.1)
  unfolding take_line
  take_line-some buffer p h = rw h refl

  take_line-none : (buffer : List ℕ) → cut buffer ≡ none → take_line from_utf8_lossy buffer ≡ none
  unfolding take_line
  take_line-none buffer h = rw h refl

  poll_next_line :
      (inner : List Inner) (buffer : List ℕ) (p : List ℕ × List ℕ)
      → cut buffer ≡ some p
      → poll_next from_utf8_lossy (record { inner = inner; buffer = buffer })
        ≡ (record { inner = inner; buffer = p.1 }, ready_line (from_utf8_lossy (strip_cr p.0)))
  unfolding poll_next line_or_inner
  poll_next_line inner buffer p h =
      ap (line_or_inner from_utf8_lossy inner buffer) (take_line-some buffer p h)

  poll_next_inner :
      (inner : List Inner) (buffer : List ℕ)
      → cut buffer ≡ none
      → poll_next from_utf8_lossy (record { inner = inner; buffer = buffer })
        ≡ poll_inner from_utf8_lossy inner buffer
  unfolding poll_next line_or_inner
  poll_next_inner inner buffer h =
      ap (line_or_inner from_utf8_lossy inner buffer) (take_line-none buffer h)

  lines_polled_line :
      (polls : ℕ) (st next : SseLines) (text : Str) (texts : List Str)
      → poll_next from_utf8_lossy st ≡ (next, ready_line text)
      → lines_polled polls next ≡ some texts
      → lines_polled (suc polls) st ≡ some (text ∷ texts)
  unfolding lines_polled after_poll
  lines_polled_line polls st next text texts polled rest =
      ap (λ r. after_poll r.1 (lines_polled polls r.0)) polled
      ∙ ap (after_poll (ready_line text)) rest

  lines_polled_pending :
      (polls : ℕ) (st next : SseLines)
      → poll_next from_utf8_lossy st ≡ (next, pending)
      → lines_polled (suc polls) st ≡ lines_polled polls next
  unfolding lines_polled after_poll
  lines_polled_pending polls st next polled =
      ap (λ r. after_poll r.1 (lines_polled polls r.0)) polled

  lines_polled_error :
      (polls : ℕ) (st next : SseLines) (e : Text)
      → poll_next from_utf8_lossy st ≡ (next, ready_error e)
      → lines_polled (suc polls) st ≡ lines_polled polls next
  unfolding lines_polled after_poll
  lines_polled_error polls st next e polled =
      ap (λ r. after_poll r.1 (lines_polled polls r.0)) polled

  lines_polled_end :
      (polls : ℕ) → lines_polled (suc polls) (record { inner = []; buffer = [] }) ≡ some []
  unfolding lines_polled after_poll poll_next line_or_inner take_line cut poll_inner
  lines_polled_end polls = refl

  -- Within so many polls, the lines of all the bytes come.
  abbrev Delivers : ℕ → List Inner → List ℕ → Type 0
  Delivers polls inner buffer =
      lines_polled polls (record { inner = inner; buffer = buffer })
      ≡ some (lines_from [] (buffer ++ bytes_of inner))

  line-Delivers :
      (polls : ℕ) (inner : List Inner) (buffer x y : List ℕ) (st : SseLines)
      → cut buffer ≡ some (x, y)
      → poll_next from_utf8_lossy st
        ≡ (record { inner = inner; buffer = y }, ready_line (from_utf8_lossy (strip_cr x)))
      → Delivers polls inner y
      → lines_polled (suc polls) st ≡ some (lines_from [] (buffer ++ bytes_of inner))
  line-Delivers polls inner buffer x y st e polled rest =
      lines_polled_line polls st _ _ _ polled rest
      ∙ ap some (sym (lines_from_line [] buffer x y (bytes_of inner) e))

  inner-Delivers :
      (polls : ℕ)
      → ((inner : List Inner) (buffer : List ℕ)
          → suc (length buffer + weight inner) < polls
          → Delivers polls inner buffer)
      → (inner : List Inner) (buffer : List ℕ) → cut buffer ≡ none
      → length buffer + weight inner < polls
      → Delivers (suc polls) inner buffer
  unfolding poll_inner line_or_pending lines_from
  inner-Delivers polls ih [] [] n h = lines_polled_end polls
  inner-Delivers polls ih [] (c ∷ buffer) n h =
      lines_polled_line polls _ _ _ [] (poll_next_inner [] (c ∷ buffer) n) (ih [] [] (omega arith))
      ∙ ap some (sym (lines_from_rest [] (c ∷ buffer) [] n))
  inner-Delivers polls ih (bytes_ready bs ∷ inner) buffer n h =
      elim (Option-cases (cut (buffer ++ bs))) [
        | inr (p, e) ↦
            let shorter = cut-length (buffer ++ bs) p.0 p.1 e in
            let whole = length-append buffer bs in
            line-Delivers polls inner (buffer ++ bs) p.0 p.1 _ e
              (poll_next_inner _ buffer n
                ∙ ap (line_or_pending from_utf8_lossy inner (buffer ++ bs)) (take_line-some _ p e))
              (ih inner p.1 (omega arith))
            ∙ ap (λ l. some (lines_from [] l)) (append_assoc buffer bs (bytes_of inner))
        | inl e ↦
            let whole = length-append buffer bs in
            lines_polled_pending polls _ _ (
              poll_next_inner _ buffer n
              ∙ ap (line_or_pending from_utf8_lossy inner (buffer ++ bs)) (take_line-none _ e))
            ∙ ih inner (buffer ++ bs) (omega arith)
            ∙ ap (λ l. some (lines_from [] l)) (append_assoc buffer bs (bytes_of inner))
      ]
  inner-Delivers polls ih (inner_error e ∷ inner) buffer n h =
      lines_polled_error polls _ _ e (poll_next_inner _ buffer n) ∙ ih inner buffer (omega arith)
  inner-Delivers polls ih (inner_pending ∷ inner) buffer n h =
      lines_polled_pending polls _ _ (poll_next_inner _ buffer n) ∙ ih inner buffer (omega arith)

  -- However the bytes come in chunks, and whatever errors and pauses there are between them: polled more
  -- often than there are bytes and events, and once more, the stream of lines ends, and its lines are
  -- those of all the bytes.
  pub poll_next-lines :
      (polls : ℕ) (inner : List Inner) (buffer : List ℕ)
      → suc (length buffer + weight inner) < polls
      → lines_polled polls (record { inner = inner; buffer = buffer })
        ≡ some (lines_from [] (buffer ++ bytes_of inner))
  poll_next-lines zero inner buffer h = elim (never _ h) [ ]
  poll_next-lines (suc polls) inner buffer h = elim (Option-cases (cut buffer)) [
    | inr (p, e) ↦
        let shorter = cut-length buffer p.0 p.1 e in
        line-Delivers polls inner buffer p.0 p.1 _ e (poll_next_line inner buffer p e)
          (poll_next-lines polls inner p.1 (omega arith))
    | inl n ↦ inner-Delivers polls (poll_next-lines polls) inner buffer n (omega arith)
  ]
