-- ===== src/Llm/Sse.antt =====
-- Server-sent events: `drive_sse_consumer_with` in
-- crates/vlorql-llm/src/sse.rs.
pub mod Ends
pub mod Lines
use vlor_ql.Common.{
  ℕ, zero, suc, ◌+◌, List, [], ◌∷◌, ◌++◌, Bool, true, false, ◌&&◌, ◌||◌, if◌then◌else◌, ltb, leb,
  nat_eq, is_empty, length, drop, Option, none, some,
}
use vlor_ql.Common.Text.{Text, bytes, ◌==◌, starts_with}
use vlor_ql.Llm.Recover.Chars.{Str, trim}

-- An item of the stream of lines: a line, or the text of an I/O error.
pub data LineItem : Type 0 where
  line : Str → LineItem
  io_error : Text → LineItem

-- What is sent to the receiver.
pub data Message : Type 0 where
  content : Str → Message
  sse_error : Text → Message

-- What a line means to the consumer.
pub data Payload : Type 0 where
  skipped : Payload
  done : Payload
  delta : Str → Payload

pub record Consumer : Type 0 where
  pub max_attempts : ℕ
  -- `serde_json::from_str` and the delta of the provider: nothing for a malformed chunk
  pub extract : Str → Option Str
  -- whether the receiver is gone after so many messages
  pub receiver_gone : ℕ → Bool

abbrev pub sse_done : Str
sse_done = bytes "[DONE]"

module _ (consumer : Consumer) where
  unfoldable pub delta_of : Option Str → Payload
  delta_of none = skipped
  delta_of (some text) = if is_empty text then skipped else delta text

  unfoldable pub payload_of : Str → Payload
  payload_of text =
      let trimmed = trim text in
      let payload = trim (drop 5 trimmed) in
      if is_empty trimmed
      then skipped
      else if starts_with trimmed (bytes "data:")
      then (if payload == sse_done then done else delta_of (consumer.extract payload))
      else skipped

  -- `max_attempts.max(1)`
  unfoldable pub attempts : ℕ
  attempts = if leb 1 consumer.max_attempts then consumer.max_attempts else 1

  -- The loops at `attempt`, after `sent` messages: what is sent, and the value that is returned. A line
  -- stream that is exhausted stays so, and ends every attempt that is left.
  unfoldable pub consume : (attempt sent : ℕ) → List LineItem → List Message × Bool
  consume attempt sent [] = ([], true)
  consume attempt sent (io_error e ∷ items) =
      let again = consume (attempt + 1) sent items in
      if ltb (attempt + 1) attempts then again else (sse_error e ∷ [], false)
  consume attempt sent (line text ∷ items) = elim (payload_of text) [
    | skipped ↦ consume attempt sent items
    | done ↦ ([], false)
    | delta t ↦
        let again = consume attempt (suc sent) items in
        if consumer.receiver_gone sent then ([], true) else (content t ∷ again.0, again.1)
  ]

  unfoldable pub drive_sse_consumer_with : List LineItem → List Message × Bool
  drive_sse_consumer_with items = consume 0 0 items
