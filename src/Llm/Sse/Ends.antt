-- ===== src/Llm/Sse/Ends.antt =====
-- What `drive_sse_consumer_with` of crates/vlorql-llm/src/sse.rs sends and returns.
use vlor_ql.Common.{
  ℕ, suc, ◌≡◌, refl, ap, ◌⊎◌, inl, inr, List, [], ◌∷◌, Bool, true, false, not, map,
}
use vlor_ql.Common.Lists.{any}
use vlor_ql.Llm.Recover.Chars.{Str}
use vlor_ql.Llm.Sse.{
  line, Message, content, Payload, skipped, done, delta, Consumer, payload_of, consume,
  drive_sse_consumer_with,
}

module _ (consumer : Consumer) where
  abbrev pub is_done : Payload → Bool
  is_done done = true
  is_done _ = false

  -- The deltas of the lines before the first that says that the stream is done.
  abbrev pub deltas_before_done : List Str → List Message
  deltas_before_done [] = []
  deltas_before_done (text ∷ texts) =
      let rest = deltas_before_done texts in
      elim (payload_of consumer text) [ skipped ↦ rest | done ↦ [] | delta t ↦ content t ∷ rest ]

  Payload-cases : (p : Payload) → (p ≡ skipped) ⊎ ((p ≡ done) ⊎ ((t : Str) × (p ≡ delta t)))
  Payload-cases skipped = inl refl
  Payload-cases done = inr (inl refl)
  Payload-cases (delta t) = inr (inr (t, refl))

  consume-lines :
      ((n : ℕ) → consumer.receiver_gone n ≡ false)
      → (attempt sent : ℕ) (texts : List Str)
      → consume consumer attempt sent (map line texts)
        ≡ (deltas_before_done texts, not (any (λ t. is_done (payload_of consumer t)) texts))
  unfolding consume any
  consume-lines listening attempt sent [] = refl
  consume-lines listening attempt sent (text ∷ texts) =
      elim (Payload-cases (payload_of consumer text)) [
        | inl p ↦ rw (consume, deltas_before_done, p) (consume-lines listening attempt sent texts)
        | inr (inl p) ↦ rw (consume, deltas_before_done, p) refl
        | inr (inr (t, p)) ↦
            rw (consume, deltas_before_done, p, listening sent)
              (ap (λ r. (content t ∷ r.0, r.1)) (consume-lines listening attempt (suc sent) texts))
      ]

  -- While the receiver listens and no read fails, the consumer sends the deltas before the line that says
  -- that the stream is done, and returns `false` exactly if there is such a line.
  pub drive_sse_consumer_with-lines :
      ((n : ℕ) → consumer.receiver_gone n ≡ false)
      → (texts : List Str)
      → drive_sse_consumer_with consumer (map line texts)
        ≡ (deltas_before_done texts, not (any (λ t. is_done (payload_of consumer t)) texts))
  unfolding drive_sse_consumer_with
  drive_sse_consumer_with-lines listening texts = consume-lines listening 0 0 texts
