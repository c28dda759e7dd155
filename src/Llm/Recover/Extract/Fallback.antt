-- ===== src/Llm/Recover/Extract/Fallback.antt =====
-- The last fallback of `extract_json_content` in crates/vlorql-llm/src/parser_v2/recover/extract.rs.
use vlor_ql.Common.{
  ℕ, zero, suc, ◌≡◌, refl, ap, subst, ◌⊎◌, inl, inr, [], ◌∷◌, true, false, ◌&&◌, nat_eq, ltb,
  Option, none, some, take, arith, Bool-cases, Option-cases,
}
use vlor_ql.Llm.Recover.Chars.{Str, open_brace, close_brace, len}
use vlor_ql.Llm.Recover.Bracket.{find_matching_close, balanced_prefix}
use vlor_ql.Common.Tests.{is_some}
use vlor_ql.Llm.Recover.Json.{JsonParser, is_valid_json}
use vlor_ql.Llm.Recover.Best.{find_best_json_obj}
use vlor_ql.Llm.Recover.Best.Chosen.{whole, later, Candidate, find_best_json_obj-some}
use vlor_ql.Llm.Recover.Extract.{longest_from, find_longest_valid_json}

module _ (serde : JsonParser) where
  abbrev FromText : Str → Str → Type 0
  FromText text s = (v : serde.Value) × Candidate serde text s v

  Candidate-later : (c : ℕ) (text s : Str) → FromText text s → FromText (c ∷ text) s
  Candidate-later c text s (v, (rest, w, b, p)) = (v, (rest, later w, b, p))

  Candidate-after :
      (c : ℕ) (rest s : Str) {b : Option Str}
      → (b ≡ some s) ⊎ FromText rest s
      → (b ≡ some s) ⊎ FromText (c ∷ rest) s
  Candidate-after c rest s (inl e) = inl e
  Candidate-after c rest s (inr f) = inr (Candidate-later c rest s f)

  valid-parsed :
      (s : Str) → is_valid_json serde s ≡ true → (v : serde.Value) × (serde.from_str s ≡ some v)
  unfolding is_valid_json is_some
  valid-parsed s h = elim (Option-cases (serde.from_str s)) [
    | inl e ↦ let never : false ≡ true = rw e at h in cc
    | inr f ↦ f
  ]

  Candidate-here :
      (c : ℕ) (rest : Str) (k : ℕ)
      → nat_eq c open_brace ≡ true
      → find_matching_close (c ∷ rest) open_brace close_brace ≡ some k
      → is_valid_json serde (take (suc k) (c ∷ rest)) ≡ true
      → FromText (c ∷ rest) (take (suc k) (c ∷ rest))
  unfolding balanced_prefix
  Candidate-here c rest k brace found valid =
      let same : c ≡ open_brace = ground arith in
      let (v, parsed) = valid-parsed _ valid in
      let close = rw same at found in
      (v, (rest, whole (ap (λ x. x ∷ rest) same), rw (same, close) refl, parsed))

  -- What the loop returns was there before or is a candidate of the text.
  longest_from-Candidate :
      (skip : ℕ) (best : Option Str) (n : ℕ) (text s : Str)
      → longest_from serde skip best n text ≡ some s
      → (best ≡ some s) ⊎ FromText text s
  unfolding longest_from
  longest_from-Candidate skip best n [] s h = inl h
  longest_from-Candidate (suc skip) best n (c ∷ rest) s h =
      Candidate-after c rest s (longest_from-Candidate skip best n rest s h)
  longest_from-Candidate zero best n (c ∷ rest) s h = elim (Bool-cases (nat_eq c open_brace)) [
    | inr other ↦
        Candidate-after c rest s
          (longest_from-Candidate 0 best n rest s (rw (other, longest_from) at h))
    | inl brace ↦ elim (Option-cases (find_matching_close (c ∷ rest) open_brace close_brace)) [
      | inl nothing ↦
          Candidate-after c rest s
            (longest_from-Candidate 0 best n rest s (rw (brace, nothing, longest_from) at h))
      | inr (k, found) ↦
          elim (Bool-cases (
            ltb n (len (take (suc k) (c ∷ rest)))
            && is_valid_json serde (take (suc k) (c ∷ rest)))) [
              | inr worse ↦ Candidate-after c rest s (
                  longest_from-Candidate k best n rest s
                    (rw (brace, found, worse, longest_from) at h))
              | inl better ↦
                  elim (longest_from-Candidate k (some (take (suc k) (c ∷ rest)))
                    (len (take (suc k) (c ∷ rest))) rest s
                    (rw (brace, found, better, longest_from) at h)) [
                      | inr f ↦ inr (Candidate-later c rest s f)
                      | inl e ↦
                          let same : take (suc k) (c ∷ rest) ≡ s = cc in
                          inr (
                            subst (FromText (c ∷ rest)) same
                              (Candidate-here c rest k brace found (ground arith)))
                    ]
            ]
    ]
  ]

  -- Where the search for the best object finds nothing, the search for the longest finds nothing either.
  pub find_longest_valid_json-none :
      (text : Str)
      → find_best_json_obj serde text ≡ none
      → find_longest_valid_json serde text ≡ none
  unfolding find_longest_valid_json is_some
  find_longest_valid_json-none text h = elim (Option-cases (find_longest_valid_json serde text)) [
    | inl e ↦ e
    | inr (s, e) ↦ elim (longest_from-Candidate 0 none 0 text s e) [
      | inl x ↦ cc
      | inr (v, f) ↦
          let found = find_best_json_obj-some serde text s v f in
          let never : false ≡ true = rw h at found in cc
    ]
  ]
