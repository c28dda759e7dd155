-- ===== src/Llm/Recover/Best/Chosen.antt =====
-- Which object `find_best_json_obj` of crates/vlorql-llm/src/parser_v2/recover/bracket.rs returns.
use vlor_ql.Common.{
  ℕ, ◌≤◌, ◌≡◌, refl, ◌⊎◌, inl, inr, [], ◌∷◌, Bool, true, false, ◌||◌, not, nat_eq, Option, none,
  some, arith, Bool-cases, Option-cases,
}
use vlor_ql.Llm.Recover.Chars.{Str, open_brace, close_brace, len}
use vlor_ql.Llm.Recover.Bracket.{balanced_prefix}
use vlor_ql.Common.Tests.{is_some, is_some_and}
use vlor_ql.Llm.Recover.Json.{JsonParser}
use vlor_ql.Llm.Recover.Best.{
  Search, score_greater, looks_like_plan, keep_better, try_balanced, visit, search_from,
  search_start, lacks_plan, try_repair, find_best_json_obj,
}

-- The text `rest` stands at the end of a text.
pub data EndsIn (rest : Str) : Str → Type 0 where
  whole : {text : Str} → text ≡ rest → EndsIn rest text
  later : {c : ℕ} {text : Str} → EndsIn rest text → EndsIn rest (c ∷ text)

module _ (serde : JsonParser) where
  -- `c` is the balanced `{..}` at some position of the text, and parses to `v`.
  abbrev pub Candidate : Str → Str → serde.Value → Type 0
  Candidate text c v =
      (rest : Str) × EndsIn (open_brace ∷ rest) text
      × (balanced_prefix open_brace close_brace (open_brace ∷ rest) ≡ some c)
      × (serde.from_str c ≡ some v)

  -- The score belongs to the best candidate so far, which parses.
  record Scored (st : Search) : Type 0 where
    parsed :
        (c : Str)
        → st.best ≡ some c
        → (v : serde.Value) × (serde.from_str c ≡ some v)
          × (st.best_score.0 ≡ looks_like_plan serde v)
          × (st.best_score.1 ≡ len c)

  -- A plan of at least `n` bytes was found.
  abbrev HasPlan : ℕ → Search → Type 0
  HasPlan n st = (is_some st.best ≡ true) × (st.best_score.0 ≡ true) × (n ≤ st.best_score.1)

  keep_better-Scored :
      (c : Str) (o : Option serde.Value) (st : Search)
      → serde.from_str c ≡ o
      → Scored st
      → Scored (keep_better serde c o st)
  unfolding keep_better
  keep_better-Scored c none st e h = h
  keep_better-Scored c (some v) st e h =
      elim (Bool-cases
        (not (is_some st.best) || score_greater (looks_like_plan serde v, len c) st.best_score)) [
          | inl y ↦
              rw y record { parsed = λ d same. let eq : c ≡ d = cc in rw⁻¹ eq (v, e, refl, refl) }
          | inr n ↦ rw n h
        ]

  keep_better-HasPlan :
      (c : Str) (o : Option serde.Value) (n : ℕ) (st : Search)
      → HasPlan n st
      → HasPlan n (keep_better serde c o st)
  unfolding keep_better score_greater is_some
  keep_better-HasPlan c none n st h = h
  keep_better-HasPlan c (some v) n st h = elim (Bool-cases (looks_like_plan serde v)) [
    | inl y ↦ ground arith
    | inr k ↦ ground arith
  ]

  -- The loop reaches every candidate.
  keep_better-reaches :
      (c : Str) (v : serde.Value) (st : Search)
      → looks_like_plan serde v ≡ true
      → HasPlan (len c) (keep_better serde c (some v) st)
  unfolding keep_better score_greater is_some
  keep_better-reaches c v st y = ground arith

  try_balanced-Scored :
      (o : Option Str) (rest : Str) (st : Search)
      → Scored st
      → Scored (try_balanced serde o rest st)
  unfolding try_balanced
  try_balanced-Scored none rest st h = elim (Bool-cases (not (is_some st.outermost_start))) [
    | inl y ↦ rw y record { parsed = h.parsed }
    | inr n ↦ rw n h
  ]
  try_balanced-Scored (some c) rest st h = keep_better-Scored c (serde.from_str c) st refl h

  try_balanced-HasPlan :
      (o : Option Str) (rest : Str) (n : ℕ) (st : Search)
      → HasPlan n st
      → HasPlan n (try_balanced serde o rest st)
  unfolding try_balanced
  try_balanced-HasPlan none rest n st h = ground arith
  try_balanced-HasPlan (some c) rest n st h = keep_better-HasPlan c (serde.from_str c) n st h

  visit-Scored : (text : Str) (st : Search) → Scored st → Scored (visit serde text st)
  unfolding visit
  visit-Scored [] st h = h
  visit-Scored (c ∷ rest) st h = elim (Bool-cases (nat_eq c open_brace)) [
    | inl y ↦ rw y (try_balanced-Scored _ (c ∷ rest) st h)
    | inr n ↦ rw n h
  ]

  visit-HasPlan :
      (text : Str) (n : ℕ) (st : Search) → HasPlan n st → HasPlan n (visit serde text st)
  unfolding visit
  visit-HasPlan [] n st h = h
  visit-HasPlan (c ∷ rest) n st h = elim (Bool-cases (nat_eq c open_brace)) [
    | inl y ↦ rw y (try_balanced-HasPlan _ (c ∷ rest) n st h)
    | inr k ↦ rw k h
  ]

  search_from-Scored : (text : Str) (st : Search) → Scored st → Scored (search_from serde text st)
  unfolding search_from
  search_from-Scored [] st h = h
  search_from-Scored (c ∷ rest) st h = search_from-Scored rest _ (visit-Scored (c ∷ rest) st h)

  search_from-HasPlan :
      (text : Str) (n : ℕ) (st : Search) → HasPlan n st → HasPlan n (search_from serde text st)
  unfolding search_from
  search_from-HasPlan [] n st h = h
  search_from-HasPlan (c ∷ rest) n st h =
      search_from-HasPlan rest n _ (visit-HasPlan (c ∷ rest) n st h)

  search_from-reaches :
      (text rest c : Str) (v : serde.Value) (st : Search)
      → EndsIn (open_brace ∷ rest) text
      → balanced_prefix open_brace close_brace (open_brace ∷ rest) ≡ some c
      → serde.from_str c ≡ some v
      → looks_like_plan serde v ≡ true
      → HasPlan (len c) (search_from serde text st)
  unfolding search_from visit try_balanced
  search_from-reaches [] rest c v st (whole e) b p y = cc
  search_from-reaches (d ∷ text) rest c v st (whole e) b p y =
      rw e (search_from-HasPlan rest (len c) _ (rw (b, p) (keep_better-reaches c v st y)))
  search_from-reaches (d ∷ text) rest c v st (later w) b p y =
      search_from-reaches text rest c v _ w b p y

  search_start-Scored : Scored search_start
  search_start-Scored = record { parsed = λ c h. cc }

  is_some_and_sound :
      {A : Type 0} (p : A → Bool) (o : Option A)
      → is_some_and p o ≡ true
      → (a : A) × (o ≡ some a) × (p a ≡ true)
  unfolding is_some_and
  is_some_and_sound p none h = cc
  is_some_and_sound p (some a) h = (a, refl, h)

  try_repair-cases :
      (best o : Option Str) (s : Str)
      → try_repair serde best o ≡ some s
      → (best ≡ some s) ⊎ (is_some_and (looks_like_plan serde) (serde.from_str s) ≡ true)
  unfolding try_repair
  try_repair-cases best none s h = inl h
  try_repair-cases best (some c) s h = ground arith

  -- The answer is the best candidate or a repaired text that is a plan.
  find_best_json_obj-cases :
      (text s : Str)
      → find_best_json_obj serde text ≡ some s
      → ((search_from serde text search_start).best ≡ some s)
        ⊎ (is_some_and (looks_like_plan serde) (serde.from_str s) ≡ true)
  unfolding find_best_json_obj
  find_best_json_obj-cases text s h =
      let st = search_from serde text search_start in
      ground (arith, try_repair-cases st.best st.outermost_start s)

  -- What `find_best_json_obj` returns parses as JSON.
  pub find_best_json_obj-parses :
      (text s : Str)
      → find_best_json_obj serde text ≡ some s
      → (v : serde.Value) × (serde.from_str s ≡ some v)
  find_best_json_obj-parses text s h = elim (find_best_json_obj-cases text s h) [
    | inl best ↦
        let (v, p, _, _) =
          (search_from-Scored text search_start search_start-Scored).parsed s best in
        (v, p)
    | inr plan ↦ let (v, p, _) = is_some_and_sound (looks_like_plan serde) _ plan in (v, p)
  ]

  -- If some balanced `{..}` of the text parses to a plan, then the answer is a plan of at least its length.
  pub find_best_json_obj-plan :
      (text c : Str) (v : serde.Value)
      → Candidate text c v
      → looks_like_plan serde v ≡ true
      → (s : Str) × (w : serde.Value) × (find_best_json_obj serde text ≡ some s)
        × (serde.from_str s ≡ some w)
        × (looks_like_plan serde w ≡ true)
        × (len c ≤ len s)
  unfolding find_best_json_obj lacks_plan is_some_and is_some
  find_best_json_obj-plan text c v (rest, w, b, p) y =
      let st = search_from serde text search_start in
      let (found, plan, longer) = search_from-reaches text rest c v search_start w b p y in
      let scored = search_from-Scored text search_start search_start-Scored in
      elim (Option-cases st.best) [
        | inl nothing ↦ let never : false ≡ true = rw nothing at found in cc
        | inr (s, e) ↦
            let (u, q, l, n) = scored.parsed s e in
            (s, u, ground arith, q, ground arith, omega arith)
      ]

  -- Any candidate that parses leaves a result.
  keep_better-some :
      (c : Str) (o : Option serde.Value) (st : Search)
      → is_some st.best ≡ true
      → is_some (keep_better serde c o st).best ≡ true
  unfolding keep_better is_some
  keep_better-some c none st h = h
  keep_better-some c (some v) st h = ground arith

  try_balanced-some :
      (o : Option Str) (r : Str) (st : Search)
      → is_some st.best ≡ true
      → is_some (try_balanced serde o r st).best ≡ true
  unfolding try_balanced
  try_balanced-some none r st h = ground arith
  try_balanced-some (some d) r st h = keep_better-some d (serde.from_str d) st h

  visit-some :
      (text : Str) (st : Search)
      → is_some st.best ≡ true
      → is_some (visit serde text st).best ≡ true
  unfolding visit
  visit-some [] st h = h
  visit-some (c ∷ rest) st h =
      ground (
        arith,
        try_balanced-some (balanced_prefix open_brace close_brace (c ∷ rest)) (c ∷ rest) st h,
      )

  search_from-some :
      (text : Str) (st : Search)
      → is_some st.best ≡ true
      → is_some (search_from serde text st).best ≡ true
  unfolding search_from
  search_from-some [] st h = h
  search_from-some (c ∷ rest) st h = search_from-some rest _ (visit-some (c ∷ rest) st h)

  search_from-some_reaches :
      (text rest c : Str) (v : serde.Value) (st : Search)
      → EndsIn (open_brace ∷ rest) text
      → balanced_prefix open_brace close_brace (open_brace ∷ rest) ≡ some c
      → serde.from_str c ≡ some v
      → is_some (search_from serde text st).best ≡ true
  unfolding search_from visit try_balanced keep_better is_some
  search_from-some_reaches [] rest c v st (whole e) b p = cc
  search_from-some_reaches (d ∷ text) rest c v st (whole e) b p =
      rw e (search_from-some rest _ (rw (b, p) (ground arith)))
  search_from-some_reaches (d ∷ text) rest c v st (later w) b p =
      search_from-some_reaches text rest c v _ w b p

  -- If some balanced `{..}` of the text parses, then there is an answer.
  pub find_best_json_obj-some :
      (text c : Str) (v : serde.Value)
      → Candidate text c v
      → is_some (find_best_json_obj serde text) ≡ true
  unfolding find_best_json_obj try_repair is_some
  find_best_json_obj-some text c v (rest, w, b, p) =
      let found = search_from-some_reaches text rest c v search_start w b p in
      elim (Option-cases (search_from serde text search_start).outermost_start) [
        | inl nothing ↦ ground arith
        | inr (s, e) ↦ ground arith
      ]
