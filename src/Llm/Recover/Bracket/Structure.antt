-- ===== src/Llm/Recover/Bracket/Structure.antt =====
-- The independent description of a matching delimiter: string literals are blanked out, and
-- delimiters are counted in the prefixes of what remains. See crates/vlorql-llm/src/parser_v2/recover/bracket.rs.
use vlor_ql.Common.{
  ℕ, zero, suc, ◌+◌, ◌≤◌, ◌<◌, ◌≡◌, ◌≢◌, refl, subst, ap, ◌∙◌, ◌↔◌, inl, inr, [], ◌∷◌, Bool, true,
  false, if◌then◌else◌, nat_eq, some, take, length, arith, Bool-cases, Nat-cases,
}
use vlor_ql.Llm.Recover.Chars.{Str, quote}
use vlor_ql.Llm.Recover.Bracket.{
  string_step, find_matching_close_from, find_matching_close, u32_size,
}

-- The text with the insides of its string literals blanked out.
unfoldable pub structural : Bool → Bool → Str → Str
structural in_string escaped [] = []
structural true escaped (ch ∷ rest) =
    let next = string_step escaped ch in 0 ∷ structural next.0 next.1 rest
structural false escaped (ch ∷ rest) = ch ∷ structural (nat_eq ch quote) escaped rest

abbrev pub count : ℕ → Str → ℕ
count c [] = 0
count c (x ∷ s) = let rest = count c s in if nat_eq x c then suc rest else rest

-- Starting with `suc d` opener delimiters, position `i` closes the last of them: one more is closed than
-- opened by `d` up to there, and none of the shorter prefixes does that.
abbrev pub Closes : ℕ → ℕ → Str → ℕ → ℕ → Type 0
Closes opener closer m d i =
    (count closer (take (suc i) m) ≡ suc d + count opener (take (suc i) m))
    × ((j : ℕ) → j ≤ i → count closer (take j m) ≤ d + count opener (take j m))

-- The first prefix, not empty, that closes as many delimiters as it opens outside string literals ends
-- at `n`.
abbrev pub Matches : ℕ → ℕ → Str → ℕ → Type 0
Matches opener closer text n =
    let m = structural false false text in
    (count closer (take (suc n) m) ≡ count opener (take (suc n) m))
    × ((j : ℕ) → j < n → count closer (take (suc j) m) < count opener (take (suc j) m))

module _ (opener closer : ℕ) (different : opener ≢ closer) where
  Closes-now : (m : Str) → Closes opener closer (closer ∷ m) 0 0
  Closes-now m = (ground arith, λ j h. ground arith)

  Closes-now_unique : (m : Str) (n : ℕ) → Closes opener closer (closer ∷ m) 0 n → n ≡ 0
  Closes-now_unique m zero h = refl
  Closes-now_unique m (suc n) h = let k = h.1 1 (omega arith) in ground arith

  -- The first character moves the depth from `d` to `e`.
  Closes-cons :
      (x : ℕ) (m : Str) (d e n : ℕ)
      → e + count closer (x ∷ []) ≡ d + count opener (x ∷ [])
      → Closes opener closer (x ∷ m) d (suc n) ↔ Closes opener closer m e n
  Closes-cons x m d e n move =
      (λ h. (ground arith, λ j k. ground (arith, h.1 (suc j))), λ h. (ground arith, prefixes h))
    where
      prefixes :
          Closes opener closer m e n
          → (j : ℕ) → j ≤ suc n
          → count closer (take j (x ∷ m)) ≤ d + count opener (take j (x ∷ m))
      prefixes h zero k = omega arith
      prefixes h (suc j) k = ground (arith, h.1 j)

  -- Position 0 closes only a closing delimiter at depth 0.
  Closes-zero :
      (x : ℕ) (m : Str) (d : ℕ) → Closes opener closer (x ∷ m) d 0 → (x ≡ closer) × (d ≡ 0)
  Closes-zero x m d h = (ground arith, ground arith)

  Closes-nil : (d n : ℕ) → ¬ (Closes opener closer [] d n)
  Closes-nil d n h = let k = h.0 in omega arith

  module _ (opener_quote : opener ≢ quote) (closer_quote : closer ≢ quote)
      (opener_zero : opener ≢ 0) (closer_zero : closer ≢ 0) where
    Found : ℕ → Str → ℕ → ℕ → Type 0
    Found i m d r = (n : ℕ) × (r ≡ i + n) × Closes opener closer m d n

    later :
        (x : ℕ) (m : Str) (i d e r : ℕ)
        → e + count closer (x ∷ []) ≡ d + count opener (x ∷ [])
        → Found (suc i) m e r
        → Found i (x ∷ m) d r
    unfolding Found
    later x m i d e r move (n, at, c) = (suc n, omega arith, (Closes-cons x m d e n move).1 c)

    find_matching_close_from_sound :
        (text : Str) (i d r : ℕ) (in_string escaped : Bool)
        → find_matching_close_from opener closer i (suc d) in_string escaped text ≡ some r
        → Found i (structural in_string escaped text) d r
    unfolding find_matching_close_from structural Found
    find_matching_close_from_sound [] i d r in_string escaped h = cc
    find_matching_close_from_sound (ch ∷ rest) i d r true escaped h =
        later 0 _ i d d r (ground arith) (find_matching_close_from_sound rest (suc i) d r _ _ h)
    find_matching_close_from_sound (ch ∷ rest) i d r false escaped h =
        elim (Bool-cases (nat_eq ch opener)) [
          | inl e ↦
              let plain : nat_eq ch quote ≡ false = ground arith in
              rw plain (
                later ch _ i d (suc d) r (ground arith) (
                  find_matching_close_from_sound rest (suc i) (suc d) r false escaped
                    (ground arith)))
          | inr e ↦ elim (Bool-cases (nat_eq ch closer)) [
            | inl c ↦
                let plain : nat_eq ch quote ≡ false = ground arith in
                rw plain (elim (Nat-cases d) [
                  | inl z ↦
                      let same : ch ≡ closer = ground arith in
                      rw (z, same) (0, ground arith, Closes-now _)
                  | inr (k, z) ↦ rw z (
                      later ch _ i (suc k) k r (ground arith) (
                        find_matching_close_from_sound rest (suc i) k r false escaped
                          (ground arith)))
                ])
            | inr c ↦ later ch _ i d d r (ground arith) (
                find_matching_close_from_sound rest (suc i) d r (nat_eq ch quote) escaped
                  (ground arith))
          ]
        ]

    find_matching_close_from_complete :
        (text : Str) (i d n : ℕ) (in_string escaped : Bool)
        → suc d + length text < u32_size
        → Closes opener closer (structural in_string escaped text) d n
        → find_matching_close_from opener closer i (suc d) in_string escaped text ≡ some (i + n)
    unfolding find_matching_close_from structural
    find_matching_close_from_complete [] i d n in_string escaped small h =
        elim (Closes-nil d n h) [ ]
    find_matching_close_from_complete (ch ∷ rest) i d zero true escaped small h =
        ground (arith, Closes-zero _ _ d h)
    find_matching_close_from_complete (ch ∷ rest) i d (suc n) true escaped small h =
        let step = (Closes-cons 0 _ d d n (ground arith)).0 h in
        find_matching_close_from_complete rest (suc i) d n _ _ (omega arith) step
        ∙ ap some (omega arith)
    find_matching_close_from_complete (ch ∷ rest) i d zero false escaped small h =
        ground (arith, Closes-zero _ _ d h)
    find_matching_close_from_complete (ch ∷ rest) i d (suc n) false escaped small h =
        elim (Bool-cases (nat_eq ch opener)) [
          | inl e ↦
              let plain : nat_eq ch quote ≡ false = ground arith in
              let step = (Closes-cons ch _ d (suc d) n (ground arith)).0 (rw plain at h) in
              let rest_found =
                find_matching_close_from_complete rest (suc i) (suc d) n false escaped (omega arith)
                  step in
              ground arith
          | inr e ↦ elim (Bool-cases (nat_eq ch closer)) [
            | inl c ↦ elim (Nat-cases d) [
              | inl z ↦
                  let same : ch ≡ closer = ground arith in
                  let never = Closes-now_unique _ (suc n) (rw (same, z) at h) in ground arith
              | inr (k, z) ↦
                  let plain : nat_eq ch quote ≡ false = ground arith in
                  let step = (Closes-cons ch _ (suc k) k n (ground arith)).0 (rw (plain, z) at h) in
                  let rest_found =
                    find_matching_close_from_complete rest (suc i) k n false escaped (omega arith)
                      step in
                  ground arith
            ]
            | inr c ↦
                let step = (Closes-cons ch _ d d n (ground arith)).0 h in
                let rest_found =
                  find_matching_close_from_complete rest (suc i) d n (nat_eq ch quote) escaped
                    (omega arith) step in
                ground arith
          ]
        ]

    Matches-Closes :
        (rest : Str) (n : ℕ)
        → Matches opener closer (opener ∷ rest) n
        → (p : ℕ) × (n ≡ suc p) × Closes opener closer (structural false false rest) 0 p
    unfolding structural
    Matches-Closes rest zero h = ground arith
    Matches-Closes rest (suc p) h =
        let plain : nat_eq opener quote ≡ false = ground arith in
        let m : Matches opener closer (opener ∷ rest) (suc p) = h in
        (p, refl, (ground (arith, m.0), prefixes p h))
      where
        prefixes :
            (p : ℕ)
            → Matches opener closer (opener ∷ rest) (suc p)
            → (j : ℕ) → j ≤ p
            → count closer (take j (structural false false rest))
              ≤ 0 + count opener (take j (structural false false rest))
        prefixes p h j k = ground (arith, h.1 j)

    Closes-Matches :
        (rest : Str) (p : ℕ)
        → Closes opener closer (structural false false rest) 0 p
        → Matches opener closer (opener ∷ rest) (suc p)
    unfolding structural
    Closes-Matches rest p h = (ground arith, λ j k. ground (arith, h.1 j))

    -- On a text that starts with the opening delimiter and is shorter than 2 ^ 32, the search returns `n`
    -- exactly if `n` is the position where the delimiters balance for the first time.
    pub find_matching_close_iff :
        (rest : Str) (n : ℕ)
        → suc (length rest) < u32_size
        → (find_matching_close (opener ∷ rest) opener closer ≡ some n)
          ↔ Matches opener closer (opener ∷ rest) n
    unfolding find_matching_close find_matching_close_from Found
    find_matching_close_iff rest n small = (
      λ h.
          let (p, e, c) = find_matching_close_from_sound rest 1 0 n false false (ground arith) in
          let at : suc p ≡ n = omega arith in
          subst (Matches opener closer (opener ∷ rest)) at (Closes-Matches rest p c),
      λ h.
          let (p, e, c) = Matches-Closes rest n h in
          let found = find_matching_close_from_complete rest 1 0 p false false (omega arith) c in
          ground arith,
    )
