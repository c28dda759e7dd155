-- ===== src/Optimizer/Conjuncts/Laws.antt =====
-- Splitting a predicate into conjuncts and combining them again (crates/vlorql-core/src/optimizer/analyze.rs).
use vlor_ql.Common.{
  Bool, true, false, ◌&&◌, some, List, [], ◌∷◌, ◌++◌, ◌≡◌, ◌≢◌, refl, sym, ap, ◌∙◌, All, All-append,
  arith,
}
use mathlib.Core.List.{append_assoc, append-nil}
use vlor_ql.Common.Lists.{all}
use vlor_ql.Optimizer.Conjuncts.{collect_conjuncts, split_conjuncts, fold_and, combine_conjuncts}
use vlor_ql.Schema.Plan.{
  Predicate, comparison, and_pred, or_pred, not_pred, between, in_pred, like, is_null, exists,
  true_pred, false_pred,
}

append_left_nil {ℓ} : {A : Type ℓ} (xs ys : List A) → xs ++ ys ≡ [] → xs ≡ []
append_left_nil [] ys h = refl
append_left_nil (x ∷ xs) ys h = cc

and_true : (b : Bool) → (b && true) ≡ b
and_true true = refl
and_true false = refl

module _ {Value : Type 0} where
  collect-append :
      (p : Predicate Value) (out : List (Predicate Value))
      → collect_conjuncts p out ≡ out ++ split_conjuncts p
  unfolding collect_conjuncts split_conjuncts
  collect-append (and_pred left right) out =
      collect-append right (collect_conjuncts left out)
      ∙ rw (collect-append left out) (
          append_assoc out (split_conjuncts left) (split_conjuncts right)
          ∙ ap (λ x. out ++ x) (sym (collect-append right (split_conjuncts left))))
  collect-append (comparison _ _ _) out = refl
  collect-append (or_pred _ _) out = refl
  collect-append (not_pred _) out = refl
  collect-append (between _ _ _) out = refl
  collect-append (in_pred _ _) out = refl
  collect-append (like _ _) out = refl
  collect-append (is_null _) out = refl
  collect-append (exists _) out = refl
  collect-append true_pred out = refl
  collect-append false_pred out = refl

  split-and :
      (left right : Predicate Value)
      → split_conjuncts (and_pred left right) ≡ split_conjuncts left ++ split_conjuncts right
  unfolding collect_conjuncts split_conjuncts
  split-and left right = collect-append right (split_conjuncts left)

  -- A predicate that is not a conjunction.
  abbrev IsConjunct : Predicate Value → Type 0
  IsConjunct p = split_conjuncts p ≡ p ∷ []

  split-nonempty : (p : Predicate Value) → split_conjuncts p ≢ []
  unfolding collect_conjuncts split_conjuncts
  split-nonempty (and_pred left right) h = split-nonempty left (
      append_left_nil (split_conjuncts left) (split_conjuncts right)
        (sym (split-and left right) ∙ h))
  split-nonempty (comparison _ _ _) h = cc
  split-nonempty (or_pred _ _) h = cc
  split-nonempty (not_pred _) h = cc
  split-nonempty (between _ _ _) h = cc
  split-nonempty (in_pred _ _) h = cc
  split-nonempty (like _ _) h = cc
  split-nonempty (is_null _) h = cc
  split-nonempty (exists _) h = cc
  split-nonempty true_pred h = cc
  split-nonempty false_pred h = cc

  split-IsConjunct : (p : Predicate Value) → All IsConjunct (split_conjuncts p)
  unfolding collect_conjuncts split_conjuncts
  split-IsConjunct (and_pred left right) = rw (split-and left right) (
      (All-append IsConjunct (split_conjuncts left) (split_conjuncts right)).1
        (split-IsConjunct left, split-IsConjunct right))
  split-IsConjunct (comparison _ _ _) = (refl, tt)
  split-IsConjunct (or_pred _ _) = (refl, tt)
  split-IsConjunct (not_pred _) = (refl, tt)
  split-IsConjunct (between _ _ _) = (refl, tt)
  split-IsConjunct (in_pred _ _) = (refl, tt)
  split-IsConjunct (like _ _) = (refl, tt)
  split-IsConjunct (is_null _) = (refl, tt)
  split-IsConjunct (exists _) = (refl, tt)
  split-IsConjunct true_pred = (refl, tt)
  split-IsConjunct false_pred = (refl, tt)

  split-fold_and :
      (acc : Predicate Value) (rest : List (Predicate Value))
      → All IsConjunct rest
      → split_conjuncts (fold_and acc rest) ≡ split_conjuncts acc ++ rest
  unfolding fold_and
  split-fold_and acc [] h = sym (append-nil (split_conjuncts acc))
  split-fold_and acc (next ∷ rest) h =
      split-fold_and (and_pred acc next) rest h.1
      ∙ rw (split-and acc next, h.0) (append_assoc (split_conjuncts acc) (next ∷ []) rest)

  -- Splitting gives back the conjuncts that were combined.
  split-combine :
      (cs : List (Predicate Value)) (q : Predicate Value)
      → All IsConjunct cs
      → combine_conjuncts cs ≡ some q
      → split_conjuncts q ≡ cs
  unfolding combine_conjuncts
  split-combine [] q h e = cc
  split-combine (first ∷ rest) q h e =
      let same : fold_and first rest ≡ q = cc in
      ap split_conjuncts (sym same) ∙ split-fold_and first rest h.1 ∙ rw h.0 refl

  module _ (holds : Predicate Value → Bool)
      (conjunction : (l r : Predicate Value) → holds (and_pred l r) ≡ (holds l && holds r)) where
    holds-fold_and :
        (acc : Predicate Value) (rest : List (Predicate Value))
        → holds (fold_and acc rest) ≡ (holds acc && all holds rest)
    unfolding fold_and all
    holds-fold_and acc [] = ground arith
    holds-fold_and acc (next ∷ rest) =
        holds-fold_and (and_pred acc next) rest ∙ rw (conjunction acc next) (ground arith)

    all-append :
        (xs ys : List (Predicate Value)) → all holds (xs ++ ys) ≡ (all holds xs && all holds ys)
    unfolding all
    all-append [] ys = refl
    all-append (x ∷ xs) ys = rw (all-append xs ys) (ground arith)

    all-split : (p : Predicate Value) → all holds (split_conjuncts p) ≡ holds p
    unfolding collect_conjuncts split_conjuncts all
    all-split (and_pred left right) =
        ap (all holds) (split-and left right)
        ∙ all-append (split_conjuncts left) (split_conjuncts right)
        ∙ rw (all-split left, all-split right) (sym (conjunction left right))
    all-split (comparison a b c) = and_true (holds (comparison a b c))
    all-split (or_pred a b) = and_true (holds (or_pred a b))
    all-split (not_pred a) = and_true (holds (not_pred a))
    all-split (between a b c) = and_true (holds (between a b c))
    all-split (in_pred a b) = and_true (holds (in_pred a b))
    all-split (like a b) = and_true (holds (like a b))
    all-split (is_null a) = and_true (holds (is_null a))
    all-split (exists a) = and_true (holds (exists a))
    all-split true_pred = and_true (holds true_pred)
    all-split false_pred = and_true (holds false_pred)

    combined :
        (cs : List (Predicate Value)) (q : Predicate Value)
        → combine_conjuncts cs ≡ some q
        → holds q ≡ all holds cs
    unfolding combine_conjuncts all
    combined [] q e = cc
    combined (first ∷ rest) q e =
        let same : fold_and first rest ≡ q = cc in ap holds (sym same) ∙ holds-fold_and first rest

    split-combines :
        (p : Predicate Value)
        → (q : Predicate Value) × (combine_conjuncts (split_conjuncts p) ≡ some q)
    unfolding combine_conjuncts
    split-combines p = nonempty (split_conjuncts p) (split-nonempty p)
      where
        nonempty :
            (cs : List (Predicate Value))
            → cs ≢ []
            → (q : Predicate Value) × (combine_conjuncts cs ≡ some q)
        nonempty [] n = absurd (n refl)
        nonempty (first ∷ rest) n = (fold_and first rest, refl)

    -- Whatever reading of predicates the database has, if `AND` means conjunction then combining the
    -- conjuncts of a predicate gives a predicate, with the same conjuncts, that holds exactly where the
    -- first one does.
    pub combine_conjuncts-split_conjuncts :
        (p : Predicate Value)
        → (q : Predicate Value) × (combine_conjuncts (split_conjuncts p) ≡ some q)
          × (split_conjuncts q ≡ split_conjuncts p)
          × (holds q ≡ holds p)
    combine_conjuncts-split_conjuncts p =
        let (q, e) = split-combines p in
        (
          q,
          e,
          split-combine (split_conjuncts p) q (split-IsConjunct p) e,
          combined (split_conjuncts p) q e ∙ all-split p,
        )
