-- ===== src/Common/Collect.antt =====
-- Passes that collect what they are given, part by part, behind what they collected before.
use vlor_ql.Common.{◌⊎◌, inl, inr}

-- The left part is collected first, and what is collected stays.
pub first_part {ℓ} : {A B M N : Type ℓ} → (A ⊎ M → N) → (A ⊎ B) ⊎ M → B ⊎ N
first_part f (inl (inl a)) = inr (f (inl a))
first_part f (inl (inr b)) = inl b
first_part f (inr m) = inr (f (inr m))

-- Where there is nothing to collect, only what was collected before is left.
pub kept : {A M : Type 0} → ¬ A → A ⊎ M → M
kept nothing (inl a) = absurd (nothing a)
kept nothing (inr m) = m
