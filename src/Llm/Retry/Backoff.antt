-- ===== src/Llm/Retry/Backoff.antt =====
-- The bounds of the delays between requests (crates/vlorql-llm/src/sse.rs).
use vlor_ql.Common.{ℕ, suc, ◌≤◌, if◌then◌else◌, leb, arith}
use Prim.Native.Nat.{◌*◌, ◌^◌}
use native.Mathlib.Nat.{mul-le-mul_left, pow-le-pow_right, one-le-pow}
use vlor_ql.Facade.Feedback.{min}
use vlor_ql.Llm.Retry.{duration_max, retry_backoff}

le_trans : {a b c : ℕ} → a ≤ b → b ≤ c → a ≤ c
le_trans h k = omega arith

capped : ℕ → ℕ
capped x = if leb x duration_max then x else duration_max

capped_mono : (x y : ℕ) → x ≤ y → capped x ≤ capped y
unfolding capped
capped_mono x y h = ground arith

capped-bounds :
    (base x : ℕ)
    → base ≤ duration_max
    → base ≤ x
    → (base ≤ capped x) × (capped x ≤ x) × (capped x ≤ duration_max)
unfolding capped
capped-bounds base x h k = ground arith

min-suc : (i : ℕ) → (min i 31 ≤ min (suc i) 31) × (min i 31 ≤ 31)
unfolding min
min-suc i = ground arith

-- A delay is at least the base, at most 2 ^ 31 times the base and at most the longest duration, and it
-- does not shrink from one retry to the next.
retry_backoff-bounds :
    (base i : ℕ)
    → base ≤ duration_max
    → (base ≤ retry_backoff base i)
      × (retry_backoff base i ≤ base * 2_147_483_648)
      × (retry_backoff base i ≤ duration_max)
      × (retry_backoff base i ≤ retry_backoff base (suc i))
unfolding retry_backoff capped
retry_backoff-bounds base i h =
    let (next, least) = min-suc i in
    let grows : base * 2 ^ min i 31 ≤ base * 2 ^ min (suc i) 31 =
      mul-le-mul_left base (pow-le-pow_right (omega arith) next) in
    let most : base * 2 ^ min i 31 ≤ base * 2_147_483_648 =
      mul-le-mul_left base (pow-le-pow_right (omega arith) least) in
    let first : base ≤ base * 2 ^ min i 31 =
      let one = one-le-pow (min i 31) 2 (omega arith) in grind (arith, mul-le-mul_left base one) in
    let (low, same, high) = capped-bounds base (base * 2 ^ min i 31) h first in
    (low, le_trans same most, high, capped_mono _ _ grows)
