-- ===== src/Api/Limits/Budget.antt =====
-- The budget of a window that apps/byos/src/infra/rate-limit.ts grants to one key.
use byos_service_ts.Prelude.{
  ℕ, zero, suc, ◌+◌, ◌-◌, ◌*◌, ◌/◌, ◌≤◌, ◌<◌, ◌≡◌, refl, Bool, true, false, List, [], ◌∷◌, All, leb,
  arith, leb→le,
}
use byos_service_ts.Api.Limits.{Counters, count_at, increment, sliding_weight, check_limit}

-- How many requests are allowed, of those that come at the given times.
abbrev pub allowed_of : Bool → ℕ
allowed_of true = 1
allowed_of false = 0

pub allowed_count : (limit window_secs : ℕ) → List ℕ → Counters → ℕ
allowed_count limit window_secs [] counters = 0
allowed_count limit window_secs (now ∷ times) counters =
    let (decision, counted) = check_limit limit window_secs now counters in
    allowed_of decision.allowed + allowed_count limit window_secs times counted

abbrev pub InWindow : (window_secs index : ℕ) → ℕ → Type 0
InWindow window_secs index now = now / (window_secs * 1000) ≡ index

count_at-increment :
    (w : ℕ) (counters : Counters) → count_at w (increment w counters) ≡ suc (count_at w counters)
count_at-increment w [] = ground arith
count_at-increment w (e ∷ counters) = ground (arith, count_at-increment w counters)

mul_cancel : (a b w : ℕ) → 0 < w → a * w ≤ b * w → a ≤ b
mul_cancel zero b w positive h = omega arith
mul_cancel (suc a) zero w positive h = omega arith
mul_cancel (suc a) (suc b) w positive h =
    let below : a ≤ b = mul_cancel a b w positive (omega arith) in omega arith

weight_lem :
    (previous current elapsed window limit : ℕ)
    → 0 < window
    → leb (sliding_weight previous current elapsed window) (limit * window) ≡ true
    → current ≤ limit
weight_lem previous current elapsed window limit positive h =
    let within : sliding_weight previous current elapsed window ≤ limit * window = leb→le _ _ h in
    mul_cancel current limit window positive (omega arith)

-- An allowed request is within what is left, and it is counted.
allowed_lem :
    (b : Bool) (limit count : ℕ)
    → (b ≡ true → suc count ≤ limit)
    → (rest : ℕ) → rest ≤ limit - suc count
    → allowed_of b + rest ≤ limit - count
allowed_lem true limit count h rest r = let within : suc count ≤ limit = h refl in omega arith
allowed_lem false limit count h rest r = omega arith

step_lem :
    (previous current count elapsed window limit rest : ℕ)
    → 0 < window
    → current ≡ suc count
    → rest ≤ limit - suc count
    → allowed_of (leb (sliding_weight previous current elapsed window) (limit * window)) + rest
      ≤ limit - count
step_lem previous current count elapsed window limit rest positive e r =
    allowed_lem _ limit count
      (λ h. rw e at (weight_lem previous current elapsed window limit positive h)) rest r

-- Of the requests of one key in one window, at most the limit less those already counted in the
-- window are allowed, whatever the previous window's count is and however many are made.
pub allowed_count-le :
    (limit window_secs index : ℕ) (times : List ℕ) (counters : Counters)
    → 0 < window_secs
    → All (InWindow window_secs index) times
    → allowed_count limit window_secs times counters ≤ limit - count_at index counters
unfolding allowed_count check_limit
allowed_count-le limit window_secs index [] counters positive inside = omega arith
allowed_count-le limit window_secs index (now ∷ times) counters positive (same, inside) =
    let rest =
      allowed_count-le limit window_secs index times (increment index counters) positive inside in
    let counted = count_at-increment index counters in
    rw same (
      step_lem _ _ (count_at index counters) _ _ limit _ (omega arith) counted (rw counted at rest))
