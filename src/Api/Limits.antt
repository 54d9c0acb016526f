-- ===== src/Api/Limits.antt =====
-- apps/byos/src/infra/api/middleware.ts and apps/byos/src/infra/rate-limit.ts: the checks before a
-- route does its work. The cache of balances answers a balance, or that it knows none.
pub mod Budget
use byos_service_ts.Prelude.{
  ℕ, zero, suc, ◌+◌, ◌-◌, ◌*◌, ◌/◌, ◌%◌, ◌≤◌, ◌≡◌, refl, Bool, true, false, not, ◌&&◌, ◌||◌, Option,
  none, some, List, [], ◌∷◌, Text, text_eq, codes, to_lower, leb, ltb, ◌==◌, if◌then◌else◌, length,
  all, arith, ◌++◌,
}
use byos_service_ts.Domain.RateLimit.{TierParams, rate_for_balance}
use byos_service_ts.Api.{Kind, AppError, app_error, Answer, ◌>>=◌, ◌>>◌, thrown, throw_if, or_throw}

-- The requests that one key has made in each fixed window. A counter is kept for two windows, which
-- is as long as it is read.
abbrev pub Counters : Type 0
Counters = List (ℕ × ℕ)

abbrev pub count_at : ℕ → Counters → ℕ
count_at w [] = 0
count_at w (e ∷ counters) = if e.0 == w then e.1 else count_at w counters

-- `INCR`
abbrev pub increment : ℕ → Counters → Counters
increment w [] = (w, 1) ∷ []
increment w (e ∷ counters) = if e.0 == w then (w, suc e.1) ∷ counters else e ∷ increment w counters

abbrev pub previous_of : ℕ → Counters → ℕ
previous_of zero counters = 0
previous_of (suc w) counters = count_at w counters

-- `slidingCount` times the length of the window, which is exact here: the previous window's count
-- weighs what is left of it.
abbrev pub sliding_weight : (previous current elapsed window_ms : ℕ) → ℕ
sliding_weight previous current elapsed window_ms =
    previous * (window_ms - elapsed) + current * window_ms

pub record LimitDecision : Type 0 where
  pub allowed : Bool
  pub reset_at : ℕ

-- A denied request is counted too.
unfoldable pub check_limit : (limit window_secs now_ms : ℕ) → Counters → LimitDecision × Counters
check_limit limit window_secs now_ms counters =
    let window_ms = window_secs * 1000 in
    let index = now_ms / window_ms in
    let counted = increment index counters in
    (
      record {
        allowed =
            leb
              (sliding_weight (previous_of index counted) (count_at index counted)
                (now_ms % window_ms) window_ms)
              (limit * window_ms);
        reset_at = suc index * window_secs;
      },
      counted,
    )

abbrev pub includes_text : Text → List Text → Bool
includes_text t [] = false
includes_text t (u ∷ us) = text_eq t u || includes_text t us

abbrev pub retry_after : (reset_at now : ℕ) → ℕ
retry_after reset_at now = if leb reset_at (now + 1) then 1 else reset_at - now

abbrev pub store_retry_after_secs : ℕ
store_retry_after_secs = 5

pub data CachedBalance : Type 0 where
  known : ℕ → CachedBalance
  unknown : CachedBalance

abbrev pub unavailable {ℓ} : {A : Type ℓ} → Answer A
unavailable = Answer.throw (app_error Kind.service_unavailable none (some store_retry_after_secs))

-- A store that fails is answered as unavailable.
abbrev pub from_store {ℓ} : {A : Type ℓ} → Option A → Answer A
from_store none = unavailable
from_store (some a) = Answer.ok a

abbrev pub below_floor : ℕ → CachedBalance → Bool
below_floor floor (CachedBalance.known balance) = ltb balance floor
below_floor floor CachedBalance.unknown = false

abbrev pub balance_or_zero : CachedBalance → ℕ
balance_or_zero (CachedBalance.known balance) = balance
balance_or_zero CachedBalance.unknown = 0

abbrev pub budget_answer : ℕ → LimitDecision → Answer (Unit {0})
budget_answer now d =
    if d.allowed
    then Answer.ok tt
    else Answer.throw (app_error Kind.rate_limited none (some (retry_after d.reset_at now)))

-- What the balance cache and the limiter answer; `none` is a store that fails.
pub record LimitReads : Type 0 where
  pub lookup : Text → Option CachedBalance
  pub decide : (key : Text) (limit : ℕ) → Option LimitDecision
  pub now : ℕ

pub record SignerLimitConfig : Type 0 where
  pub tier : TierParams
  pub floor : ℕ

-- `none` from the tier is the error of a division by 0, which is answered as internal.
unfoldable pub enforce_signer_limit :
    SignerLimitConfig → LimitReads → (signer : Text) (enforce_floor : Bool) → Answer (Unit {0})
enforce_signer_limit cfg reads signer enforce_floor = do
  balance ← from_store (reads.lookup signer)
  throw_if (enforce_floor && below_floor cfg.floor balance) Kind.insufficient_escrow
  rate ← or_throw (rate_for_balance (balance_or_zero balance) cfg.tier) Kind.internal
  decision ← from_store (reads.decide (codes "signer:" ++ to_lower signer) rate)
  budget_answer reads.now decision

unfoldable pub ip_rate_limit :
    LimitReads → (limit : ℕ) (exempt : List Text) (path ip : Text) → Answer (Unit {0})
ip_rate_limit reads limit exempt path ip = if includes_text path exempt then Answer.ok tt else (do
  decision ← from_store (reads.decide (codes "ip:" ++ ip) limit)
  budget_answer reads.now decision)
