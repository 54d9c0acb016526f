-- ===== src/Api.antt =====
-- apps/byos/src/infra/api: the public HTTP routes, from the checks of a request to what they write.
-- An answer is a value or the AppError that the route throws.
pub mod Limits
pub mod Request
pub mod Ingestion
pub mod Owner
pub mod Notify
use byos_service_ts.Prelude.{
  ℕ, Bool, true, false, Option, none, some, Text, get_or, ◌≡◌, ◌↔◌, ◌⊎◌, inl, inr, arith,
}

pub data Kind : Type 0 where
  invalid_signature signature_recovery_failed eip1271_not_available insufficient_escrow : Kind
  proposal_expired proposal_lifetime_exceeded proposal_not_found proposal_not_cancellable : Kind
  nonce_already_used subsolver_not_allowed bad_request rate_limited service_unavailable : Kind
  internal no_active_auction unknown_order proposal_rejected : Kind

abbrev pub status_map : Kind → Option ℕ
status_map Kind.invalid_signature = some 400
status_map Kind.signature_recovery_failed = some 400
status_map Kind.bad_request = some 400
status_map Kind.proposal_expired = some 400
status_map Kind.proposal_lifetime_exceeded = some 400
status_map Kind.insufficient_escrow = some 403
status_map Kind.proposal_not_found = some 404
status_map Kind.proposal_not_cancellable = some 409
status_map Kind.nonce_already_used = some 409
status_map Kind.rate_limited = some 429
status_map Kind.internal = some 500
status_map Kind.service_unavailable = some 503
status_map Kind.eip1271_not_available = some 503
status_map Kind.no_active_auction = some 400
status_map Kind.unknown_order = some 400
status_map Kind.proposal_rejected = some 400
status_map Kind.subsolver_not_allowed = none

-- `detail` says which of the kind's cases it is, where the source gives a description of its own.
pub record AppError : Type 0 where
  pub kind : Kind
  pub status_code : ℕ
  pub detail : Option Text
  pub retry_after_secs : Option ℕ

unfoldable pub app_error : Kind → Option Text → Option ℕ → AppError
app_error kind detail retry_after_secs = record {
  kind = kind;
  status_code = get_or (status_map kind) 500;
  detail = detail;
  retry_after_secs = retry_after_secs;
}

pub data Answer {ℓ} (A : Type ℓ) : Type ℓ where
  ok : A → Answer A
  throw : AppError → Answer A

infixl 5 ◌>>=◌ ◌>>◌
abbrev pub ◌>>=◌ {ℓ κ} : {A : Type ℓ} {B : Type κ} → Answer A → (A → Answer B) → Answer B
Answer.ok a >>= f = f a
Answer.throw e >>= f = Answer.throw e

abbrev pub ◌>>◌ {ℓ} : {B : Type ℓ} → Answer (Unit {0}) → Answer B → Answer B
m >> k = m >>= λ _. k

-- `throw new AppError(kind)`
abbrev pub thrown {ℓ} : {A : Type ℓ} → Kind → Answer A
thrown kind = Answer.throw (app_error kind none none)

abbrev pub throw_if : Bool → Kind → Answer (Unit {0})
throw_if true kind = thrown kind
throw_if false kind = Answer.ok tt

abbrev pub or_throw {ℓ} : {A : Type ℓ} → Option A → Kind → Answer A
or_throw none kind = thrown kind
or_throw (some a) kind = Answer.ok a

-- Exactly the kinds Internal and SubsolverNotAllowed are answered with the status 500.
pub app_error_status :
    (kind : Kind) (detail : Option Text) (retry : Option ℕ)
    → ((app_error kind detail retry).status_code ≡ 500)
      ↔ ((kind ≡ Kind.internal) ⊎ (kind ≡ Kind.subsolver_not_allowed))
unfolding app_error
app_error_status kind detail retry = ground arith
