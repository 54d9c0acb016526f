-- ===== src/Validation/Accepts/Steps.antt =====
-- Each gate of apps/byos/src/infra/blockchain/validator.ts passes exactly when its condition holds.
use byos_service_ts.Prelude.{
  ℕ, ◌≡◌, ◌<◌, ◌↔◌, refl, sym, subst, Bool, true, false, Option, none, some, Text, arith,
}
use byos_service_ts.Domain.Status.{RejectionReason}
use byos_service_ts.Validation.{
  Refusal, Gate, ◌>>=◌, or_stop, stop_if, reject_for, trampoline_gate, TrampolineAnswer, price_gate,
}

pub bind_iff {ℓ κ} :
    {A : Type ℓ} {B : Type κ} (m : Gate A) (f : A → Gate B) (b : B)
    → ((m >>= f) ≡ Gate.pass b) ↔ ((a : A) × (m ≡ Gate.pass a) × (f a ≡ Gate.pass b))
bind_iff (Gate.pass a) f b =
    (λ h. (a, refl, h), λ h. subst (λ g. (g >>= f) ≡ Gate.pass b) (sym h.1) h.2)
bind_iff (Gate.stop v) f b = (λ h. absurd cc, λ h. absurd cc)

pub or_stop_iff {ℓ} :
    {A : Type ℓ} (o : Option A) (v : Refusal) (a : A) → (or_stop o v ≡ Gate.pass a) ↔ (o ≡ some a)
or_stop_iff none v a = (λ h. absurd cc, λ h. absurd cc)
or_stop_iff (some b) v a = (λ h. cc, λ h. cc)

pub stop_if_iff :
    (b : Bool) (v : Refusal) (u : Unit {0}) → (stop_if b v ≡ Gate.pass u) ↔ (b ≡ false)
stop_if_iff true v u = (λ h. absurd cc, λ h. absurd cc)
stop_if_iff false v u = (λ h. refl, λ h. refl)

pub price_gate_iff :
    (o : Option ℕ) (p : ℕ) → (price_gate o ≡ Gate.pass p) ↔ ((o ≡ some p) × (0 < p))
price_gate_iff o p = (λ h. ground arith, λ h. ground arith)

pub reject_for_iff :
    (o : Option RejectionReason) (u : Unit {0}) → (reject_for o ≡ Gate.pass u) ↔ (o ≡ none)
reject_for_iff none u = (λ h. refl, λ h. refl)
reject_for_iff (some r) u = (λ h. absurd cc, λ h. absurd cc)

-- What each gate that was passed leaves: its value and the rest of the run.
pub after {ℓ κ ρ} :
    {A : Type ℓ} {B : Type κ} {P : Type ρ} (m : Gate A) {f : A → Gate B} {b : B}
    → (m >>= f) ≡ Gate.pass b
    → ((a : A) → m ≡ Gate.pass a → f a ≡ Gate.pass b → P)
    → P
after m h k = let (a, e, rest) = (bind_iff m _ _).0 h in k a e rest

pub trampoline_gate_lem :
    (t : TrampolineAnswer) (a : Text)
    → trampoline_gate t ≡ Gate.pass a
    → t ≡ TrampolineAnswer.address a
trampoline_gate_lem (TrampolineAnswer.address b) a h = cc
trampoline_gate_lem (TrampolineAnswer.reverted reason) a h = absurd cc
trampoline_gate_lem TrampolineAnswer.unavailable a h = absurd cc
