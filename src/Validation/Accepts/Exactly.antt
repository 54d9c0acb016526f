-- ===== src/Validation/Accepts/Exactly.antt =====
-- `SimulationValidator.validate` of apps/byos/src/infra/blockchain/validator.ts accepts exactly
-- the proposals that meet every condition.
use byos_service_ts.Prelude.{
  ℕ, ◌≡◌, ◌<◌, ◌↔◌, ◌⊎◌, inl, inr, refl, Bool, true, false, Option, none, some, to_lower,
}
use byos_service_ts.Domain.Proposal.{Proposal}
use byos_service_ts.Domain.Order.{OrderKind, OrderRecord}
use byos_service_ts.Domain.Order.Slippage.{WithinCaps}
use byos_service_ts.Domain.Scoring as Scoring
use byos_service_ts.Domain.Scoring.{scaled_to_fill, score_proposal}
use byos_service_ts.Validation.{
  AuctionState, SimulationOutcome, Verdict, Reads, ValidatorConfig, parse_executed_delta,
  given_or_resolved,
}
use byos_service_ts.Validation.Gates.{
  Context, Simulated, surplus_price_of, check_order, run_simulation, check_exposure, check_profit,
  validate_simulation,
}
use byos_service_ts.Prelude.{sym, subst, arith, not, ◌&&◌}
use byos_service_ts.Domain.Order.{check_envelope, check_proposal_slippage}
use byos_service_ts.Domain.Order.Envelope.{check_envelope_iff}
use byos_service_ts.Domain.Order.Slippage.{check_proposal_slippage_iff}
use byos_service_ts.Validation.{
  Refusal, Gate, or_stop, reject_for, price_gate, slippage_price_gate, profitability, is_profitable,
  exceeds_min_score, revert_gate, trampoline_gate,
}
use byos_service_ts.Validation.Gates.{validate_gates, verdict_of}
use byos_service_ts.Validation.Accepts.{OrderOk, RunOk, ExposureOk, ProfitOk, IsAccepted}
use byos_service_ts.Validation.Accepts.Steps.{
  or_stop_iff, stop_if_iff, price_gate_iff, reject_for_iff, after, trampoline_gate_lem,
}

Gate-pass-inj {ℓ} : {A : Type ℓ} {a b : A} → ◌≡◌ {A = Gate A} (Gate.pass a) (Gate.pass b) → a ≡ b
Gate-pass-inj h = cc

run_forward :
    (reads : Reads) (r : OrderRecord) (p : Proposal) (s : Simulated)
    → run_simulation reads r p ≡ Gate.pass s
    → RunOk reads r p s
unfolding run_simulation
run_forward reads r p s h =
    after (trampoline_gate (given_or_resolved p.trampoline (reads.resolve_trampoline p.sub_solver)))
      h
      λ t e1 k1. after (or_stop reads.authenticator Refusal.defer) k1 λ authenticator e2 k2.
        after (or_stop (reads.simulate r p t authenticator) Refusal.defer) k2 λ call e3 k3.
          after (revert_gate call) k3 λ u e4 k4.
            after (or_stop (parse_executed_delta call.logs t) _) k4 λ delta e5 k5.
              subst (RunOk reads r p) (Gate-pass-inj k5) (record {
                trampoline = trampoline_gate_lem _ t e1;
                ran = (authenticator, (or_stop_iff _ _ _).0 e2, (or_stop_iff _ _ _).0 e3);
                kept = (stop_if_iff _ _ u).0 e4;
                delivered = (or_stop_iff _ _ _).0 e5;
              })

spread_lem {ℓ} :
    {P : ℕ → Type ℓ} (k : OrderKind) (o : Option ℕ) (native : ℕ)
    → slippage_price_gate k o ≡ Gate.pass native
    → (k ≡ OrderKind.buy) ⊎ P native
    → (k ≡ OrderKind.buy) ⊎ ((n : ℕ) × (o ≡ some n) × (0 < n) × P n)
spread_lem OrderKind.buy o native h c = inl refl
spread_lem OrderKind.sell o native h (inl e) = absurd cc
spread_lem OrderKind.sell o native h (inr w) =
    let (e, positive) = (price_gate_iff o native).0 h in inr (native, e, positive, w)

exceeds_lem :
    (least : ℕ) (o : Option ℕ)
    → exceeds_min_score least o ≡ true
    → (score : ℕ) × (o ≡ some score) × (least < score)
exceeds_lem least none h = absurd cc
exceeds_lem least (some score) h = (score, refl, ground arith)

profitable_lem :
    (cfg : ValidatorConfig) (price : ℕ) (o : Option Scoring.Candidate)
    → is_profitable cfg price o ≡ true
    → (fill : Scoring.Candidate) × ((score : ℕ) × (o ≡ some fill)
        × (score_proposal fill price ≡ some score)
        × (cfg.min_score < score))
profitable_lem cfg price none h = absurd cc
profitable_lem cfg price (some fill) h =
    let (score, e, above) = exceeds_lem cfg.min_score (score_proposal fill price) h in
    (fill, (score, refl, e, above))

guard_lem : (b c : Bool) → (b && not c) ≡ false → (b ≡ false) ⊎ (c ≡ true)
guard_lem false c h = inl refl
guard_lem true false h = absurd cc
guard_lem true true h = inr refl

order_forward :
    (cfg : ValidatorConfig) (a : AuctionState) (p : Proposal) (c : Context)
    → check_order cfg a p ≡ Gate.pass c
    → OrderOk cfg a p c
unfolding check_order
order_forward cfg a p c h = after (or_stop (a.orders (to_lower p.order_uid)) _) h λ r e1 k1.
    after (price_gate (a.prices (to_lower p.sell_token))) k1 λ sell_price e2 k2.
      after (slippage_price_gate r.order.kind (a.prices (to_lower p.buy_token))) k2 λ native e3 k3.
        after (price_gate (surplus_price_of a r)) k3 λ surplus_price e4 k4.
          after (reject_for (check_envelope r p)) k4 λ u e5 k5.
            after
              (reject_for
                (check_proposal_slippage r p native cfg.max_slippage_bps cfg.max_slippage_native))
              k5
              λ u' e6 k6. subst (OrderOk cfg a p) (Gate-pass-inj k6) (record {
                known = (or_stop_iff _ _ _).0 e1;
                sell_priced = (price_gate_iff _ _).0 e2;
                surplus_priced = (price_gate_iff _ _).0 e4;
                gas = refl;
                envelope = (check_envelope_iff r p).0 ((reject_for_iff _ u).0 e5);
                spread =
                    spread_lem r.order.kind _ native e3
                      ((check_proposal_slippage_iff r p native _ _).0 ((reject_for_iff _ u').0 e6));
              })

exposure_forward :
    (cfg : ValidatorConfig) (reads : Reads) (c : Context) (p : Proposal) (gas : ℕ)
    → check_exposure cfg reads c p gas ≡ Gate.pass tt
    → ExposureOk cfg reads c p gas
unfolding check_exposure
exposure_forward cfg reads c p gas h =
    after (or_stop (reads.inflight p.sub_solver) Refusal.defer) h λ inflight e1 k1.
      after (or_stop (reads.escrow_balance p.sub_solver) Refusal.defer) k1 λ balance e2 k2. record {
        inflight = inflight;
        balance = balance;
        inflight_read = (or_stop_iff _ _ _).0 e1;
        balance_read = (or_stop_iff _ _ _).0 e2;
        covered = ground arith;
      }

profit_forward :
    (cfg : ValidatorConfig) (c : Context) (p : Proposal) (s : Simulated)
    → check_profit cfg c p s ≡ Gate.pass tt
    → ProfitOk cfg c p s
unfolding check_profit profitability
profit_forward cfg c p s h = elim (guard_lem _ _ ((stop_if_iff _ _ tt).0 h)) [
  | inl e ↦ inl e
  | inr e ↦ inr (profitable_lem cfg c.surplus_price _ e)
]

-- What is accepted meets every condition.
pub accept_lem :
    (cfg : ValidatorConfig) (reads : Reads) (p : Proposal) (sim : SimulationOutcome)
    → validate_gates cfg reads p ≡ Gate.pass sim
    → IsAccepted cfg reads p sim
unfolding validate_gates
accept_lem cfg reads p sim h = after (or_stop reads.auction_state Refusal.defer) h λ a e1 k1.
    after (check_order cfg a p) k1 λ c e2 k2. after (run_simulation reads c.record_ p) k2 λ s e3 k3.
      after (check_exposure cfg reads c p s.call.gas_used) k3 λ u e4 k4.
        after (check_profit cfg c p s) k4 λ u' e5 k5. record {
          state = a;
          context = c;
          simulated = s;
          open_auction = (or_stop_iff _ _ _).0 e1;
          order_ok = order_forward cfg a p c e2;
          run_ok = run_forward reads c.record_ p s e3;
          exposure_ok = exposure_forward cfg reads c p s.call.gas_used e4;
          profit_ok = profit_forward cfg c p s e5;
          result = sym (Gate-pass-inj k5);
        }

run_backward :
    (reads : Reads) (r : OrderRecord) (p : Proposal) (s : Simulated)
    → RunOk reads r p s
    → run_simulation reads r p ≡ Gate.pass s
unfolding run_simulation
run_backward reads r p s h = rw (h.trampoline, h.ran.1, h.ran.2, h.kept, h.delivered) refl

priced_lem :
    (k : OrderKind) (o : Option ℕ) (native : ℕ)
    → o ≡ some native
    → 0 < native
    → (k ≡ OrderKind.buy) ⊎ (slippage_price_gate k o ≡ Gate.pass native)
priced_lem OrderKind.buy o native e positive = inl refl
priced_lem OrderKind.sell o native e positive = inr ((price_gate_iff o native).1 (e, positive))

slippage_gates_lem :
    (r : OrderRecord) (p : Proposal) (o : Option ℕ) (bps native_cap : ℕ)
    → (r.order.kind ≡ OrderKind.buy)
      ⊎ ((native : ℕ) × (o ≡ some native) × (0 < native) × WithinCaps p native bps native_cap)
    → (native : ℕ) × (slippage_price_gate r.order.kind o ≡ Gate.pass native)
      × (check_proposal_slippage r p native bps native_cap ≡ none)
slippage_gates_lem r p o bps native_cap (inl e) =
    (0, rw e refl, (check_proposal_slippage_iff r p 0 bps native_cap).1 (inl e))
slippage_gates_lem r p o bps native_cap (inr (native, e, positive, within)) =
    elim (priced_lem r.order.kind o native e positive) [
      | inl buys ↦
          (0, rw buys refl, (check_proposal_slippage_iff r p 0 bps native_cap).1 (inl buys))
      | inr priced ↦
          (native, priced, (check_proposal_slippage_iff r p native bps native_cap).1 (inr within))
    ]

order_backward :
    (cfg : ValidatorConfig) (a : AuctionState) (p : Proposal) (c : Context)
    → OrderOk cfg a p c
    → check_order cfg a p ≡ Gate.pass c
unfolding check_order
order_backward cfg a p c h =
    let (native, e, ok) = slippage_gates_lem c.record_ p _ _ _ h.spread in
    rw
      (
        h.known,
        (price_gate_iff _ _).1 h.sell_priced,
        e,
        (price_gate_iff _ _).1 h.surplus_priced,
        (check_envelope_iff c.record_ p).1 h.envelope,
        ok,
        h.gas,
      )
      refl

exposure_backward :
    (cfg : ValidatorConfig) (reads : Reads) (c : Context) (p : Proposal) (gas : ℕ)
    → ExposureOk cfg reads c p gas
    → check_exposure cfg reads c p gas ≡ Gate.pass tt
unfolding check_exposure
exposure_backward cfg reads c p gas h = ground (arith, h.inflight_read, h.balance_read, h.covered)

profit_backward :
    (cfg : ValidatorConfig) (c : Context) (p : Proposal) (s : Simulated)
    → ProfitOk cfg c p s
    → check_profit cfg c p s ≡ Gate.pass tt
unfolding check_profit profitability
profit_backward cfg c p s (inl e) = rw e refl
profit_backward cfg c p s (inr (fill, (score, e, e', above))) = ground arith

meets_lem :
    (cfg : ValidatorConfig) (reads : Reads) (p : Proposal) (sim : SimulationOutcome)
    → IsAccepted cfg reads p sim
    → validate_gates cfg reads p ≡ Gate.pass sim
unfolding validate_gates run_simulation check_exposure
meets_lem cfg reads p sim h =
    rw
      (
        h.open_auction,
        order_backward cfg h.state p h.context h.order_ok,
        run_backward reads h.context.record_ p h.simulated h.run_ok,
        exposure_backward cfg reads h.context p h.simulated.call.gas_used h.exposure_ok,
        profit_backward cfg h.context p h.simulated h.profit_ok,
        h.result,
      )
      refl

verdict_lem :
    (g : Gate SimulationOutcome) (sim : SimulationOutcome)
    → (verdict_of g ≡ some (Verdict.accept (some sim))) ↔ (g ≡ Gate.pass sim)
verdict_lem (Gate.pass outcome) sim = (λ h. cc, λ h. cc)
verdict_lem (Gate.stop Refusal.defer) sim = (λ h. absurd cc, λ h. absurd cc)
verdict_lem (Gate.stop (Refusal.refuse r)) sim = (λ h. absurd cc, λ h. absurd cc)
verdict_lem (Gate.stop (Refusal.fail params reason)) sim = (λ h. absurd cc, λ h. absurd cc)

-- The simulation validator accepts a proposal with an outcome exactly when there is an auction
-- that has the order with positive prices, the proposal fits the order's envelope and the slippage
-- caps, the simulation ran, kept and reported what it delivered, the available collateral covers
-- the exposure of the sub-solver's open proposals and of this one, the proposal's score exceeds
-- the minimum (unless its status is no longer submitted), and the outcome is the simulation's.
pub validate_simulation_iff :
    (cfg : ValidatorConfig) (reads : Reads) (p : Proposal) (sim : SimulationOutcome)
    → (validate_simulation cfg reads p ≡ some (Verdict.accept (some sim)))
      ↔ IsAccepted cfg reads p sim
unfolding validate_simulation
validate_simulation_iff cfg reads p sim =
    let (to_pass, from_pass) = verdict_lem (validate_gates cfg reads p) sim in
    (λ h. accept_lem cfg reads p sim (to_pass h), λ h. from_pass (meets_lem cfg reads p sim h))

accept_verdict_lem :
    (g : Gate SimulationOutcome) (v : Option SimulationOutcome)
    → verdict_of g ≡ some (Verdict.accept v)
    → (sim : SimulationOutcome) × (v ≡ some sim)
accept_verdict_lem (Gate.pass outcome) v h = (outcome, cc)
accept_verdict_lem (Gate.stop Refusal.defer) v h = absurd cc
accept_verdict_lem (Gate.stop (Refusal.refuse r)) v h = absurd cc
accept_verdict_lem (Gate.stop (Refusal.fail params reason)) v h = absurd cc

-- What is accepted carries the simulation's outcome.
pub validate_simulation_lem :
    (cfg : ValidatorConfig) (reads : Reads) (p : Proposal) (v : Option SimulationOutcome)
    → validate_simulation cfg reads p ≡ some (Verdict.accept v)
    → (sim : SimulationOutcome) × (v ≡ some sim)
unfolding validate_simulation
validate_simulation_lem cfg reads p v h = accept_verdict_lem (validate_gates cfg reads p) v h
