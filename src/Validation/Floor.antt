-- ===== src/Validation/Floor.antt =====
-- `ProposalValidator.validate` of apps/byos/src/infra/blockchain/validator.ts: the floor and the
-- simulation validator together, and the cache of balances between them.
use byos_service_ts.Prelude.{
  ℕ, ◌≡◌, ◌≤◌, ◌↔◌, inl, inr, refl, false, Option, none, some, Text, to_lower, ltb, arith,
  Bool-cases, text_eq_refl,
}
use byos_service_ts.Domain.Proposal.{Proposal}
use byos_service_ts.Validation.{SimulationOutcome, Verdict, Reads, ValidatorConfig}
use byos_service_ts.Validation.Gates.{validate_simulation}
use byos_service_ts.Validation.Accepts.{IsAccepted}
use byos_service_ts.Validation.Accepts.Exactly.{validate_simulation_iff, validate_simulation_lem}
use byos_service_ts.Validation.Escrow.{
  BalanceCache, cached, get_balance, floor_verdict, validate_escrow, then_simulate, validate,
  hit_or_read,
}

above_lem :
    (cfg : ValidatorConfig) (reads : Reads) (p : Proposal) (balance : Option ℕ) (b : ℕ)
    (v : Option SimulationOutcome)
    → balance ≡ some b
    → cfg.min_collateral ≤ b
    → validate_simulation cfg reads p ≡ some (Verdict.accept v)
    → then_simulate cfg reads p (floor_verdict cfg.min_collateral balance) ≡ some (Verdict.accept v)
above_lem cfg reads p balance b v e enough h =
    let high : ltb b cfg.min_collateral ≡ false = ground arith in rw (e, high, h) refl

-- Gate 1 lets pass what has the least collateral.
floor_lem :
    (cfg : ValidatorConfig) (reads : Reads) (p : Proposal) (balance : Option ℕ)
    (v : Option SimulationOutcome)
    → then_simulate cfg reads p (floor_verdict cfg.min_collateral balance) ≡ some (Verdict.accept v)
    → (b : ℕ) × (balance ≡ some b)
      × (cfg.min_collateral ≤ b)
      × (validate_simulation cfg reads p ≡ some (Verdict.accept v))
floor_lem cfg reads p none v h = absurd cc
floor_lem cfg reads p (some b) v h = elim (Bool-cases (ltb b cfg.min_collateral)) [
  | inl low ↦ absurd cc (rw low at h)
  | inr high ↦ (b, refl, ground arith, rw high at h)
]

-- The validator accepts a proposal exactly when the sub-solver's balance, cached or read now, is at
-- least the minimum collateral and the simulation validator accepts it (IsAccepted); what an
-- acceptance carries is then always the simulation's outcome.
pub validate_iff :
    (cfg : ValidatorConfig) (reads : Reads) (read : Option ℕ) (p : Proposal) (cache : BalanceCache)
    (v : Option SimulationOutcome)
    → ((validate cfg reads read p cache).0 ≡ some (Verdict.accept v)) ↔ (
        (sim : SimulationOutcome) × ((balance : ℕ) × (v ≡ some sim)
          × ((get_balance p.sub_solver read cache).0 ≡ some balance)
          × (cfg.min_collateral ≤ balance)
          × IsAccepted cfg reads p sim))
unfolding validate validate_escrow
validate_iff cfg reads read p cache v = (
  λ h.
      let (b, e, enough, accepted) =
        floor_lem cfg reads p (get_balance p.sub_solver read cache).0 v h in
      let (sim, same) = validate_simulation_lem cfg reads p v accepted in
      (
        sim,
        (b, same, e, enough, (validate_simulation_iff cfg reads p sim).0 (rw same at accepted)),
      ),
  λ (sim, (b, same, e, enough, ok)).
      above_lem cfg reads p _ b v e enough
        (rw same ((validate_simulation_iff cfg reads p sim).1 ok)),
)

kept_lem :
    (key : Text) (b : ℕ) (hit read : Option ℕ) (cache : BalanceCache)
    → cached key cache ≡ hit
    → (hit_or_read key hit read cache).0 ≡ some b
    → cached key (hit_or_read key hit read cache).1 ≡ some b
kept_lem key b none none cache h e = absurd cc
kept_lem key b none (some c) cache h e = rw (text_eq_refl key) e
kept_lem key b (some c) read cache h e = rw h e

-- Until the next auction, a balance that was answered is answered again, whatever the letters' case
-- of the address and whatever the chain answers by then, and the cache stays as it is.
pub get_balance-again :
    (sub_solver same : Text) (b : ℕ) (read later : Option ℕ) (cache : BalanceCache)
    → to_lower same ≡ to_lower sub_solver
    → (get_balance sub_solver read cache).0 ≡ some b
    → get_balance same later (get_balance sub_solver read cache).1
      ≡ (some b, (get_balance sub_solver read cache).1)
unfolding get_balance
get_balance-again sub_solver same b read later cache e h =
    rw (e, kept_lem (to_lower sub_solver) b _ read cache refl h) refl
