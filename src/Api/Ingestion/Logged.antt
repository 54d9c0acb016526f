-- ===== src/Api/Ingestion/Logged.antt =====
-- What POST /proposals of apps/byos/src/infra/api/routes.ts leaves of each proposal.
use byos_service_ts.Prelude.{
  ℕ, ◌≡◌, ◌≤◌, ◌⊎◌, inl, inr, refl, sym, subst, Bool, true, false, Option, none, some, Text, arith,
  ◌==◌,
}
use byos_service_ts.Domain.Status.{Status, RejectionReason, is_terminal_status}
use byos_service_ts.Domain.Proposal.{Proposal}
use byos_service_ts.Candidates.{get}
use byos_service_ts.Candidates.Laws.{get-add}
use byos_service_ts.Store.Rows.{ProposalRow, Tables, find_row}
use byos_service_ts.Store.Creation.{write_to_log, log_row}
use byos_service_ts.Store.Creation.Valid.{find-insert_or_keep}
use byos_service_ts.Store.History.{Reach, here, next, log}
use byos_service_ts.Validation.{SimulationOutcome, Verdict, Reads, ValidatorConfig}
use byos_service_ts.Validation.Escrow.{BalanceCache, get_balance, validate}
use byos_service_ts.Validation.Accepts.{IsAccepted}
use byos_service_ts.Validation.Floor.{validate_iff}
use byos_service_ts.Api.{AppError, Answer}
use byos_service_ts.Api.Request.{Admitted}
use byos_service_ts.Api.Ingestion.{
  Service, allocate_id, proposal_for_validation, candidate_of_accepted, conclude, post_proposal,
  is_filled, refuse_simulation,
}

filled-Reach :
    (p : Proposal) (b : Bool) (params : Option Text) (now : ℕ) (s : Service)
    → Reach s.tables (refuse_simulation p b params now s).1.tables
filled-Reach p true params now s = next here (log p.id p Status.rejected _ params now s.tables refl)
filled-Reach p false params now s =
    next here (log p.id p Status.sim_failed none params now s.tables refl)

-- A validator that accepts nothing without the simulation's outcome, as it is described here.
abbrev pub Explains : (Proposal → Option Verdict) → (Proposal → SimulationOutcome → Type 0) → Type 0
Explains validator P =
    (p : Proposal) (o : Option SimulationOutcome)
    → validator p ≡ some (Verdict.accept o)
    → (sim : SimulationOutcome) × (o ≡ some sim) × P p sim

-- It is in the log, with a final status, and no candidate.
abbrev pub IsRefused : Proposal → ℕ → Service → Answer ℕ × Service → Type 0
IsRefused p now s r =
    (status : Status) × ((reason : Option RejectionReason) × ((params : Option Text)
        × ((e : AppError) × (r.0 ≡ Answer.throw e)
            × (is_terminal_status status ≡ true)
            × ((l : ProposalRow) × (find_row p.id r.1.tables.proposals_log ≡ some l)
                × (l.status ≡ status)
                × (l.rejection_reason ≡ reason)
                × (l ≡ log_row p.id p status reason params now))
            × (r.1.store ≡ s.store))))

-- It is a candidate, and the tables are as before.
abbrev pub IsHeld :
    Proposal
    → ℕ
    → ℕ
    → (Proposal → SimulationOutcome → Type 0)
    → Service
    → Answer ℕ × Service
    → Type 0
IsHeld p auction now P s r =
    (sim : SimulationOutcome) × (P p sim)
    × (r.0 ≡ Answer.ok p.id)
    × (get p.id r.1.store ≡ some (candidate_of_accepted p auction sim now))
    × (r.1.tables ≡ s.tables)

logged_lem :
    (p : Proposal) (status : Status) (reason : Option RejectionReason) (params : Option Text)
    (now : ℕ) (db : Tables)
    → find_row p.id db.proposals_log ≡ none
    → find_row p.id (write_to_log p.id p status reason params now db).proposals_log
      ≡ some (log_row p.id p status reason params now)
unfolding write_to_log
logged_lem p status reason params now db fresh =
    let same : (p.id == p.id) ≡ true = ground arith in
    rw
      (
        find-insert_or_keep p.id (log_row p.id p status reason params now) db.proposals_log,
        same,
        fresh,
      )
      refl

module _ (validator : Proposal → Option Verdict) (P : Proposal → SimulationOutcome → Type 0)
    (explains : Explains validator P) (p : Proposal) (auction now : ℕ) (s : Service)
    (fresh : find_row p.id s.tables.proposals_log ≡ none) where
  refused_lem :
      (status : Status) (reason : Option RejectionReason) (params : Option Text) (e : AppError)
      (r : Answer ℕ × Service)
      → r.0 ≡ Answer.throw e
      → r.1.tables ≡ write_to_log p.id p status reason params now s.tables
      → r.1.store ≡ s.store
      → is_terminal_status status ≡ true
      → IsRefused p now s r
  refused_lem status reason params e r thrown_ logged same final = (
    status,
    (
      reason,
      (
        params,
        (
          e,
          thrown_,
          final,
          (
            log_row p.id p status reason params now,
            rw logged (logged_lem p status reason params now s.tables fresh),
            refl,
            refl,
            refl,
          ),
          same,
        ),
      ),
    ),
  )

  held_lem :
      (sim : SimulationOutcome)
      → P p sim
      → IsHeld p auction now P s (conclude p auction now (some (Verdict.accept (some sim))) s)
  unfolding conclude
  held_lem sim ok =
      let c = candidate_of_accepted p auction sim now in
      let same : (p.id == p.id) ≡ true = ground arith in
      (sim, ok, refl, rw (get-add p.id c s.store, same) refl, refl)

  accepted_lem :
      (o : Option SimulationOutcome)
      → (sim : SimulationOutcome) × (o ≡ some sim) × P p sim
      → IsHeld p auction now P s (conclude p auction now (some (Verdict.accept o)) s)
  accepted_lem none (sim, e, ok) = absurd cc
  accepted_lem (some found) (sim, e, ok) =
      subst (λ o. IsHeld p auction now P s (conclude p auction now (some (Verdict.accept o)) s))
        (sym e) (held_lem sim ok)

  filled_lem :
      (b : Bool) (params : Option Text) → IsRefused p now s (refuse_simulation p b params now s)
  unfolding is_terminal_status
  filled_lem true params =
      refused_lem Status.rejected _ params _ (refuse_simulation p true params now s) refl refl refl
        refl
  filled_lem false params =
      refused_lem Status.sim_failed none params _ (refuse_simulation p false params now s) refl refl
        refl refl

  -- Whatever the validator answers, the proposal is held or refused.
  pub conclude_lem :
      (v : Option Verdict)
      → validator p ≡ v
      → IsHeld p auction now P s (conclude p auction now v s)
        ⊎ IsRefused p now s (conclude p auction now v s)
  unfolding conclude is_terminal_status
  conclude_lem none e =
      inr (refused_lem Status.rejected _ none _ (conclude p auction now none s) refl refl refl refl)
  conclude_lem (some (Verdict.reject reason)) e = inr (
      refused_lem Status.rejected (some reason) none _
        (conclude p auction now (some (Verdict.reject reason)) s) refl refl refl refl)
  conclude_lem (some (Verdict.sim_failed params revert_reason)) e =
      inr (filled_lem (is_filled revert_reason) params)
  conclude_lem (some (Verdict.accept o)) e = inl (accepted_lem o (explains p o e))

abbrev pub Validates :
    ValidatorConfig → Reads → Option ℕ → BalanceCache → Proposal → SimulationOutcome → Type 0
Validates cfg reads read cache p sim =
    ((balance : ℕ) × ((get_balance p.sub_solver read cache).0 ≡ some balance)
      × (cfg.min_collateral ≤ balance))
    × IsAccepted cfg reads p sim

-- An admitted request always has an outcome: with the validator of Validation, where the
-- sequence's next id is not in the log, either every gate accepts the proposal, its id is
-- answered, it is a candidate under that id and the tables are as before; or the route throws,
-- the proposal is in the log under the id with a final status, and no candidate is added.
pub post_proposal-accounted :
    (cfg : ValidatorConfig) (reads : Reads) (read : Option ℕ) (cache : BalanceCache) (now : ℕ)
    (a : Admitted) (s : Service)
    → find_row s.next_id s.tables.proposals_log ≡ none
    → IsHeld
        (proposal_for_validation s.next_id a now)
        a.auction_id
        now
        (Validates cfg reads read cache)
        s
        (post_proposal (λ q. (validate cfg reads read q cache).0) now (Answer.ok a) s)
      ⊎ IsRefused
          (proposal_for_validation s.next_id a now)
          now
          s
          (post_proposal (λ q. (validate cfg reads read q cache).0) now (Answer.ok a) s)
unfolding post_proposal
post_proposal-accounted cfg reads read cache now a s fresh =
    let p = proposal_for_validation s.next_id a now in
    conclude_lem (λ q. (validate cfg reads read q cache).0) (Validates cfg reads read cache)
      (λ q o e.
        let (sim, (balance, same, known, enough, ok)) =
          (validate_iff cfg reads read q cache o).0 e in
        (sim, same, ((balance, known, enough), ok)))
      p a.auction_id now (allocate_id s) fresh (validate cfg reads read p cache).0 refl

-- Whatever the verdict, the route changes the tables by one write to the log at most, so it keeps
-- what every sequence of writes keeps.
pub conclude-Reach :
    (p : Proposal) (auction now : ℕ) (v : Option Verdict) (s : Service)
    → Reach s.tables (conclude p auction now v s).1.tables
unfolding conclude
conclude-Reach p auction now none s =
    next here (log p.id p Status.rejected _ none now s.tables refl)
conclude-Reach p auction now (some (Verdict.reject reason)) s =
    next here (log p.id p Status.rejected (some reason) none now s.tables refl)
conclude-Reach p auction now (some (Verdict.sim_failed params reason)) s =
    filled-Reach p (is_filled reason) params now s
conclude-Reach p auction now (some (Verdict.accept none)) s = here
conclude-Reach p auction now (some (Verdict.accept (some sim))) s = here
