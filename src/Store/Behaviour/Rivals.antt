-- ===== src/Store/Behaviour/Rivals.antt =====
-- What the success of a proposal does to the other live rows (applySettlementOutcome of
-- apps/byos/src/infra/storage.ts).
use byos_service_ts.Prelude.{
  ℕ, ◌≡◌, ◌≢◌, refl, sym, ap, ◌∙◌, ◌&&◌, Bool, true, false, some, Text, to_lower, arith, ◌==◌,
  if◌then◌else◌, Bool-cases, ==_iff, ◌⊎◌, inl, inr, text_eq, text_eq→eq, text_eq_refl,
}
use byos_service_ts.Domain.Status.{Status, status_code}
use byos_service_ts.Domain.Proposal.{Proposal, SettlementOutcome}
use byos_service_ts.Store.Table.{find-key}
use byos_service_ts.Store.Rows.{ProposalRow, row_id, Tables, find_row, update_proposals}
use byos_service_ts.Store.Rows.Trigger.{updated, find_live-update_proposals}
use byos_service_ts.Store.Outcome.{
  apply_settlement_outcome, resolve_own, resolve_row, resolve_tables, is_sibling, cancel_row,
}
use byos_service_ts.Store.Behaviour.{open_code, other_id}

abbrev pub after_success : ProposalRow → ℕ → ℕ → ProposalRow → ProposalRow
after_success locked i now q = if is_sibling locked i q then cancel_row now q else q

skip_own :
    (f : ProposalRow → ProposalRow) (k : ℕ) (q : ProposalRow)
    → q.id ≢ k
    → updated (λ x. x.id == k) f q ≡ q
skip_own f k q n = rw (other_id q.id k n) refl

other_row :
    (p : Proposal) (h : Text) (now : ℕ) (db : Tables) (r : ProposalRow) (i : ℕ) (q : ProposalRow)
    → i ≢ p.id
    → find_row i db.proposals ≡ some q
    → find_row i
        (update_proposals
          (is_sibling r p.id)
          (cancel_row now)
          (resolve_own p (SettlementOutcome.succeeded h) Status.settled (some h) now db)).proposals
      ≡ some (after_success r p.id now q)
other_row p h now db r i q n e =
    let f = resolve_row p (SettlementOutcome.succeeded h) Status.settled (some h) now in
    rw
      (
        find_live-update_proposals (update_proposals (λ x. x.id == p.id) f db) (is_sibling r p.id)
            (cancel_row now) (λ x. refl) i,
        find_live-update_proposals db (λ x. x.id == p.id) f (λ x. refl) i,
        e,
      )
      (ap (λ x. some (updated (is_sibling r p.id) (cancel_row now) x))
        (skip_own f p.id q (λ same. n (find-key row_id i db.proposals q e ∙ same))))

own_row :
    (p : Proposal) (h : Text) (now : ℕ) (db : Tables) (r : ProposalRow)
    → find_row p.id db.proposals ≡ some r
    → find_row p.id
        (update_proposals
          (is_sibling r p.id)
          (cancel_row now)
          (resolve_own p (SettlementOutcome.succeeded h) Status.settled (some h) now db)).proposals
      ≡ some (resolve_row p (SettlementOutcome.succeeded h) Status.settled (some h) now r)
own_row p h now db r e =
    let f = resolve_row p (SettlementOutcome.succeeded h) Status.settled (some h) now in
    rw
      (
        find_live-update_proposals (update_proposals (λ x. x.id == p.id) f db) (is_sibling r p.id)
            (cancel_row now) (λ x. refl) p.id,
        find_live-update_proposals db (λ x. x.id == p.id) f (λ x. refl) p.id,
        e,
      )
      (ground (arith, find-key row_id p.id db.proposals r e))

-- Submitted, for the same order, and of the same sub-solver.
abbrev pub IsRival : ProposalRow → ProposalRow → Type 0
IsRival locked q =
    (q.sub_solver ≡ locked.sub_solver)
    × (q.order_uid ≡ locked.order_uid)
    × (q.status ≡ Status.submitted)

-- What a success by h of the row `locked` makes of the live row q with id i.
abbrev pub AfterSuccess : ProposalRow → (own i : ℕ) → Text → ProposalRow → ProposalRow → Type 0
AfterSuccess locked own i h q q' =
    ((i ≡ own) × (q'.status ≡ Status.settled) × (q'.settlement_tx_hash ≡ some (to_lower h)))
    ⊎ (((i ≢ own) × IsRival locked q × (q'.status ≡ Status.cancelled))
        ⊎ ((i ≢ own) × (¬ IsRival locked q) × (q' ≡ q)))

same_or_not : (a b : ℕ) → (a ≡ b) ⊎ (a ≢ b)
same_or_not a b = elim (Bool-cases (a == b)) [
  | inl e ↦ inl ((==_iff a b).0 e)
  | inr e ↦ inr (λ same. ground (arith, same))
]

is_open_code : (s : Status) → (status_code s == 0) ≡ true → s ≡ Status.submitted
is_open_code Status.submitted e = refl
is_open_code _ e = absurd cc

stranger_by :
    (locked q : ProposalRow) (a b c : Bool)
    → text_eq q.sub_solver locked.sub_solver ≡ a
    → text_eq q.order_uid locked.order_uid ≡ b
    → (status_code q.status == 0) ≡ c
    → (a && (b && c)) ≡ false
    → ¬ IsRival locked q
stranger_by locked q a b c ea eb ec h (solver, order, open_) =
    let ta : a ≡ true = sym ea ∙ rw solver (text_eq_refl locked.sub_solver) in
    let tb : b ≡ true = sym eb ∙ rw order (text_eq_refl locked.order_uid) in
    let tc : c ≡ true = sym ec ∙ open_code q.status open_ in absurd (ground (arith, ta, tb, tc, h))

IsRival-by :
    (locked q : ProposalRow) (a b c : Bool)
    → text_eq q.sub_solver locked.sub_solver ≡ a
    → text_eq q.order_uid locked.order_uid ≡ b
    → (status_code q.status == 0) ≡ c
    → (((a && (b && c)) ≡ true) × IsRival locked q)
      ⊎ (((a && (b && c)) ≡ false) × (¬ IsRival locked q))
IsRival-by locked q true true true ea eb ec =
    inl (refl, (text_eq→eq _ _ ea, text_eq→eq _ _ eb, is_open_code q.status ec))
IsRival-by locked q true true false ea eb ec =
    inr (refl, stranger_by locked q true true false ea eb ec refl)
IsRival-by locked q true false c ea eb ec =
    inr (refl, stranger_by locked q true false c ea eb ec refl)
IsRival-by locked q false b c ea eb ec = inr (refl, stranger_by locked q false b c ea eb ec refl)

rival_lem :
    (locked q : ProposalRow) (own : ℕ)
    → q.id ≢ own
    → ((is_sibling locked own q ≡ true) × IsRival locked q)
      ⊎ ((is_sibling locked own q ≡ false) × (¬ IsRival locked q))
rival_lem locked q own n = rw (other_id q.id own n) (IsRival-by locked q _ _ _ refl refl refl)

success_at :
    (p : Proposal) (h : Text) (now : ℕ) (db : Tables) (r : ProposalRow) (i : ℕ) (q : ProposalRow)
    → find_row p.id db.proposals ≡ some r
    → find_row i db.proposals ≡ some q
    → (i ≡ p.id) ⊎ (i ≢ p.id)
    → (q' : ProposalRow) × (find_row i
          (update_proposals (is_sibling r p.id) (cancel_row now) (
            resolve_own p (SettlementOutcome.succeeded h) Status.settled (some h) now db)).proposals
        ≡ some q')
      × AfterSuccess r p.id i h q q'
success_at p h now db r i q e eq (inl same) = (
  resolve_row p (SettlementOutcome.succeeded h) Status.settled (some h) now r,
  rw same (own_row p h now db r e),
  inl (same, refl, refl),
)
success_at p h now db r i q e eq (inr n) =
    elim (rival_lem r q p.id (λ same. n (find-key row_id i db.proposals q eq ∙ same))) [
      | inl (hit, rival) ↦ (
        cancel_row now q,
        other_row p h now db r i q n eq ∙ rw hit refl,
        inr (inl (n, rival, refl)),
      )
      | inr (miss, stranger) ↦
          (q, other_row p h now db r i q n eq ∙ rw miss refl, inr (inr (n, stranger, refl)))
    ]

-- A success of a submitted proposal, for any live row: the proposal's own row stays live, is
-- settled and names the transaction in lower case; another row is cancelled where it is submitted,
-- of the same sub-solver and for the same order, and is as before otherwise.
pub apply_settlement_outcome-succeeded :
    (p : Proposal) (h : Text) (now : ℕ) (db : Tables) (r : ProposalRow) (i : ℕ) (q : ProposalRow)
    → find_row p.id db.proposals ≡ some r
    → r.status ≡ Status.submitted
    → find_row i db.proposals ≡ some q
    → (q' : ProposalRow) × (find_row i
          (apply_settlement_outcome p (SettlementOutcome.succeeded h) now db).1.proposals
        ≡ some q')
      × AfterSuccess r p.id i h q q'
unfolding apply_settlement_outcome resolve_tables
apply_settlement_outcome-succeeded p h now db r i q e s eq =
    rw e (rw (open_code r.status s) (success_at p h now db r i q e eq (same_or_not i p.id)))
