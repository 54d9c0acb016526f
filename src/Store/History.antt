-- ===== src/Store/History.antt =====
-- Sequences of the writes of apps/byos/src/infra/storage.ts: which states the tables can reach,
-- and what the permanent log keeps.
pub mod Changes
pub mod Kept
use byos_service_ts.Prelude.{
  ℕ, ◌≡◌, refl, sym, subst, ap, ◌∙◌, Bool, true, false, ◌||◌, Option, none, some, List, [], ◌∷◌,
  Text, arith, is_some, ◌==◌, if◌then◌else◌, Bool-cases, Option-cases, inl, inr,
}
use byos_service_ts.Domain.Status.{Status, RejectionReason}
use byos_service_ts.Domain.Proposal.{Proposal, SettlementOutcome}
use byos_service_ts.Candidates.{Candidate}
use byos_service_ts.Store.Table.{find, on_row, IsUnique, KeepsKey, find-key}
use byos_service_ts.Store.Rows.{
  ProposalRow, row_id, Tables, find_row, has_status, mirror, sync_insert, update_proposals,
  update_log, delete_proposal,
}
use byos_service_ts.Store.Rows.Trigger.{
  mirrored, updated, find_log-update_proposals, find_log-update_log,
}
use byos_service_ts.Store.Invariant.{MirroredAt, cites_tx, IsConsistent}
use byos_service_ts.Store.Validity.{IsValid}
use byos_service_ts.Store.Outcome.{
  apply_settlement_outcome, resolve, resolve_own, resolve_row, resolve_tables, is_sibling,
  cancel_row, target_of,
}
use byos_service_ts.Store.Outcome.Writes.{
  LateOutcome, apply_lost_outcome, apply_late_lost_correction, record_penalty, is_lost, correct_row,
  lose_row, awaits_penalty, penalize_row,
}
use byos_service_ts.Store.Creation.{
  SolutionPrices, log_row, write_to_log, submitted_row, insert_live, insert_as_submitted,
  is_redactable, redact_row, redact_old_log_entries, insert_or_keep,
}
use byos_service_ts.Store.Creation.Valid.{
  find-insert_or_keep, find-sync_insert, insert_result, write_to_log-IsValid,
  insert_as_submitted-IsValid, redact_old_log_entries-IsValid,
}
use byos_service_ts.Store.Operations.{
  settle-IsValid, apply_settlement_outcome-IsValid, apply_lost_outcome-IsValid,
  apply_late_lost_correction-IsValid, record_penalty-IsValid,
}

-- The id of a selected candidate comes from a sequence, so no penalty stands on it yet.
abbrev pub unpenalized : Option ProposalRow → Bool
unpenalized none = true
unpenalized (some l) = elim (l.penalty_tx_hash) [ none ↦ true | some h ↦ false ]

-- One write, with any arguments, by any caller.
pub data Step : Tables → Tables → Type 0 where
  outcome :
      (p : Proposal) (o : SettlementOutcome) (now : ℕ) (db : Tables)
      → Step db (apply_settlement_outcome p o now db).1
  lose :
      (i : ℕ) (reason : RejectionReason) (now : ℕ) (db : Tables)
      → Step db (apply_lost_outcome i reason now db).1
  correct :
      (i : ℕ) (o : LateOutcome) (now : ℕ) (db : Tables)
      → Step db (apply_late_lost_correction i o now db).1
  penalize :
      (p : Proposal) (amount : ℕ) (tx : Text) (now : ℕ) (db : Tables)
      → Step db (record_penalty p amount tx now db).1
  log :
      (i : ℕ) (p : Proposal) (status : Status) (reason : Option RejectionReason)
      (params : Option Text) (now : ℕ) (db : Tables)
      → cites_tx (log_row i p status reason params now) ≡ true
      → Step db (write_to_log i p status reason params now db)
  select :
      (c : Candidate) (price : ℕ) (prices : SolutionPrices) (cap : Option ℕ) (now : ℕ)
      (db after : Tables)
      → unpenalized (find_row c.id db.proposals_log) ≡ true
      → insert_as_submitted c price prices cap now db ≡ some after
      → Step db after
  redact : (older now : ℕ) (db : Tables) → Step db (redact_old_log_entries older now db).1

pub data Reach (start : Tables) : Tables → Type 0 where
  here : Reach start start
  next : {s t : Tables} → Reach start s → Step s t → Reach start t

pub Reach-trans : {s t u : Tables} → Reach s t → Reach t u → Reach s u
Reach-trans r here = r
Reach-trans r (next r' st) = next (Reach-trans r r') st

pub Step-IsValid : {s t : Tables} → Step s t → IsValid s → IsValid t
Step-IsValid (outcome p o now db) v = apply_settlement_outcome-IsValid p o now db v
Step-IsValid (lose i reason now db) v = apply_lost_outcome-IsValid i reason now db v
Step-IsValid (correct i o now db) v = apply_late_lost_correction-IsValid i o now db v
Step-IsValid (penalize p amount tx now db) v = record_penalty-IsValid p amount tx now db v
Step-IsValid (log i p status reason params now db c) v =
    write_to_log-IsValid i p status reason params now db c v
Step-IsValid (select c price prices cap now db after u e) v =
    insert_as_submitted-IsValid c price prices cap now db after e v
Step-IsValid (redact older now db) v = redact_old_log_entries-IsValid older now db v

-- From valid tables every sequence of the steps of Step (writeToLog with no settled or failed
-- status, insertions of candidates whose id has no penalty in the log) reaches valid tables: ids
-- stay unique, every live row agrees with its log row, live rows have live statuses, and a
-- settled or failed row in the log names its settlement transaction.
pub Reach-IsValid : {s t : Tables} → IsValid s → Reach s t → IsValid t
Reach-IsValid v here = v
Reach-IsValid v (next r st) = Step-IsValid st (Reach-IsValid v r)

-- What a log row keeps of what the sub-solver signed. The tokens and the interactions are not
-- among it: the trigger carries the live row's tokens over, and a redaction empties the
-- interactions, of which the hash stays.
pub record SignedPart : Type 0 where
  pub sub_solver : Text
  pub order_uid : Text
  pub order_uid_hash : Text
  pub sell_amount : ℕ
  pub min_buy_amount : ℕ
  pub quote_buy_amount : ℕ
  pub interactions_hash : Text
  pub valid_until : ℕ
  pub nonce : ℕ
  pub signature : Text

abbrev pub signed_of : ProposalRow → SignedPart
signed_of r = record {
  sub_solver = r.sub_solver;
  order_uid = r.order_uid;
  order_uid_hash = r.order_uid_hash;
  sell_amount = r.sell_amount;
  min_buy_amount = r.min_buy_amount;
  quote_buy_amount = r.quote_buy_amount;
  interactions_hash = r.interactions_hash;
  valid_until = r.valid_until;
  nonce = r.nonce;
  signature = r.signature;
}

abbrev pub HashKept : Option Text → Option Text → Type 0
HashKept none after = Unit {0}
HashKept (some h) after = after ≡ some h

-- A log row is never lost, that part of what was signed never changes, and a penalty hash stays.
abbrev pub Kept : Option ProposalRow → Option ProposalRow → Type 0
Kept none after = Unit {0}
Kept (some l) none = ⊥
Kept (some l) (some l') =
    (signed_of l' ≡ signed_of l) × HashKept l.penalty_tx_hash l'.penalty_tx_hash
