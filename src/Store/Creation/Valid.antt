-- ===== src/Store/Creation/Valid.antt =====
-- The writes of Store.Creation keep the tables valid.
use byos_service_ts.Prelude.{
  ℕ, ◌≡◌, refl, subst, ap, ◌∙◌, true, Option, none, some, List, [], ◌∷◌, Text, arith, is_some, ◌==◌,
  if◌then◌else◌, Bool-cases, Option-cases, inl, inr,
}
use byos_service_ts.Domain.Status.{Status, RejectionReason}
use byos_service_ts.Domain.Proposal.{Proposal}
use byos_service_ts.Candidates.{Candidate}
use byos_service_ts.Store.Table.{on_row, IsUnique}
use byos_service_ts.Store.Rows.{
  ProposalRow, row_id, Tables, find_row, mirror, sync_insert, update_log,
}
use byos_service_ts.Store.Rows.Trigger.{updated}
use byos_service_ts.Store.Invariant.{MirroredAt, cites_tx, CitesAt, update_log-IsConsistent}
use byos_service_ts.Store.Validity.{IsValid, LiveAt, is_live}
use byos_service_ts.Store.Creation.{
  insert_or_keep, log_row, write_to_log, submitted_row, insert_live, insert_as_submitted,
  SolutionPrices, is_redactable, redact_row, redact_old_log_entries,
}

-- The row of an id after an insert that keeps what is there.
abbrev pub kept : ProposalRow → Option ProposalRow → Option ProposalRow
kept r none = some r
kept r (some l) = some l

pub find-insert_or_keep :
    (i : ℕ) (r : ProposalRow) (log : List ProposalRow)
    → find_row i (insert_or_keep r log)
      ≡ (if i == r.id then kept r (find_row i log) else find_row i log)
find-insert_or_keep i r [] = refl
find-insert_or_keep i r (l ∷ log) = ground (arith, find-insert_or_keep i r log)

insert_or_keep-IsUnique :
    (r : ProposalRow) (log : List ProposalRow)
    → IsUnique row_id log
    → IsUnique row_id (insert_or_keep r log)
insert_or_keep-IsUnique r [] u = (refl, tt)
insert_or_keep-IsUnique r (l ∷ log) u =
    ground (arith, insert_or_keep-IsUnique r log u.1, find-insert_or_keep l.id r log)

-- The row of an id after the trigger on an insert.
abbrev pub synced : ProposalRow → Option ProposalRow → Option ProposalRow
synced r none = some r
synced r (some l) = some (mirror r l)

pub find-sync_insert :
    (i : ℕ) (r : ProposalRow) (log : List ProposalRow)
    → find_row i (sync_insert r log)
      ≡ (if i == r.id then synced r (find_row i log) else find_row i log)
unfolding sync_insert
find-sync_insert i r [] = refl
find-sync_insert i r (l ∷ log) = ground (arith, find-sync_insert i r log)

sync_insert-IsUnique :
    (r : ProposalRow) (log : List ProposalRow)
    → IsUnique row_id log
    → IsUnique row_id (sync_insert r log)
unfolding sync_insert
sync_insert-IsUnique r [] u = (refl, tt)
sync_insert-IsUnique r (l ∷ log) u =
    ground (arith, sync_insert-IsUnique r log u.1, find-sync_insert l.id r log)

kept_at :
    (i : ℕ) (r : ProposalRow) (lo lg : Option ProposalRow)
    → MirroredAt lo lg
    → cites_tx r ≡ true
    → CitesAt lg
    → MirroredAt lo (if i == r.id then kept r lg else lg)
      × CitesAt (if i == r.id then kept r lg else lg)
kept_at i r none none m c h = ground arith
kept_at i r none (some l) m c h = ground arith
kept_at i r (some x) none m c h = absurd m
kept_at i r (some x) (some l) m c h = ground arith

-- A row written straight to the log keeps the tables valid, unless its status claims a
-- settlement. A row that is there already is kept.
pub write_to_log-IsValid :
    (i : ℕ) (p : Proposal) (status : Status) (reason : Option RejectionReason)
    (params : Option Text) (now : ℕ) (db : Tables)
    → cites_tx (log_row i p status reason params now) ≡ true
    → IsValid db
    → IsValid (write_to_log i p status reason params now db)
unfolding write_to_log
write_to_log-IsValid i p status reason params now db c v =
    let r = log_row i p status reason params now in
    let at = λ (k : ℕ).
      kept_at k r (find_row k db.proposals) (find_row k db.proposals_log) (v.consistent.mirrors k) c
        (v.consistent.cites k) in
    record {
      consistent = record {
        live_unique = v.consistent.live_unique;
        log_unique = insert_or_keep-IsUnique r db.proposals_log v.consistent.log_unique;
        mirrors = λ k. rw (find-insert_or_keep k r db.proposals_log) (at k).0;
        cites = λ k. rw (find-insert_or_keep k r db.proposals_log) (at k).1;
      };
      live = v.live;
    }

module _ (i : ℕ) (r : ProposalRow) (lo lg : Option ProposalRow) where
  insert_mirrors :
      MirroredAt lo lg
      → MirroredAt (if i == r.id then some r else lo) (if i == r.id then synced r lg else lg)
  insert_mirrors m = elim (Bool-cases (i == r.id)) [
    | inl here ↦ rw here (elim (Option-cases lg) [ inl e ↦ rw e refl | inr (l, e) ↦ rw e refl ])
    | inr there ↦ rw there m
  ]

  insert_cites : cites_tx r ≡ true → CitesAt lg → CitesAt (if i == r.id then synced r lg else lg)
  insert_cites c h = elim (Bool-cases (i == r.id)) [
    | inl here ↦ rw here (elim (Option-cases lg) [ inl e ↦ rw e c | inr (l, e) ↦ rw e c ])
    | inr there ↦ rw there h
  ]

  insert-LiveAt : is_live r ≡ true → LiveAt lo → LiveAt (if i == r.id then some r else lo)
  insert-LiveAt c h = elim (Bool-cases (i == r.id)) [
    | inl here ↦ rw here c
    | inr there ↦ rw there h
  ]

insert_live-IsValid :
    (r : ProposalRow) (db : Tables)
    → find_row r.id db.proposals ≡ none
    → cites_tx r ≡ true
    → is_live r ≡ true
    → IsValid db
    → IsValid (insert_live r db)
insert_live-IsValid r db fresh c l v = record {
  consistent = record {
    live_unique = (fresh, v.consistent.live_unique);
    log_unique = sync_insert-IsUnique r db.proposals_log v.consistent.log_unique;
    mirrors = λ k. rw (find-sync_insert k r db.proposals_log) (
        insert_mirrors k r (find_row k db.proposals) (find_row k db.proposals_log)
          (v.consistent.mirrors k));
    cites = λ k. rw (find-sync_insert k r db.proposals_log) (
        insert_cites k r (find_row k db.proposals) (find_row k db.proposals_log) c
          (v.consistent.cites k));
  };
  live =
      λ k. insert-LiveAt k r (find_row k db.proposals) (find_row k db.proposals_log) l (v.live k);
}

pub insert_result :
    (o : Option ProposalRow) (x after : Tables)
    → (if is_some o then none else some x) ≡ some after
    → (o ≡ none) × (x ≡ after)
insert_result none x after e = (refl, ground arith)
insert_result (some r) x after e = cc

-- Selecting a candidate keeps the tables valid wherever the insert succeeds.
pub insert_as_submitted-IsValid :
    (c : Candidate) (buy_price : ℕ) (prices : SolutionPrices) (cap : Option ℕ) (now : ℕ)
    (db after : Tables)
    → insert_as_submitted c buy_price prices cap now db ≡ some after
    → IsValid db
    → IsValid after
unfolding insert_as_submitted
insert_as_submitted-IsValid c buy_price prices cap now db after e v =
    let row = submitted_row c buy_price prices cap now in
    let (fresh, same) = insert_result (find_row c.id db.proposals) (insert_live row db) after e in
    subst IsValid same (insert_live-IsValid row db fresh refl refl v)

set_params : Option Text → ProposalRow → ProposalRow
set_params x r = record r { proposal = record (r.proposal) { simulation_failure_params = x } }

no_params : (r : ProposalRow) → is_live r ≡ true → r.simulation_failure_params ≡ none
no_params r h = ground arith

redact_mirror :
    (older now : ℕ) (lo lg : Option ProposalRow)
    → LiveAt lo
    → MirroredAt lo lg
    → MirroredAt lo (on_row row_id (updated (is_redactable older now) redact_row) lg)
unfolding set_params
redact_mirror older now none lg h m = tt
redact_mirror older now (some r) none h m = m
redact_mirror older now (some r) (some l) h m = elim (Bool-cases (is_redactable older now l)) [
  | inl hit ↦
      rw hit (ap (λ x. set_params x (redact_row (mirror r l))) (no_params r h) ∙ ap redact_row m)
  | inr miss ↦ rw miss m
]

-- Redaction keeps the tables valid: what it removes from the log no live row has.
pub redact_old_log_entries-IsValid :
    (older_than_secs now : ℕ) (db : Tables)
    → IsValid db
    → IsValid (redact_old_log_entries older_than_secs now db).1
unfolding redact_old_log_entries update_log
redact_old_log_entries-IsValid older now db v = record {
  consistent =
      update_log-IsConsistent (is_redactable older now) redact_row db (λ r. refl) (λ l h c. c)
        (λ i.
          redact_mirror older now (find_row i db.proposals) (find_row i db.proposals_log) (v.live i)
            (v.consistent.mirrors i))
        v.consistent;
  live = v.live;
}
