-- ===== src/Store/Invariant.antt =====
-- What holds of proposals and proposals_log between two calls of apps/byos/src/infra/storage.ts.
use byos_service_ts.Prelude.{
  ℕ, ◌≡◌, refl, Bool, true, ◌||◌, Option, none, some, List, [], ◌∷◌, map, filter, ◌==◌,
  if◌then◌else◌, Bool-cases, inl, inr, is_some, ap, ◌∙◌,
}
use byos_service_ts.Domain.Status.{Status}
use byos_service_ts.Store.Table.{on_row, KeepsKey, IsUnique, update_where-IsUnique, delete-IsUnique}
use byos_service_ts.Store.Rows.{
  ProposalRow, row_id, Tables, find_row, has_status, mirror, sync_update, sync_updates,
  update_proposals, update_log, delete_proposal,
}
use byos_service_ts.Store.Rows.Trigger.{
  mirrored, updated, find_live-update_proposals, find_log-update_proposals, find_log-update_log,
  find_live-delete_proposal,
}

-- A live row has a log row that agrees with it on every mirrored column.
abbrev pub MirroredAt : Option ProposalRow → Option ProposalRow → Type 0
MirroredAt none log = Unit {0}
MirroredAt (some r) none = ⊥
MirroredAt (some r) (some l) = mirror r l ≡ l

-- A settled or failed row names the settlement transaction.
abbrev pub cites_tx : ProposalRow → Bool
cites_tx r =
    if has_status Status.settled r || has_status Status.settle_failed r
    then is_some r.settlement_tx_hash
    else true

abbrev pub CitesAt : Option ProposalRow → Type 0
CitesAt none = Unit {0}
CitesAt (some l) = cites_tx l ≡ true

pub record IsConsistent (db : Tables) : Type 0 where
  pub live_unique : IsUnique row_id db.proposals
  pub log_unique : IsUnique row_id db.proposals_log
  pub mirrors : (i : ℕ) → MirroredAt (find_row i db.proposals) (find_row i db.proposals_log)
  pub cites : (i : ℕ) → CitesAt (find_row i db.proposals_log)

sync_updates-IsUnique :
    (news log : List ProposalRow) → IsUnique row_id log → IsUnique row_id (sync_updates news log)
unfolding sync_updates
sync_updates-IsUnique [] log u = u
sync_updates-IsUnique (n ∷ news) log u =
    sync_updates-IsUnique news (sync_update n log)
      (update_where-IsUnique row_id (λ l. n.id == l.id) (mirror n) (λ r. refl) log u)

mirrors-update :
    (p : ProposalRow → Bool) (f : ProposalRow → ProposalRow) (lo lg : Option ProposalRow)
    → MirroredAt lo lg
    → MirroredAt (on_row row_id (updated p f) lo) (on_row row_id (mirrored p f lo) lg)
mirrors-update p f none lg h = tt
mirrors-update p f (some r) none h = absurd h
mirrors-update p f (some r) (some l) h = elim (Bool-cases (p r)) [
  | inl hit ↦ rw hit refl
  | inr miss ↦ rw miss h
]

cites-update :
    (p : ProposalRow → Bool) (f : ProposalRow → ProposalRow)
    → ((r : ProposalRow) → p r ≡ true → cites_tx r ≡ true → cites_tx (f r) ≡ true)
    → (lo lg : Option ProposalRow) → MirroredAt lo lg
    → CitesAt lg
    → CitesAt (on_row row_id (mirrored p f lo) lg)
cites-update p f k none none h c = tt
cites-update p f k none (some l) h c = c
cites-update p f k (some r) none h c = tt
cites-update p f k (some r) (some l) h c = elim (Bool-cases (p r)) [
  | inl hit ↦ rw hit (k r hit (ap cites_tx h ∙ c))
  | inr miss ↦ rw miss c
]

-- An update of the live rows keeps the invariant, if no row loses its citation by it.
pub update_proposals-IsConsistent :
    (p : ProposalRow → Bool) (f : ProposalRow → ProposalRow) (db : Tables)
    → KeepsKey row_id f
    → ((r : ProposalRow) → p r ≡ true → cites_tx r ≡ true → cites_tx (f r) ≡ true)
    → IsConsistent db
    → IsConsistent (update_proposals p f db)
unfolding update_proposals
update_proposals-IsConsistent p f db k c v = record {
  live_unique = update_where-IsUnique row_id p f k db.proposals v.live_unique;
  log_unique = sync_updates-IsUnique (map f (filter p db.proposals)) db.proposals_log v.log_unique;
  mirrors = λ i.
      rw (find_live-update_proposals db p f k i, find_log-update_proposals db p f k v.live_unique i)
        (mirrors-update p f (find_row i db.proposals) (find_row i db.proposals_log) (v.mirrors i));
  cites = λ i. rw (find_log-update_proposals db p f k v.live_unique i) (
      cites-update p f c (find_row i db.proposals) (find_row i db.proposals_log) (v.mirrors i)
        (v.cites i));
}

delete_at :
    (i k : ℕ) (lo lg : Option ProposalRow)
    → MirroredAt lo lg
    → MirroredAt (if i == k then none else lo) lg
delete_at i k lo lg h = elim (Bool-cases (i == k)) [
  | inl here ↦ rw here tt
  | inr there ↦ rw there h
]

-- Deleting a live row keeps the invariant: the log row stays as it is.
pub delete_proposal-IsConsistent :
    (k : ℕ) (db : Tables) → IsConsistent db → IsConsistent (delete_proposal k db)
unfolding delete_proposal
delete_proposal-IsConsistent k db v = record {
  live_unique = delete-IsUnique row_id k db.proposals v.live_unique;
  log_unique = v.log_unique;
  mirrors = λ i.
      rw (find_live-delete_proposal db k i)
        (delete_at i k (find_row i db.proposals) (find_row i db.proposals_log) (v.mirrors i));
  cites = v.cites;
}

log_update_at :
    (p : ProposalRow → Bool) (f : ProposalRow → ProposalRow)
    → ((l : ProposalRow) → p l ≡ true → cites_tx l ≡ true → cites_tx (f l) ≡ true)
    → (lg : Option ProposalRow) → CitesAt lg
    → CitesAt (on_row row_id (updated p f) lg)
log_update_at p f k none c = tt
log_update_at p f k (some l) c = elim (Bool-cases (p l)) [
  | inl hit ↦ rw hit (k l hit c)
  | inr miss ↦ rw miss c
]

-- An update of the log alone keeps the invariant where it leaves the mirrors of live rows alone
-- and no row loses its citation.
pub update_log-IsConsistent :
    (p : ProposalRow → Bool) (f : ProposalRow → ProposalRow) (db : Tables)
    → KeepsKey row_id f
    → ((l : ProposalRow) → p l ≡ true → cites_tx l ≡ true → cites_tx (f l) ≡ true)
    → ((i : ℕ)
        → MirroredAt
            (find_row i db.proposals)
            (on_row row_id (updated p f) (find_row i db.proposals_log)))
    → IsConsistent db
    → IsConsistent (update_log p f db)
unfolding update_log
update_log-IsConsistent p f db k c m v = record {
  live_unique = v.live_unique;
  log_unique = update_where-IsUnique row_id p f k db.proposals_log v.log_unique;
  mirrors = λ i. rw (find_log-update_log db p f k i) (m i);
  cites = λ i.
      rw (find_log-update_log db p f k i)
        (log_update_at p f c (find_row i db.proposals_log) (v.cites i));
}
