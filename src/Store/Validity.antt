-- ===== src/Store/Validity.antt =====
-- Every write of apps/byos/src/infra/storage.ts on proposals and proposals_log keeps the tables
-- valid: consistent with one another, with only live statuses in the live table.
use byos_service_ts.Prelude.{
  ℕ, ◌≡◌, refl, Bool, true, false, not, ◌&&◌, Option, none, some, arith, ◌==◌, if◌then◌else◌,
  Bool-cases, inl, inr, is_some, ap,
}
use byos_service_ts.Domain.Status.{Status}
use byos_service_ts.Store.Table.{on_row, KeepsKey, find-key}
use byos_service_ts.Store.Rows.{
  ProposalRow, row_id, Tables, find_row, mirror, update_proposals, update_log, delete_proposal,
}
use byos_service_ts.Store.Rows.Trigger.{
  updated, find_live-update_proposals, find_live-delete_proposal,
}
use byos_service_ts.Store.Invariant.{
  MirroredAt, cites_tx, IsConsistent, update_proposals-IsConsistent, delete_proposal-IsConsistent,
  update_log-IsConsistent,
}

abbrev pub is_live_status : Status → Bool
is_live_status Status.submitted = true
is_live_status Status.settled = true
is_live_status Status.cancelled = true
is_live_status _ = false

abbrev pub is_live : ProposalRow → Bool
is_live r = is_live_status r.status && not (is_some r.simulation_failure_params)

abbrev pub LiveAt : Option ProposalRow → Type 0
LiveAt none = Unit {0}
LiveAt (some r) = is_live r ≡ true

pub record IsValid (db : Tables) : Type 0 where
  pub consistent : IsConsistent db
  pub live : (i : ℕ) → LiveAt (find_row i db.proposals)

live_update_at :
    (p : ProposalRow → Bool) (f : ProposalRow → ProposalRow)
    → ((r : ProposalRow) → is_live r ≡ true → is_live (f r) ≡ true)
    → (lo : Option ProposalRow) → LiveAt lo
    → LiveAt (on_row row_id (updated p f) lo)
live_update_at p f k none h = tt
live_update_at p f k (some r) h = elim (Bool-cases (p r)) [
  | inl hit ↦ rw hit (k r h)
  | inr miss ↦ rw miss h
]

pub update_proposals-IsValid :
    (p : ProposalRow → Bool) (f : ProposalRow → ProposalRow) (db : Tables)
    → KeepsKey row_id f
    → ((r : ProposalRow) → p r ≡ true → cites_tx r ≡ true → cites_tx (f r) ≡ true)
    → ((r : ProposalRow) → is_live r ≡ true → is_live (f r) ≡ true)
    → IsValid db
    → IsValid (update_proposals p f db)
update_proposals-IsValid p f db k c l v = record {
  consistent = update_proposals-IsConsistent p f db k c v.consistent;
  live = λ i.
      rw (find_live-update_proposals db p f k i)
        (live_update_at p f l (find_row i db.proposals) (v.live i));
}

live_gone_at :
    (f : ProposalRow → ProposalRow) (i k : ℕ) (lo : Option ProposalRow)
    → ((r : ProposalRow) → lo ≡ some r → i ≡ r.id)
    → LiveAt lo
    → LiveAt (if i == k then none else on_row row_id (updated (λ r. r.id == k) f) lo)
live_gone_at f i k none e h = ground arith
live_gone_at f i k (some r) e h = ground (arith, e r refl)

-- A row that is updated to a final status and deleted in one transaction.
pub retire-IsValid :
    (f : ProposalRow → ProposalRow) (k : ℕ) (db : Tables)
    → KeepsKey row_id f
    → ((r : ProposalRow) → cites_tx r ≡ true → cites_tx (f r) ≡ true)
    → IsValid db
    → IsValid (delete_proposal k (update_proposals (λ r. r.id == k) f db))
retire-IsValid f k db kf c v =
    let updated_db = update_proposals (λ r. r.id == k) f db in
    record {
      consistent =
          delete_proposal-IsConsistent k updated_db
            (update_proposals-IsConsistent (λ r. r.id == k) f db kf (λ r _. c r) v.consistent);
      live = λ i.
          rw
            (
              find_live-delete_proposal updated_db k i,
              find_live-update_proposals db (λ r. r.id == k) f kf i,
            )
            (live_gone_at f i k (find_row i db.proposals) (find-key row_id i db.proposals)
              (v.live i));
    }

status_of : ProposalRow → Status
status_of l = l.status

live_not_dead :
    (r l : ProposalRow) → is_live r ≡ true → mirror r l ≡ l → is_live_status l.status ≡ false → ⊥
unfolding status_of
live_not_dead r l h m d = ground (arith, ap status_of m)

mirror_of_dead :
    (p : ProposalRow → Bool) (f : ProposalRow → ProposalRow) (lo lg : Option ProposalRow)
    → ((l : ProposalRow) → p l ≡ true → is_live_status l.status ≡ false)
    → LiveAt lo
    → MirroredAt lo lg
    → MirroredAt lo (on_row row_id (updated p f) lg)
mirror_of_dead p f none lg d h m = tt
mirror_of_dead p f (some r) none d h m = m
mirror_of_dead p f (some r) (some l) d h m = elim (Bool-cases (p l)) [
  | inl hit ↦ absurd (live_not_dead r l h m (d l hit))
  | inr miss ↦ rw miss m
]

-- A write on the log that only touches rows of a status that no live row has.
pub correct-IsValid :
    (p : ProposalRow → Bool) (f : ProposalRow → ProposalRow) (db : Tables)
    → KeepsKey row_id f
    → ((l : ProposalRow) → p l ≡ true → cites_tx l ≡ true → cites_tx (f l) ≡ true)
    → ((l : ProposalRow) → p l ≡ true → is_live_status l.status ≡ false)
    → IsValid db
    → IsValid (update_log p f db)
unfolding update_log
correct-IsValid p f db k c d v = record {
  consistent =
      update_log-IsConsistent p f db k c
        (λ i.
          mirror_of_dead p f (find_row i db.proposals) (find_row i db.proposals_log) d (v.live i)
            (v.consistent.mirrors i))
        v.consistent;
  live = v.live;
}
