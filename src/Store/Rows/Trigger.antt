-- ===== src/Store/Rows/Trigger.antt =====
-- What the statements on proposals do to a row and to its mirror, read by primary key.
use byos_service_ts.Prelude.{
  ℕ, ◌≡◌, refl, Bool, true, false, Option, none, some, List, [], ◌∷◌, map, filter, arith, ◌==◌,
  if◌then◌else◌, Bool-cases, Option-cases, inl, inr,
}
use byos_service_ts.Store.Table.{
  on_row, KeepsKey, IsUnique, find-key, find-update_where, find-delete,
}
use byos_service_ts.Store.Rows.{
  ProposalRow, row_id, Tables, find_row, mirror, sync_update, sync_updates, update_proposals,
  update_log, delete_proposal,
}

-- What an update of the live row, if there is one, makes of the log row.
abbrev pub mirrored :
    (ProposalRow → Bool)
    → (ProposalRow → ProposalRow)
    → Option ProposalRow
    → ProposalRow
    → ProposalRow
mirrored p f none l = l
mirrored p f (some r) l = if p r then mirror (f r) l else l

abbrev pub updated : (ProposalRow → Bool) → (ProposalRow → ProposalRow) → ProposalRow → ProposalRow
updated p f r = if p r then f r else r

find-sync_update :
    (i : ℕ) (new : ProposalRow) (log : List ProposalRow)
    → find_row i (sync_update new log)
      ≡ on_row row_id (λ l. if new.id == l.id then mirror new l else l) (find_row i log)
find-sync_update i new log =
    find-update_where row_id (λ l. new.id == l.id) (mirror new) (λ r. refl) i log

-- The first live row is carried over, and the trigger of the later ones leaves its mirror alone.
mirror_step :
    (p : ProposalRow → Bool) (f : ProposalRow → ProposalRow) (i : ℕ) (r : ProposalRow)
    (live log : List ProposalRow)
    → (f r).id ≡ r.id
    → p r ≡ true
    → find_row r.id live ≡ none
    → on_row row_id
        (mirrored p f (find_row i live))
        (on_row row_id (λ l. if (f r).id == l.id then mirror (f r) l else l) (find_row i log))
      ≡ on_row row_id (mirrored p f (find_row i (r ∷ live))) (find_row i log)
mirror_step p f i r live log k hit u = elim (Option-cases (find_row i log)) [
  | inl e ↦ rw e
  | inr (l, e) ↦ rw e (ground (arith, find-key row_id i log l e))
]

miss_step :
    (p : ProposalRow → Bool) (f : ProposalRow → ProposalRow) (i : ℕ) (r : ProposalRow)
    (live log : List ProposalRow)
    → p r ≡ false
    → find_row r.id live ≡ none
    → on_row row_id (mirrored p f (find_row i live)) (find_row i log)
      ≡ on_row row_id (mirrored p f (find_row i (r ∷ live))) (find_row i log)
miss_step p f i r live log miss u = elim (Option-cases (find_row i log)) [
  | inl e ↦ rw e
  | inr (l, e) ↦ rw e (ground arith)
]

find-sync_updates :
    (p : ProposalRow → Bool) (f : ProposalRow → ProposalRow)
    → KeepsKey row_id f
    → (i : ℕ) (live log : List ProposalRow) → IsUnique row_id live
    → find_row i (sync_updates (map f (filter p live)) log)
      ≡ on_row row_id (mirrored p f (find_row i live)) (find_row i log)
unfolding sync_updates
find-sync_updates p f k i [] log u = ground arith
find-sync_updates p f k i (r ∷ live) log u = elim (Bool-cases (p r)) [
  | inl hit ↦
      rw
        (
          hit,
          find-sync_updates p f k i live (sync_update (f r) log) u.1,
          find-sync_update i (f r) log,
        )
        (mirror_step p f i r live log (k r) hit u.0)
  | inr miss ↦
      rw (miss, find-sync_updates p f k i live log u.1) (miss_step p f i r live log miss u.0)
]

module _ (db : Tables) where
  -- A live row after an update.
  pub find_live-update_proposals :
      (p : ProposalRow → Bool) (f : ProposalRow → ProposalRow)
      → KeepsKey row_id f
      → (i : ℕ)
      → find_row i (update_proposals p f db).proposals
        ≡ on_row row_id (updated p f) (find_row i db.proposals)
  unfolding update_proposals
  find_live-update_proposals p f k i = find-update_where row_id p f k i db.proposals

  -- A log row after an update of the live rows.
  pub find_log-update_proposals :
      (p : ProposalRow → Bool) (f : ProposalRow → ProposalRow)
      → KeepsKey row_id f
      → IsUnique row_id db.proposals
      → (i : ℕ)
      → find_row i (update_proposals p f db).proposals_log
        ≡ on_row row_id (mirrored p f (find_row i db.proposals)) (find_row i db.proposals_log)
  unfolding update_proposals
  find_log-update_proposals p f k u i = find-sync_updates p f k i db.proposals db.proposals_log u

  pub find_log-update_log :
      (p : ProposalRow → Bool) (f : ProposalRow → ProposalRow)
      → KeepsKey row_id f
      → (i : ℕ)
      → find_row i (update_log p f db).proposals_log
        ≡ on_row row_id (updated p f) (find_row i db.proposals_log)
  unfolding update_log
  find_log-update_log p f k i = find-update_where row_id p f k i db.proposals_log

  pub find_live-delete_proposal :
      (k i : ℕ)
      → find_row i (delete_proposal k db).proposals
        ≡ (if i == k then none else find_row i db.proposals)
  unfolding delete_proposal
  find_live-delete_proposal k i = find-delete row_id k i db.proposals
