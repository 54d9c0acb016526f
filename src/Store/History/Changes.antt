-- ===== src/Store/History/Changes.antt =====
-- What a change of the proposal tables (apps/byos/src/infra/storage.ts) leaves as it was in the
-- log, and how changes compose.
use byos_service_ts.Prelude.{
  ℕ, ◌≡◌, refl, sym, subst, ap, ◌∙◌, Bool, true, Option, none, some, Text, Bool-cases, inl, inr,
}
use byos_service_ts.Store.Table.{on_row, KeepsKey}
use byos_service_ts.Store.Rows.{ProposalRow, row_id, Tables, find_row, update_proposals, update_log}
use byos_service_ts.Store.Rows.Trigger.{
  mirrored, updated, find_log-update_proposals, find_log-update_log,
}
use byos_service_ts.Store.Invariant.{MirroredAt}
use byos_service_ts.Store.Validity.{IsValid}
use byos_service_ts.Store.History.{HashKept, Kept, signed_of}

pub HashKept-refl : (h : Option Text) → HashKept h h
HashKept-refl none = tt
HashKept-refl (some h) = refl

pub HashKept-trans : (a b c : Option Text) → HashKept a b → HashKept b c → HashKept a c
HashKept-trans none b c h k = tt
HashKept-trans (some x) b c h k = subst (λ y. HashKept y c) h k

pub Kept-refl : (lg : Option ProposalRow) → Kept lg lg
Kept-refl none = tt
Kept-refl (some l) = (refl, HashKept-refl l.penalty_tx_hash)

pub Kept-trans : (a b c : Option ProposalRow) → Kept a b → Kept b c → Kept a c
Kept-trans none b c h k = tt
Kept-trans (some x) none c h k = absurd h
Kept-trans (some x) (some y) none h k = absurd k
Kept-trans (some x) (some y) (some z) h k =
    (k.0 ∙ h.0, HashKept-trans x.penalty_tx_hash y.penalty_tx_hash z.penalty_tx_hash h.1 k.1)

abbrev pub KeepsPenalty : (ProposalRow → ProposalRow) → Type 0
KeepsPenalty f = (r : ProposalRow) → (f r).penalty_tx_hash ≡ r.penalty_tx_hash

abbrev pub penalty_of : ProposalRow → Option Text
penalty_of l = l.penalty_tx_hash

pub HashKept-eq : (a b : Option Text) → b ≡ a → HashKept a b
HashKept-eq a b e = subst (HashKept a) (sym e) (HashKept-refl a)

pub update-Kept :
    (p : ProposalRow → Bool) (f : ProposalRow → ProposalRow) (lo lg : Option ProposalRow)
    → KeepsPenalty f
    → MirroredAt lo lg
    → Kept lg (on_row row_id (mirrored p f lo) lg)
update-Kept p f lo none k m = tt
update-Kept p f none (some l) k m = Kept-refl (some l)
update-Kept p f (some r) (some l) k m = elim (Bool-cases (p r)) [
  | inl hit ↦
      rw hit (refl, HashKept-eq l.penalty_tx_hash (f r).penalty_tx_hash (k r ∙ ap penalty_of m))
  | inr miss ↦ rw miss (Kept-refl (some l))
]

unfoldable pub LogKept : Tables → Tables → Type 0
LogKept s t = (i : ℕ) → Kept (find_row i s.proposals_log) (find_row i t.proposals_log)

pub update_proposals-LogKept :
    (p : ProposalRow → Bool) (f : ProposalRow → ProposalRow) (db : Tables)
    → KeepsKey row_id f
    → KeepsPenalty f
    → IsValid db
    → LogKept db (update_proposals p f db)
unfolding LogKept
update_proposals-LogKept p f db k kp v i =
    rw (find_log-update_proposals db p f k v.consistent.live_unique i) (
      update-Kept p f (find_row i db.proposals) (find_row i db.proposals_log) kp
        (v.consistent.mirrors i))

pub log-Kept :
    (p : ProposalRow → Bool) (f : ProposalRow → ProposalRow) (lg : Option ProposalRow)
    → ((l : ProposalRow)
        → p l ≡ true
        → (signed_of (f l) ≡ signed_of l) × HashKept l.penalty_tx_hash (f l).penalty_tx_hash)
    → Kept lg (on_row row_id (updated p f) lg)
log-Kept p f none k = tt
log-Kept p f (some l) k = elim (Bool-cases (p l)) [
  | inl hit ↦ rw hit (k l hit)
  | inr miss ↦ rw miss (Kept-refl (some l))
]

pub update_log-LogKept :
    (p : ProposalRow → Bool) (f : ProposalRow → ProposalRow) (db : Tables)
    → KeepsKey row_id f
    → ((l : ProposalRow)
        → p l ≡ true
        → (signed_of (f l) ≡ signed_of l) × HashKept l.penalty_tx_hash (f l).penalty_tx_hash)
    → LogKept db (update_log p f db)
unfolding LogKept
update_log-LogKept p f db k kp i =
    rw (find_log-update_log db p f k i) (log-Kept p f (find_row i db.proposals_log) kp)

pub LogKept-refl : (db : Tables) → LogKept db db
unfolding LogKept
LogKept-refl db i = Kept-refl (find_row i db.proposals_log)

pub LogKept-trans : (r s t : Tables) → LogKept r s → LogKept s t → LogKept r t
unfolding LogKept
LogKept-trans r s t h k i =
    Kept-trans (find_row i r.proposals_log) (find_row i s.proposals_log)
      (find_row i t.proposals_log) (h i) (k i)
