-- ===== src/Candidates/Laws.antt =====
-- The candidate store of apps/byos/src/infra/candidate-store.ts as a map from ids.
use byos_service_ts.Prelude.{
  ℕ, ◌≡◌, refl, ◌↔◌, Option, none, some, List, [], ◌∷◌, Text, to_lower, arith, ◌==◌, if◌then◌else◌,
  includes,
}
use byos_service_ts.Store.Table.{find, find-delete, delete-IsUnique, IsUnique, delete_where}
use byos_service_ts.Domain.Order.Envelope.{token_eq_iff}
use byos_service_ts.Candidates.{
  Candidate, CandidateStore, candidate_id, owned_by, add, get, remove_all, get_for_owner,
}

find-add :
    (i : ℕ) (c : Candidate) (s : CandidateStore)
    → find candidate_id i (add c s) ≡ (if i == c.id then some c else find candidate_id i s)
unfolding add
find-add i c [] = refl
find-add i c (d ∷ s) = ground (arith, find-add i c s)

-- Reading after adding.
pub get-add :
    (i : ℕ) (c : Candidate) (s : CandidateStore)
    → get i (add c s) ≡ (if i == c.id then some c else get i s)
unfolding get
get-add i c s = find-add i c s

-- Reading after a batch is removed: exactly the ids of the batch are gone.
pub get-remove_all :
    (i : ℕ) (ids : List ℕ) (s : CandidateStore)
    → get i (remove_all ids s) ≡ (if includes ids i then none else get i s)
unfolding get remove_all
get-remove_all i [] s = refl
get-remove_all i (j ∷ ids) s =
    rw (get-remove_all i ids (delete_where (λ c. j == c.id) s), find-delete candidate_id j i s)
      (ground arith)

pub add-IsUnique :
    (c : Candidate) (s : CandidateStore) → IsUnique candidate_id s → IsUnique candidate_id (add c s)
unfolding add
add-IsUnique c [] u = (refl, tt)
add-IsUnique c (d ∷ s) u = ground (arith, add-IsUnique c s u.1, find-add d.id c s)

pub remove_all-IsUnique :
    (ids : List ℕ) (s : CandidateStore)
    → IsUnique candidate_id s
    → IsUnique candidate_id (remove_all ids s)
unfolding remove_all
remove_all-IsUnique [] s u = u
remove_all-IsUnique (j ∷ ids) s u =
    remove_all-IsUnique ids (delete_where (λ c. j == c.id) s) (delete-IsUnique candidate_id j s u)

owned_by_iff :
    (owner : Text) (o : Option Candidate) (c : Candidate)
    → (owned_by owner o ≡ some c) ↔ ((o ≡ some c) × (to_lower c.sub_solver ≡ to_lower owner))
owned_by_iff owner none c = (λ h. cc, λ h. cc h.0)
owned_by_iff owner (some d) c = (
  λ h. ground (arith, token_eq_iff d.sub_solver owner),
  λ h. ground (arith, token_eq_iff d.sub_solver owner),
)

-- A candidate is handed out exactly to its own sub-solver, whatever the case of the address.
pub get_for_owner_iff :
    (i : ℕ) (owner : Text) (s : CandidateStore) (c : Candidate)
    → (get_for_owner i owner s ≡ some c)
      ↔ ((get i s ≡ some c) × (to_lower c.sub_solver ≡ to_lower owner))
unfolding get_for_owner
get_for_owner_iff i owner s c = owned_by_iff owner (find candidate_id i s) c
