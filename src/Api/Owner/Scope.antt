-- ===== src/Api/Owner/Scope.antt =====
-- What the owner-scoped routes of apps/byos/src/infra/api/routes.ts tell whom.
use byos_service_ts.Prelude.{
  ℕ, ◌≡◌, inl, inr, refl, ap, ◌∙◌, Bool, true, false, Option, none, some, List, [], ◌∷◌, ◌++◌, Text,
  to_lower, to_lower_idem, text_eq_refl, text_eq→eq, All, map, filter, leb, arith, ◌==◌, Bool-cases,
}
use byos_service_ts.Domain.Proposal.{Proposal}
use byos_service_ts.Domain.Order.{token_eq}
use byos_service_ts.Store.Table.{order_by, insert_by}
use byos_service_ts.Store.Rows.{ProposalRow, row_id}
use byos_service_ts.Store.Reads.{is_owned, by_id, by_id_descending, reverse_onto}
use byos_service_ts.Candidates.{Candidate, get, owned_by, get_for_owner, get_all}
use byos_service_ts.Store.Reads.{
  list_by_sub_solver, list_by_order_uid_for_owner, get_row_for_owner, find_owned, or_row,
  proposal_of,
}
use byos_service_ts.Api.{Answer, Kind, app_error}
use byos_service_ts.Api.Ingestion.{Service}
use byos_service_ts.Api.Owner.{
  own_candidates, shown_candidate, shown, get_proposal, list_own, list_own_of_order,
}

abbrev pub IsOwn : Text → Proposal → Type 0
IsOwn reader p = token_eq p.sub_solver reader ≡ true

owned_row : (reader : Text) (r : ProposalRow) → is_owned reader r ≡ true → IsOwn reader r.proposal
unfolding token_eq
owned_row reader r h =
    let same : to_lower r.sub_solver ≡ to_lower reader =
      ap to_lower (text_eq→eq r.sub_solver (to_lower reader) h) ∙ to_lower_idem reader in
    rw same (text_eq_refl (to_lower reader))

abbrev Rows : (Proposal → Type 0) → List ProposalRow → Type 0
Rows P t = All (λ (r : ProposalRow). P r.proposal) t

module _ (P : Proposal → Type 0) where
  filter-Rows :
      (p : ProposalRow → Bool)
      → ((r : ProposalRow) → p r ≡ true → P r.proposal)
      → (t : List ProposalRow) → Rows P (filter p t)
  filter-Rows p h [] = tt
  filter-Rows p h (r ∷ t) = elim (Bool-cases (p r)) [
    | inl e ↦ rw e (h r e, filter-Rows p h t)
    | inr e ↦ rw e (filter-Rows p h t)
  ]

  insert-Rows :
      (r : ProposalRow) (t : List ProposalRow)
      → P r.proposal
      → Rows P t
      → Rows P (insert_by row_id r t)
  unfolding insert_by
  insert-Rows r [] h hs = (h, tt)
  insert-Rows r (x ∷ t) h (hx, hs) = elim (Bool-cases (leb r.id x.id)) [
    | inl e ↦ rw e (h, (hx, hs))
    | inr e ↦ rw e (hx, insert-Rows r t h hs)
  ]

  order-Rows : (t : List ProposalRow) → Rows P t → Rows P (order_by row_id t)
  unfolding order_by
  order-Rows [] h = tt
  order-Rows (r ∷ t) (h, hs) = insert-Rows r (order_by row_id t) h (order-Rows t hs)

  reverse-Rows : (t done : List ProposalRow) → Rows P t → Rows P done → Rows P (reverse_onto t done)
  reverse-Rows [] done h hs = hs
  reverse-Rows (r ∷ t) done (h, rest) hs = reverse-Rows t (r ∷ done) rest (h, hs)

  map-Rows : (t : List ProposalRow) → Rows P t → All P (map (λ r. r.proposal) t)
  map-Rows [] h = tt
  map-Rows (r ∷ t) (h, hs) = (h, map-Rows t hs)

  append-All : (xs ys : List Proposal) → All P xs → All P ys → All P (xs ++ ys)
  append-All [] ys h hs = hs
  append-All (x ∷ xs) ys (h, h') hs = (h, append-All xs ys h' hs)

  -- What a query reads of the rows that its condition admits.
  by_id-All : (t : List ProposalRow) → Rows P t → All P (by_id t)
  by_id-All t h = map-Rows (order_by row_id t) (order-Rows t h)

  by_id_descending-All : (t : List ProposalRow) → Rows P t → All P (by_id_descending t)
  by_id_descending-All t h =
      map-Rows (reverse_onto (order_by row_id t) [])
        (reverse-Rows (order_by row_id t) [] (order-Rows t h) tt)

owned_candidates :
    (reader : Text) (cs : List Candidate)
    → All (IsOwn reader) (map shown_candidate (filter (λ c. token_eq c.sub_solver reader) cs))
owned_candidates reader [] = tt
owned_candidates reader (c ∷ cs) = elim (Bool-cases (token_eq c.sub_solver reader)) [
  | inl e ↦ rw e (e, owned_candidates reader cs)
  | inr e ↦ rw e (owned_candidates reader cs)
]

abbrev FoundOwn : Text → Option ProposalRow → Type 0
FoundOwn reader none = Unit {0}
FoundOwn reader (some r) = IsOwn reader r.proposal

find-FoundOwn :
    (i : ℕ) (reader : Text) (t : List ProposalRow) → FoundOwn reader (find_owned i reader t)
find-FoundOwn i reader [] = tt
find-FoundOwn i reader (r ∷ t) = elim (Bool-cases (is_owned reader r)) [
  | inl e ↦ rw e (elim (Bool-cases (i == r.id)) [
    | inl same ↦ rw same (owned_row reader r e)
    | inr other ↦ rw other (find-FoundOwn i reader t)
  ])
  | inr e ↦ rw e (find-FoundOwn i reader t)
]

-- The answer of one read: an own proposal, or the answer for an id that does not exist.
abbrev pub OwnOrMissing : Text → Answer Proposal → Type 0
OwnOrMissing reader (Answer.ok p) = IsOwn reader p
OwnOrMissing reader (Answer.throw e) = e ≡ app_error Kind.proposal_not_found none none

rows_lem :
    (reader : Text) (live logged : Option ProposalRow)
    → FoundOwn reader live
    → FoundOwn reader logged
    → OwnOrMissing reader (shown none (proposal_of (or_row live logged)))
rows_lem reader (some r) logged h hs = h
rows_lem reader none (some r) h hs = hs
rows_lem reader none none h hs = refl

shown_lem :
    (reader : Text) (o : Option Candidate) (live logged : Option ProposalRow)
    → FoundOwn reader live
    → FoundOwn reader logged
    → OwnOrMissing reader (shown (owned_by reader o) (proposal_of (or_row live logged)))
shown_lem reader none live logged h hs = rows_lem reader live logged h hs
shown_lem reader (some c) live logged h hs = elim (Bool-cases (token_eq c.sub_solver reader)) [
  | inl e ↦ rw e e
  | inr e ↦ rw e (rows_lem reader live logged h hs)
]

get-OwnOrMissing :
    (i : ℕ) (reader : Text) (s : Service) → OwnOrMissing reader (get_proposal i reader s)
unfolding get_proposal get_row_for_owner get_for_owner
get-OwnOrMissing i reader s =
    shown_lem reader (get i s.store) (find_owned i reader s.tables.proposals)
      (find_owned i reader s.tables.proposals_log) (find-FoundOwn i reader s.tables.proposals)
      (find-FoundOwn i reader s.tables.proposals_log)

list-IsOwn :
    (reader : Text) (include_archived : Bool) (s : Service)
    → All (IsOwn reader) (list_own reader include_archived s)
unfolding list_own list_by_sub_solver get_all
list-IsOwn reader true s =
    by_id_descending-All (IsOwn reader) _
      (filter-Rows (IsOwn reader) _ (owned_row reader) s.tables.proposals_log)
list-IsOwn reader false s =
    append-All (IsOwn reader) (own_candidates reader s.store) _ (owned_candidates reader s.store) (
      by_id-All (IsOwn reader) _ (
        filter-Rows (IsOwn reader) _ (λ r h. owned_row reader r (ground arith)) s.tables.proposals))

list_of_order-IsOwn :
    (uid reader : Text) (include_archived : Bool) (s : Service)
    → All (IsOwn reader) (list_own_of_order uid reader include_archived s)
unfolding list_own_of_order list_by_order_uid_for_owner
list_of_order-IsOwn uid reader true s =
    by_id_descending-All (IsOwn reader) _ (
      filter-Rows (IsOwn reader) _ (λ r h. owned_row reader r (ground arith))
        s.tables.proposals_log)
list_of_order-IsOwn uid reader false s =
    by_id-All (IsOwn reader) _
      (filter-Rows (IsOwn reader) _ (λ r h. owned_row reader r (ground arith)) s.tables.proposals)

-- The routes that read proposals show a reader only proposals of the reader's own address,
-- whatever its letters' case, live or archived; and for the id of another's proposal the answer is
-- the one for an id that does not exist.
pub reads-IsOwn :
    (i : ℕ) (uid reader : Text) (include_archived : Bool) (s : Service)
    → OwnOrMissing reader (get_proposal i reader s)
      × All (IsOwn reader) (list_own reader include_archived s)
      × All (IsOwn reader) (list_own_of_order uid reader include_archived s)
reads-IsOwn i uid reader include_archived s = (
  get-OwnOrMissing i reader s,
  list-IsOwn reader include_archived s,
  list_of_order-IsOwn uid reader include_archived s,
)
