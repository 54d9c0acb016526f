-- ===== src/Store/Reads.antt =====
-- The reads of apps/byos/src/infra/storage.ts on the proposal tables. An id is a number that the
-- column can hold; every row parses.
use byos_service_ts.Prelude.{
  ℕ, ◌-◌, Bool, true, false, ◌&&◌, Option, none, some, List, [], ◌∷◌, Text, text_eq, to_lower, map,
  filter, any, ltb, ◌==◌, if◌then◌else◌,
}
use byos_service_ts.Domain.Status.{Status, status_code}
use byos_service_ts.Domain.Proposal.{Proposal}
use byos_service_ts.Domain.Collateral.{native_sell_value}
use byos_service_ts.Store.Table.{order_by}
use byos_service_ts.Store.Rows.{ProposalRow, row_id, Tables, find_row, has_status}
use byos_service_ts.Buffer.{Entries, outstanding_buffer_balance, add_once}
use byos_service_ts.Validation.{Sibling, InflightData}

abbrev pub proposal_of : Option ProposalRow → Option Proposal
proposal_of none = none
proposal_of (some r) = some r.proposal

abbrev pub or_row : Option ProposalRow → Option ProposalRow → Option ProposalRow
or_row (some r) other = some r
or_row none other = other

abbrev pub is_owned : Text → ProposalRow → Bool
is_owned owner r = text_eq r.sub_solver (to_lower owner)

unfoldable pub get_live : ℕ → Tables → Option Proposal
get_live i db = proposal_of (find_row i db.proposals)

-- `WHERE id = i AND sub_solver = owner`
abbrev pub find_owned : ℕ → Text → List ProposalRow → Option ProposalRow
find_owned i owner t = find_row i (filter (is_owned owner) t)

-- The live row, or the log's.
unfoldable pub get_row_for_owner : ℕ → Text → Tables → Option Proposal
get_row_for_owner i owner db =
    proposal_of (or_row (find_owned i owner db.proposals) (find_owned i owner db.proposals_log))

unfoldable pub get_including_log : ℕ → Tables → Option Proposal
get_including_log i db =
    proposal_of (or_row (find_row i db.proposals) (find_row i db.proposals_log))

abbrev pub reverse_onto {ℓ} : {A : Type ℓ} → List A → List A → List A
reverse_onto [] done = done
reverse_onto (x ∷ xs) done = reverse_onto xs (x ∷ done)

-- `ORDER BY id`, and the same descending.
abbrev pub by_id : List ProposalRow → List Proposal
by_id t = map (λ r. r.proposal) (order_by row_id t)

abbrev pub by_id_descending : List ProposalRow → List Proposal
by_id_descending t = map (λ r. r.proposal) (reverse_onto (order_by row_id t) [])

unfoldable pub list_by_sub_solver : Text → (include_archived : Bool) → Tables → List Proposal
list_by_sub_solver owner true db = by_id_descending (filter (is_owned owner) db.proposals_log)
list_by_sub_solver owner false db =
    by_id (filter (λ r. is_owned owner r && has_status Status.submitted r) db.proposals)

abbrev pub of_order_uid : Text → ProposalRow → Bool
of_order_uid uid r = text_eq r.order_uid (to_lower uid)

unfoldable pub list_by_order_uid_for_owner :
    Text → Text → (include_archived : Bool) → Tables → List Proposal
list_by_order_uid_for_owner uid owner true db =
    by_id_descending (filter (λ r. of_order_uid uid r && is_owned owner r) db.proposals_log)
list_by_order_uid_for_owner uid owner false db = by_id (
    filter (λ r. of_order_uid uid r && (is_owned owner r && has_status Status.submitted r))
      db.proposals)

-- A price that is missing or 0 gives no value.
abbrev pub sell_value_of : ℕ → Option ℕ → Option ℕ
sell_value_of amount none = none
sell_value_of amount (some price) =
    if price == 0 then none else some (native_sell_value amount price)

abbrev pub sibling_of : ProposalRow → Sibling
sibling_of r = record {
  gas_used = r.gas_used;
  sell_amount_native = sell_value_of r.sell_amount r.validation_sell_token_ref_price;
}

unfoldable pub fetch_inflight_data_by_sub_solver : Text → Tables → Entries → InflightData
fetch_inflight_data_by_sub_solver owner db entries = record {
  proposals =
      map sibling_of (filter (λ r. is_owned owner r && has_status Status.submitted r) db.proposals);
  buffer_balance = outstanding_buffer_balance owner entries;
}

abbrev pub is_among : List Status → Status → Bool
is_among statuses s = any (λ t. status_code s == status_code t) statuses

unfoldable pub snapshot_by_statuses : List Status → Tables → List Proposal
snapshot_by_statuses statuses db = by_id (filter (λ r. is_among statuses r.status) db.proposals)

abbrev pub is_stale : (window_ms now : ℕ) → ProposalRow → Bool
is_stale window_ms now r =
    has_status Status.submitted r && ltb r.status_changed_at (now - window_ms)

unfoldable pub fetch_stale_submitted : (window_ms now : ℕ) → Tables → List Proposal
fetch_stale_submitted window_ms now db = by_id (filter (is_stale window_ms now) db.proposals)

unfoldable pub all_sub_solvers : List ProposalRow → List Text
all_sub_solvers [] = []
all_sub_solvers (r ∷ t) = add_once r.sub_solver (all_sub_solvers t)
