-- ===== src/Api/Owner.antt =====
-- The owner-scoped routes of apps/byos/src/infra/api/routes.ts, which read and cancel a sub-solver's
-- own proposals. What is answered is the proposal that the codec of dto.ts prints.
pub mod Scope
pub mod Cancel
use byos_service_ts.Prelude.{
  ℕ, zero, suc, ◌+◌, Bool, true, false, not, ◌&&◌, ◌||◌, Option, none, some, List, [], ◌∷◌, ◌++◌,
  Text, text_eq, codes, to_lower, map, filter, length, leb, ◌==◌, if◌then◌else◌, ℤ,
}
use byos_service_ts.Domain.Status.{Status}
use byos_service_ts.Domain.Proposal.{Proposal}
use byos_service_ts.Domain.Order.{token_eq}
use byos_service_ts.Domain.Audit.{AuditKind}
use byos_service_ts.Candidates.{Candidate, CandidateStore, get_for_owner, get_all, remove}
use byos_service_ts.Store.Rows.{Tables}
use byos_service_ts.Store.Reads.{
  get_live, get_row_for_owner, list_by_sub_solver, list_by_order_uid_for_owner,
}
use byos_service_ts.Store.Creation.{write_to_log}
use byos_service_ts.Buffer.{Entries, uncleared_buffer_entries, total}
use byos_service_ts.Api.{Kind, AppError, app_error, Answer, ◌>>=◌, ◌>>◌, thrown, throw_if, or_throw}
use byos_service_ts.Api.Request.{has_prefix}
use byos_service_ts.Api.Ingestion.{Service, emit}

abbrev pub is_hex_digit : ℕ → Bool
is_hex_digit c = leb b'0' c && leb c b'9' || (leb b'a' c && leb c b'f' || leb b'A' c && leb c b'F')

-- `([0-9a-fA-F]{2})*`
abbrev pub is_hex : Text → Bool
is_hex [] = true
is_hex (a ∷ []) = false
is_hex (a ∷ b ∷ t) = is_hex_digit a && (is_hex_digit b && is_hex t)

abbrev pub bare : Text → Text
bare (a ∷ b ∷ t) = if has_prefix (a ∷ b ∷ t) then t else a ∷ b ∷ t
bare t = t

abbrev pub invalid_signature_because : Text → AppError
invalid_signature_because detail = app_error Kind.invalid_signature (some detail) none

unfoldable pub extract_signature : Option Text → Answer Text
extract_signature none =
    Answer.throw (invalid_signature_because (codes "missing X-Signature header"))
extract_signature (some []) =
    Answer.throw (invalid_signature_because (codes "missing X-Signature header"))
extract_signature (some (c ∷ t)) =
    if not (is_hex (bare (c ∷ t)))
    then Answer.throw (invalid_signature_because (codes "X-Signature is not valid hex"))
    else if not (length (bare (c ∷ t)) == 130)
    then Answer.throw (invalid_signature_because (codes "invalid signature bytes"))
    else Answer.ok (codes "0x" ++ bare (c ∷ t))

-- What the owner's request is checked with: the recovery of the signer, where `none` is a throw, and
-- the per-signer limit.
unfoldable pub known_reader :
    (recover : Text → Option Text)
    → (limit : Text → Answer (Unit {0})) → (header : Option Text) → Answer Text
known_reader recover limit header = do
  signature ← extract_signature header
  reader ← or_throw (recover signature) Kind.signature_recovery_failed
  limit reader
  Answer.ok reader

-- `none` is a path parameter that is no safe integer from 0 on.
abbrev pub id_of : Option ℕ → Answer ℕ
id_of none = Answer.throw (app_error Kind.bad_request (some (codes "Invalid proposal id")) none)
id_of (some i) = Answer.ok i

abbrev pub shown_candidate : Candidate → Proposal
shown_candidate c = record {
  id = c.id;
  sub_solver = c.sub_solver;
  auction_id = some c.auction_id;
  order_uid = c.order_uid;
  order_uid_hash = c.order_uid_hash;
  sell_amount = c.sell_amount;
  min_buy_amount = c.min_buy_amount;
  quote_buy_amount = c.quote_buy_amount;
  sell_token = c.sell_token;
  buy_token = c.buy_token;
  interactions = c.interactions;
  interactions_hash = c.interactions_hash;
  valid_until = c.valid_until;
  nonce = c.nonce;
  signature = c.signature;
  status = Status.candidate;
  rejection_reason = none;
  gas_used = some c.gas_used;
  trampoline = some c.trampoline;
  settlement_tx_hash = none;
  penalty_tx_hash = none;
  simulation_failure_params = none;
  created_at = c.created_at;
  status_changed_at = c.created_at;
  settlement_penalty_cap = none;
  sell_token_ref_price = some c.sell_token_ref_price;
  buy_token_ref_price = none;
  surplus_token_ref_price = none;
  auction_gas_price = none;
  clearing_prices = none;
  simulation_buy_amount = c.simulation_buy_amount;
}

abbrev pub shown : Option Candidate → Option Proposal → Answer Proposal
shown (some c) row = Answer.ok (shown_candidate c)
shown none row = or_throw row Kind.proposal_not_found

-- GET /proposal/:id, for a reader that is known.
unfoldable pub get_proposal : ℕ → (reader : Text) → Service → Answer Proposal
get_proposal i reader s =
    shown (get_for_owner i reader s.store) (get_row_for_owner i reader s.tables)

abbrev pub own_candidates : Text → CandidateStore → List Proposal
own_candidates reader store =
    map shown_candidate (filter (λ c. token_eq c.sub_solver reader) (get_all store))

-- GET /proposals/by-sub-solver
unfoldable pub list_own : (reader : Text) → (include_archived : Bool) → Service → List Proposal
list_own reader true s = list_by_sub_solver reader true s.tables
list_own reader false s = own_candidates reader s.store ++ list_by_sub_solver reader false s.tables

-- GET /proposals/:orderUid
unfoldable pub list_own_of_order :
    (uid reader : Text) → (include_archived : Bool) → Service → List Proposal
list_own_of_order uid reader include_archived s =
    list_by_order_uid_for_owner uid reader include_archived s.tables

-- GET /buffer-balance: the sum of the entries that are listed.
unfoldable pub buffer_balance : (reader : Text) → Entries → ℤ
buffer_balance reader entries = total (uncleared_buffer_entries reader entries)

abbrev pub cancel_candidate : ℕ → Text → ℕ → Candidate → Service → Service
cancel_candidate i canceller now c s =
    emit
      (record {
        occurred_at = now;
        kind =
            AuditKind.cancelled
              (record { proposal_id = i; sub_solver = canceller; order_uid = c.order_uid });
      })
      (record s {
        store = (remove i s.store).1;
        tables =
            write_to_log i (record (shown_candidate c) { status = Status.cancelled })
              Status.cancelled none none now s.tables;
      })

-- A submitted proposal is named as such to its owner only.
abbrev pub not_cancellable : Text → Option Proposal → Answer (Unit {0})
not_cancellable canceller none = thrown Kind.proposal_not_found
not_cancellable canceller (some p) =
    if token_eq p.sub_solver canceller
    then Answer.throw (
        app_error Kind.proposal_not_cancellable
          (some (codes "Proposal is already submitted to the driver and cannot be cancelled."))
          none)
    else thrown Kind.proposal_not_found

abbrev pub cancel_found : ℕ → Text → ℕ → Service → Option Candidate → Answer (Unit {0}) × Service
cancel_found i canceller now s (some c) = (Answer.ok tt, cancel_candidate i canceller now c s)
cancel_found i canceller now s none = (not_cancellable canceller (get_live i s.tables), s)

-- DELETE /proposal/:id, for a canceller that is known.
unfoldable pub cancel_proposal :
    ℕ → (canceller : Text) → (now : ℕ) → Service → Answer (Unit {0}) × Service
cancel_proposal i canceller now s =
    cancel_found i canceller now s (get_for_owner i canceller s.store)
