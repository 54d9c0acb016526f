-- ===== src/Store/Creation.antt =====
-- apps/byos/src/infra/storage.ts, the writes that create rows (`writeToLog`, `insertAsSubmitted`)
-- and the one that redacts old log rows.
pub mod Valid
use byos_service_ts.Prelude.{
  ℕ, ◌-◌, Bool, true, false, not, ◌&&◌, ◌||◌, Option, none, some, List, [], ◌∷◌, ◌++◌, Text,
  to_lower, map, filter, length, is_some, ltb, ◌==◌, if◌then◌else◌,
}
use byos_service_ts.Domain.Status.{Status, RejectionReason}
use byos_service_ts.Domain.Proposal.{Interaction, Proposal}
use byos_service_ts.Candidates.{Candidate}
use byos_service_ts.Store.Rows.{ProposalRow, row_id, Tables, find_row, sync_insert, update_log}

abbrev pub lower_interaction : Interaction → Interaction
lower_interaction i = record i { target = to_lower i.target; call_data = to_lower i.call_data }

abbrev pub lower_option : Option Text → Option Text
lower_option none = none
lower_option (some t) = some (to_lower t)

-- `INSERT ... ON CONFLICT DO NOTHING` into the log.
abbrev pub insert_or_keep : ProposalRow → List ProposalRow → List ProposalRow
insert_or_keep r [] = r ∷ []
insert_or_keep r (l ∷ log) = if r.id == l.id then l ∷ log else l ∷ insert_or_keep r log

-- The row that `writeToLog` stores; of the input it drops the columns that settlement fills.
abbrev pub log_row : ℕ → Proposal → Status → Option RejectionReason → Option Text → ℕ → ProposalRow
log_row i p status reason params now = record {
  proposal = record {
    id = i;
    sub_solver = to_lower p.sub_solver;
    auction_id = p.auction_id;
    order_uid = to_lower p.order_uid;
    order_uid_hash = to_lower p.order_uid_hash;
    sell_amount = p.sell_amount;
    min_buy_amount = p.min_buy_amount;
    quote_buy_amount = p.quote_buy_amount;
    sell_token = to_lower p.sell_token;
    buy_token = to_lower p.buy_token;
    interactions = map lower_interaction p.interactions;
    interactions_hash = to_lower p.interactions_hash;
    valid_until = p.valid_until;
    nonce = p.nonce;
    signature = to_lower p.signature;
    status = status;
    rejection_reason = reason;
    gas_used = p.gas_used;
    trampoline = lower_option p.trampoline;
    settlement_tx_hash = none;
    penalty_tx_hash = none;
    simulation_failure_params = params;
    created_at = now;
    status_changed_at = now;
    settlement_penalty_cap = none;
    sell_token_ref_price = p.sell_token_ref_price;
    buy_token_ref_price = p.buy_token_ref_price;
    surplus_token_ref_price = none;
    auction_gas_price = none;
    clearing_prices = none;
    simulation_buy_amount = none;
  };
  validation_sell_token_ref_price = p.sell_token_ref_price;
}

unfoldable pub write_to_log :
    ℕ → Proposal → Status → Option RejectionReason → Option Text → ℕ → Tables → Tables
write_to_log i p status reason params now db = record db {
  proposals_log = insert_or_keep (log_row i p status reason params now) db.proposals_log;
}

pub record SolutionPrices : Type 0 where
  pub sell_token_ref_price : ℕ
  pub surplus_token_ref_price : ℕ
  pub auction_gas_price : ℕ
  pub clearing_prices : List (Text × ℕ)

-- The live row of a candidate that /solve has selected.
abbrev pub submitted_row : Candidate → ℕ → SolutionPrices → Option ℕ → ℕ → ProposalRow
submitted_row c buy_price prices cap now = record {
  proposal = record {
    id = c.id;
    sub_solver = to_lower c.sub_solver;
    auction_id = some c.auction_id;
    order_uid = to_lower c.order_uid;
    order_uid_hash = to_lower c.order_uid_hash;
    sell_amount = c.sell_amount;
    min_buy_amount = c.min_buy_amount;
    quote_buy_amount = c.quote_buy_amount;
    sell_token = to_lower c.sell_token;
    buy_token = to_lower c.buy_token;
    interactions = map lower_interaction c.interactions;
    interactions_hash = to_lower c.interactions_hash;
    valid_until = c.valid_until;
    nonce = c.nonce;
    signature = to_lower c.signature;
    status = Status.submitted;
    rejection_reason = none;
    gas_used = some c.gas_used;
    trampoline = some (to_lower c.trampoline);
    settlement_tx_hash = none;
    penalty_tx_hash = none;
    simulation_failure_params = none;
    created_at = c.created_at;
    status_changed_at = now;
    settlement_penalty_cap = cap;
    sell_token_ref_price = some prices.sell_token_ref_price;
    buy_token_ref_price = some buy_price;
    surplus_token_ref_price = some prices.surplus_token_ref_price;
    auction_gas_price = some prices.auction_gas_price;
    clearing_prices = some prices.clearing_prices;
    simulation_buy_amount = c.simulation_buy_amount;
  };
  validation_sell_token_ref_price = some c.sell_token_ref_price;
}

-- The insert with its trigger.
abbrev pub insert_live : ProposalRow → Tables → Tables
insert_live r db = record {
  proposals = r ∷ db.proposals;
  proposals_log = sync_insert r db.proposals_log;
}

-- `none` is the error that the database raises on a primary key that is taken.
unfoldable pub insert_as_submitted :
    Candidate → ℕ → SolutionPrices → Option ℕ → ℕ → Tables → Option Tables
insert_as_submitted c buy_price prices cap now db =
    if is_some (find_row c.id db.proposals)
    then none
    else some (insert_live (submitted_row c buy_price prices cap now) db)

abbrev pub is_empty : List Interaction → Bool
is_empty [] = true
is_empty (i ∷ is) = false

-- A row that is old enough and still has bulk data.
abbrev pub is_redactable : ℕ → ℕ → ProposalRow → Bool
is_redactable older_than_secs now l =
    ltb l.created_at (now - older_than_secs)
    && (not (is_empty l.interactions) || is_some l.simulation_failure_params)

abbrev pub redact_row : ProposalRow → ProposalRow
redact_row l = record l {
  proposal = record (l.proposal) { interactions = []; simulation_failure_params = none };
}

-- The number of rows redacted, and the tables.
unfoldable pub redact_old_log_entries : ℕ → ℕ → Tables → ℕ × Tables
redact_old_log_entries older_than_secs now db = (
  length (filter (is_redactable older_than_secs now) db.proposals_log),
  update_log (is_redactable older_than_secs now) redact_row db,
)
