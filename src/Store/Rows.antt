-- ===== src/Store/Rows.antt =====
-- The rows of proposals and proposals_log (apps/byos/src/db/schema.ts), and the trigger of
-- apps/byos/drizzle that mirrors every insert and update of proposals into proposals_log.
pub mod Trigger
use byos_service_ts.Prelude.{
  ℕ, Bool, Option, none, some, List, [], ◌∷◌, Text, map, filter, ◌==◌, if◌then◌else◌,
}
use byos_service_ts.Domain.Status.{Status, RejectionReason, status_code}
use byos_service_ts.Domain.Proposal.{Proposal}
use byos_service_ts.Store.Table.{update_where, delete_where, find}

-- A row is a proposal with one more column. The codec of the source, `rowToProposal`, parses
-- decimal columns, which are numbers here, so it is the field `proposal`.
pub record ProposalRow : Type 0 where
  pub proposal : Proposal
  pub open proposal use *
  pub validation_sell_token_ref_price : Option ℕ

abbrev pub row_id : ProposalRow → ℕ
row_id r = r.id

pub record Tables : Type 0 where
  pub proposals : List ProposalRow
  pub proposals_log : List ProposalRow

abbrev pub find_row : ℕ → List ProposalRow → Option ProposalRow
find_row = find row_id

abbrev pub has_status : Status → ProposalRow → Bool
has_status s r = status_code r.status == status_code s

-- The columns that an update of a live row carries over to its log row.
abbrev pub mirror : ProposalRow → ProposalRow → ProposalRow
mirror new old = record {
  proposal = record (old.proposal) {
    status = new.status;
    rejection_reason = new.rejection_reason;
    gas_used = new.gas_used;
    trampoline = new.trampoline;
    sell_token = new.sell_token;
    buy_token = new.buy_token;
    settlement_tx_hash = new.settlement_tx_hash;
    penalty_tx_hash = new.penalty_tx_hash;
    simulation_failure_params = new.simulation_failure_params;
    sell_token_ref_price = new.sell_token_ref_price;
    buy_token_ref_price = new.buy_token_ref_price;
    settlement_penalty_cap = new.settlement_penalty_cap;
    surplus_token_ref_price = new.surplus_token_ref_price;
    auction_gas_price = new.auction_gas_price;
    clearing_prices = new.clearing_prices;
    simulation_buy_amount = new.simulation_buy_amount;
    status_changed_at = new.status_changed_at;
  };
  validation_sell_token_ref_price = new.validation_sell_token_ref_price;
}

-- The trigger on UPDATE, for one row.
abbrev pub sync_update : ProposalRow → List ProposalRow → List ProposalRow
sync_update new log = update_where (λ l. new.id == l.id) (mirror new) log

-- The trigger on UPDATE, for each row that a statement has updated.
unfoldable pub sync_updates : List ProposalRow → List ProposalRow → List ProposalRow
sync_updates [] log = log
sync_updates (new ∷ rest) log = sync_updates rest (sync_update new log)

-- The trigger on INSERT: `ON CONFLICT (id) DO UPDATE`.
unfoldable pub sync_insert : ProposalRow → List ProposalRow → List ProposalRow
sync_insert new [] = new ∷ []
sync_insert new (l ∷ log) = if new.id == l.id then mirror new l ∷ log else l ∷ sync_insert new log

-- `UPDATE proposals SET f WHERE p`, with the trigger.
unfoldable pub update_proposals :
    (ProposalRow → Bool) → (ProposalRow → ProposalRow) → Tables → Tables
unfolding sync_updates
update_proposals p f db = record {
  proposals = update_where p f db.proposals;
  proposals_log = sync_updates (map f (filter p db.proposals)) db.proposals_log;
}

-- `UPDATE proposals_log SET f WHERE p`; no trigger fires.
unfoldable pub update_log : (ProposalRow → Bool) → (ProposalRow → ProposalRow) → Tables → Tables
update_log p f db = record db { proposals_log = update_where p f db.proposals_log }

-- `DELETE FROM proposals WHERE id = i`; the trigger ignores deletes.
unfoldable pub delete_proposal : ℕ → Tables → Tables
delete_proposal i db = record db { proposals = delete_where (λ r. i == r.id) db.proposals }
