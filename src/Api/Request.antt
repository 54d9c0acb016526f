-- ===== src/Api/Request.antt =====
-- apps/byos/src/infra/api/dto.ts and the first half of POST /proposals in
-- apps/byos/src/infra/api/routes.ts: everything that is checked before a proposal has an id. The
-- request's decimal strings are numbers; hashing and the recovery of signers are parameters.
use byos_service_ts.Prelude.{
  ℕ, ◌+◌, ◌-◌, Bool, true, false, not, ◌&&◌, ◌||◌, Option, none, some, List, ◌∷◌, ◌++◌, Text,
  text_eq, codes, to_lower, map, any, length, leb, ltb, ◌==◌, if◌then◌else◌,
}
use byos_service_ts.Domain.Proposal.{Interaction}
use byos_service_ts.Domain.Order.{token_eq}
use byos_service_ts.Api.{Kind, Answer, ◌>>=◌, ◌>>◌, thrown, throw_if, or_throw}

pub record CreateProposalRequest : Type 0 where
  pub order_uid : Text
  pub sell_token : Text
  pub buy_token : Text
  pub sell_amount : ℕ
  pub min_buy_amount : ℕ
  pub quote_buy_amount : ℕ
  pub interactions : List Interaction
  pub valid_until : ℕ
  pub nonce : ℕ
  pub signature : Text
  pub sub_solver_address : Option Text

pub record ParsedProposal : Type 0 where
  pub order_uid : Text
  pub order_uid_hash : Text
  pub sell_token : Text
  pub buy_token : Text
  pub sell_amount : ℕ
  pub min_buy_amount : ℕ
  pub quote_buy_amount : ℕ
  pub interactions : List Interaction
  pub interactions_hash : Text
  pub valid_until : ℕ
  pub nonce : ℕ
  pub signature : Text
  pub sub_solver_address : Option Text

-- What packages/common/src/eip712.ts and the chain answer on signatures; `none` is a call that
-- throws, and a missing verifier is one that is not configured.
pub record Signatures : Type 0 where
  pub keccak256 : Text → Text
  pub interactions_hash : List Interaction → Text
  pub recover_proposer : ParsedProposal → Option Text
  pub verify_eip1271 : Option (ParsedProposal → Text → Option Bool)

abbrev pub has_prefix : Text → Bool
has_prefix (a ∷ b ∷ t) = a == b'0' && b == b'x'
has_prefix t = false

abbrev pub prefixed : Text → Text
prefixed t = if has_prefix t then t else codes "0x" ++ t

abbrev pub prefixed_call : Interaction → Interaction
prefixed_call i = record i { call_data = prefixed i.call_data }

abbrev pub lower_address : Option Text → Option Text
lower_address none = none
lower_address (some t) = some (to_lower t)

unfoldable pub parse_create_proposal_request : Signatures → CreateProposalRequest → ParsedProposal
parse_create_proposal_request sigs body =
    let uid = prefixed (to_lower body.order_uid) in
    let interactions = map prefixed_call body.interactions in
    record {
      order_uid = uid;
      order_uid_hash = sigs.keccak256 uid;
      sell_token = to_lower body.sell_token;
      buy_token = to_lower body.buy_token;
      sell_amount = body.sell_amount;
      min_buy_amount = body.min_buy_amount;
      quote_buy_amount = body.quote_buy_amount;
      interactions = interactions;
      interactions_hash = sigs.interactions_hash interactions;
      valid_until = body.valid_until;
      nonce = body.nonce;
      signature = prefixed body.signature;
      sub_solver_address = lower_address body.sub_solver_address;
    }

abbrev pub signature_digits : Text → ℕ
signature_digits s = if has_prefix s then length s - 2 else length s

-- 65 bytes for a key's signature; a contract decides on its own, within a bound.
abbrev pub signature_length_gate : Option Text → ℕ → Answer (Unit {0})
signature_length_gate none digits = throw_if (not (digits == 130)) Kind.invalid_signature
signature_length_gate (some address) digits =
    throw_if (digits == 0 || ltb 8192 digits) Kind.invalid_signature

abbrev pub is_address : Text → Option Text → Bool
is_address address none = false
is_address address (some recovered) = token_eq recovered address

abbrev pub eip1271_answer : Text → Option Bool → Answer Text
eip1271_answer address (some true) = Answer.ok address
eip1271_answer address _ = thrown Kind.signature_recovery_failed

abbrev pub ask_contract :
    Option (ParsedProposal → Text → Option Bool) → ParsedProposal → Text → Answer Text
ask_contract none parsed address = thrown Kind.eip1271_not_available
ask_contract (some verify) parsed address = eip1271_answer address (verify parsed address)

-- A declared address is tried as a key first, then as a contract.
abbrev pub signer_of : Signatures → ParsedProposal → Option Text → Answer Text
signer_of sigs parsed none = or_throw (sigs.recover_proposer parsed) Kind.signature_recovery_failed
signer_of sigs parsed (some address) =
    if is_address address (sigs.recover_proposer parsed)
    then Answer.ok address
    else ask_contract sigs.verify_eip1271 parsed address

unfoldable pub resolve_sub_solver : Signatures → ParsedProposal → Answer Text
resolve_sub_solver sigs parsed = signer_of sigs parsed parsed.sub_solver_address

abbrev pub not_allowed : Option (List Text) → Text → Bool
not_allowed none sub_solver = false
not_allowed (some whitelist) sub_solver = not (any (λ w. text_eq w (to_lower sub_solver)) whitelist)

-- The auction that is open, as far as a request reads it.
pub record OpenAuction : Type 0 where
  pub auction_id : ℕ
  pub has_order : Text → Bool

pub record IngestionConfig : Type 0 where
  pub signatures : Signatures
  pub whitelist : Option (List Text)
  pub max_proposal_lifetime_secs : ℕ

-- A request that may have an id: its fields, its signer and its auction.
pub record Admitted : Type 0 where
  pub parsed : ParsedProposal
  pub sub_solver : Text
  pub auction_id : ℕ

-- `body` is none where the schema refuses it; `limit` is the per-signer limit with the floor.
unfoldable pub admit :
    IngestionConfig
    → (limit : Text → Answer (Unit {0})) → (now : ℕ) → Option OpenAuction
    → Option CreateProposalRequest
    → Answer Admitted
admit cfg limit now auction body = do
  request ← or_throw body Kind.bad_request
  signature_length_gate request.sub_solver_address (signature_digits request.signature)
  let parsed = parse_create_proposal_request cfg.signatures request
  sub_solver ← resolve_sub_solver cfg.signatures parsed
  throw_if (not_allowed cfg.whitelist sub_solver) Kind.subsolver_not_allowed
  limit sub_solver
  throw_if (leb parsed.valid_until now) Kind.proposal_expired
  throw_if (ltb (now + cfg.max_proposal_lifetime_secs) parsed.valid_until)
      Kind.proposal_lifetime_exceeded
  open_auction ← or_throw auction Kind.no_active_auction
  throw_if (not (open_auction.has_order (to_lower parsed.order_uid))) Kind.unknown_order
  Answer.ok
      (record { parsed = parsed; sub_solver = sub_solver; auction_id = open_auction.auction_id })
