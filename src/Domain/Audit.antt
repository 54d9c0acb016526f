-- ===== src/Domain/Audit.antt =====
-- apps/byos/src/domain/audit.ts: the audit trail's events and their stored type names.
use byos_service_ts.Prelude.{ℕ, Option, Text, codes}
use byos_service_ts.Domain.Status.{Status, RejectionReason}
use byos_service_ts.Domain.Proposal.{Proposal}

-- The proposal that most events name.
pub record Subject : Type 0 where
  pub proposal_id : ℕ
  pub sub_solver : Text
  pub order_uid : Text

pub record StatusChange : Type 0 where
  pub from : Status
  pub to : Status
  pub rejection_reason : Option RejectionReason
  pub settlement_tx_hash : Option Text

pub data AuditKind : Type 0 where
  received : Proposal → AuditKind
  nonce_conflict : Subject → (incoming_fingerprint : Text) → AuditKind
  cancelled : Subject → AuditKind
  status_changed : Subject → StatusChange → AuditKind
  penalized :
      Subject → (amount : ℕ) (settlement_tx_hash : Option Text) (penalty_tx_hash : Text) → AuditKind
  non_settlement_debited : Subject → (amount : ℕ) (penalty_tx_hash : Text) → AuditKind
  buffer_debited :
      (sub_solver : Text) (amount : ℕ) (clear_tx_hash : Text) (entry_count : ℕ) → AuditKind
  driver_notified : Subject → (notification_kind : Text) → AuditKind

pub record AuditEvent : Type 0 where
  pub occurred_at : ℕ
  pub kind : AuditKind

-- The name of a status change, by the status that was reached.
change_type : Status → Text
change_type Status.rejected = codes "rejected"
change_type Status.sim_failed = codes "sim_failed"
change_type Status.settled = codes "settled"
change_type Status.settle_failed = codes "settle_failed"
change_type Status.cancelled = codes "cancelled"
change_type Status.submitted = codes "resubmitted"
change_type Status.lost = codes "lost"
change_type Status.candidate = codes "status_changed"

pub event_type : AuditKind → Text
unfolding change_type
event_type (AuditKind.received p) = codes "received"
event_type (AuditKind.nonce_conflict s f) = codes "nonce_conflict"
event_type (AuditKind.cancelled s) = codes "cancelled"
event_type (AuditKind.penalized s a t h) = codes "penalized"
event_type (AuditKind.non_settlement_debited s a h) = codes "non_settlement_debited"
event_type (AuditKind.buffer_debited s a h n) = codes "buffer_debited"
event_type (AuditKind.driver_notified s k) = codes "driver_notified"
event_type (AuditKind.status_changed s c) = change_type c.to
