-- ===== src/Debit/Payload.antt =====
-- The bytes of a debit operation under the statements on the table (apps/byos/src/infra/storage.ts
-- and settlement-attempts.ts).
use byos_service_ts.Prelude.{
  ℕ, ◌≡◌, refl, subst, ◌∙◌, Bool, true, false, not, ◌&&◌, Option, none, some, ◌∷◌, Text, to_lower,
  is_some, arith, ◌==◌, if◌then◌else◌, Bool-cases, ==_iff, inl, inr,
}
use byos_service_ts.Store.Table.{on_row, KeepsKey, find-update_where, update_where}
use byos_service_ts.Debit.{
  DebitOperation, DebitOperationInput, Operations, op_id, find_op, held_by, may_sign, sign_op,
  complete_op, may_claim, claim_op, fail_op, new_op, find_source, persist_signed_debit,
  complete_debit_operation, create_debit_operation, claim_debit_operation, record_debit_failure,
  finish_op, finish_debit_operation, awaits_review, resume_op, resume_operation,
}
use byos_service_ts.Attempts.{Outcome, is_completed, supersede_operation}

-- One statement on the table: the workers', the resumption of an operation, and what a settlement's
-- outcome does to the debit of its abandonment. A new id is the sequence's, so no operation has it.
pub data Step : Operations → Operations → Type 0 where
  persist :
      (i : ℕ) (w raw hash : Text) (now : ℕ) (t : Operations)
      → Step t (persist_signed_debit i w raw hash now t).1
  complete :
      (i : ℕ) (w : Text) (now : ℕ) (t : Operations) → Step t (complete_debit_operation i w now t).1
  create :
      (next_id : ℕ) (input : DebitOperationInput) (now : ℕ) (t : Operations)
      → find_op next_id t ≡ none
      → Step t (create_debit_operation next_id input now t).1
  claim :
      (i : ℕ) (w : Text) (lease_secs now : ℕ) (t : Operations)
      → Step t (claim_debit_operation i w lease_secs now t).1
  fail :
      (i : ℕ) (w error : Text) (now : ℕ) (t : Operations)
      → Step t (record_debit_failure i w error now t)
  finish : (i : ℕ) (w : Text) (t : Operations) → Step t (finish_debit_operation i w t)
  resume : (i now : ℕ) (t : Operations) → Step t (resume_operation i now t)
  supersede :
      (i : ℕ) (outcome : Option Outcome) (t : Operations)
      → Step t (update_where (λ o. o.id == i) (supersede_operation outcome) t)

pub data Reach (start : Operations) : Operations → Type 0 where
  here : Reach start start
  next : {s t : Operations} → Reach start s → Step s t → Reach start t

pub Reach-trans : {s t u : Operations} → Reach s t → Reach t u → Reach s u
Reach-trans r here = r
Reach-trans r (next r' st) = next (Reach-trans r r') st

-- What an operation charges: whom, how much, for what event.
pub record Charge : Type 0 where
  pub source_kind : Text
  pub source_id : Text
  pub sub_solver : Text
  pub amount : ℕ
  pub reason : Text

abbrev pub charge_of : DebitOperation → Charge
charge_of o = record {
  source_kind = o.source_kind;
  source_id = o.source_id;
  sub_solver = o.sub_solver;
  amount = o.amount;
  reason = o.reason;
}

-- Bytes and hash, once the bytes are there.
abbrev pub BytesKept : Option Text → Option Text → Option Text → Option Text → Type 0
BytesKept none hash raw' hash' = Unit {0}
BytesKept (some b) hash raw' hash' = (raw' ≡ some b) × (hash' ≡ hash)

abbrev pub OpKept : DebitOperation → DebitOperation → Type 0
OpKept o o' =
    (charge_of o' ≡ charge_of o)
    × BytesKept o.raw_transaction o.transaction_hash o'.raw_transaction o'.transaction_hash

abbrev pub RowKept : Option DebitOperation → Option DebitOperation → Type 0
RowKept none after = Unit {0}
RowKept (some o) none = ⊥
RowKept (some o) (some o') = OpKept o o'

BytesKept-refl : (raw hash : Option Text) → BytesKept raw hash raw hash
BytesKept-refl none hash = tt
BytesKept-refl (some b) hash = (refl, refl)

OpKept-refl : (o : DebitOperation) → OpKept o o
OpKept-refl o = (refl, BytesKept-refl o.raw_transaction o.transaction_hash)

BytesKept-trans :
    (r h r' h' r'' h'' : Option Text)
    → BytesKept r h r' h'
    → BytesKept r' h' r'' h''
    → BytesKept r h r'' h''
BytesKept-trans none h r' h' r'' h'' k l = tt
BytesKept-trans (some b) h r' h' r'' h'' k l =
    let l' : BytesKept (some b) h' r'' h'' = subst (λ r. BytesKept r h' r'' h'') k.0 l in
    (l'.0, l'.1 ∙ k.1)

RowKept-refl : (o : Option DebitOperation) → RowKept o o
RowKept-refl none = tt
RowKept-refl (some o) = OpKept-refl o

RowKept-trans : (a b c : Option DebitOperation) → RowKept a b → RowKept b c → RowKept a c
RowKept-trans none b c k l = tt
RowKept-trans (some a) none c k l = elim k [ ]
RowKept-trans (some a) (some b) none k l = l
RowKept-trans (some a) (some b) (some c) k l = (
  l.0 ∙ k.0,
  BytesKept-trans a.raw_transaction a.transaction_hash b.raw_transaction b.transaction_hash
      c.raw_transaction c.transaction_hash k.1 l.1,
)

row_kept :
    (p : DebitOperation → Bool) (f : DebitOperation → DebitOperation)
    → ((o : DebitOperation) → p o ≡ true → OpKept o (f o))
    → (o : Option DebitOperation) → RowKept o (on_row op_id (λ r. if p r then f r else r) o)
row_kept p f k none = tt
row_kept p f k (some o) = elim (Bool-cases (p o)) [
  | inl hit ↦ rw hit (k o hit)
  | inr miss ↦ rw miss (OpKept-refl o)
]

update-Kept :
    (p : DebitOperation → Bool) (f : DebitOperation → DebitOperation)
    → KeepsKey op_id f
    → ((o : DebitOperation) → p o ≡ true → OpKept o (f o))
    → (i : ℕ) (t : Operations) → RowKept (find_op i t) (find_op i (update_where p f t))
update-Kept p f key k i t = rw (find-update_where op_id p f key i t) (row_kept p f k (find_op i t))

unsigned :
    (raw hash raw' hash' : Option Text) → not (is_some raw) ≡ true → BytesKept raw hash raw' hash'
unsigned none hash raw' hash' h = tt
unsigned (some b) hash raw' hash' h = cc

and_right : (a b : Bool) → (a && b) ≡ true → b ≡ true
and_right true b h = h
and_right false b h = cc

sign_kept :
    (i : ℕ) (w raw hash : Text) (now : ℕ) (o : DebitOperation)
    → may_sign i w o ≡ true
    → OpKept o (sign_op raw hash now o)
sign_kept i w raw hash now o h = (
  refl,
  unsigned o.raw_transaction o.transaction_hash (some (to_lower raw)) (some (to_lower hash))
      (and_right (held_by i w o) (not (is_some o.raw_transaction)) h),
)

insert_kept :
    (i n : ℕ) (input : DebitOperationInput) (now : ℕ) (t : Operations)
    → find_op n t ≡ none
    → RowKept (find_op i t) (find_op i (new_op n input now ∷ t))
insert_kept i n input now t fresh = elim (Bool-cases (i == n)) [
  | inl same ↦ rw (((==_iff i n).0 same), fresh) tt
  | inr other ↦ rw other (RowKept-refl (find_op i t))
]

superseded_id :
    (outcome : Option Outcome) (o : DebitOperation) → (supersede_operation outcome o).id ≡ o.id
unfolding supersede_operation
superseded_id none o = refl
superseded_id (some outcome) o = ground arith

superseded-OpKept :
    (outcome : Option Outcome) (o : DebitOperation) → OpKept o (supersede_operation outcome o)
unfolding supersede_operation
superseded-OpKept none o = OpKept-refl o
superseded-OpKept (some outcome) o = elim (Bool-cases (is_completed o.status)) [
  | inl done ↦ rw done (OpKept-refl o)
  | inr open_ ↦ rw open_ (OpKept-refl o)
]

-- A statement keeps, for each operation, its charge; and its raw transaction and
-- hash once it has them.
Step-RowKept : {s t : Operations} (i : ℕ) → Step s t → RowKept (find_op i s) (find_op i t)
unfolding persist_signed_debit complete_debit_operation create_debit_operation claim_debit_operation
    record_debit_failure finish_debit_operation resume_operation
Step-RowKept i (Step.persist k w raw hash now t) =
    update-Kept (may_sign k w) (sign_op raw hash now) (λ r. refl) (sign_kept k w raw hash now) i t
Step-RowKept i (Step.complete k w now t) =
    update-Kept (held_by k w) (complete_op now) (λ r. refl) (λ o h. OpKept-refl o) i t
Step-RowKept i (Step.create n input now t fresh) =
    elim (Bool-cases (is_some (find_source input.source_kind input.source_id t))) [
      | inl present ↦ rw present (RowKept-refl (find_op i t))
      | inr absent ↦ rw absent (insert_kept i n input now t fresh)
    ]
Step-RowKept i (Step.claim k w l now t) =
    update-Kept (may_claim k now) (claim_op w l now) (λ r. refl) (λ o h. OpKept-refl o) i t
Step-RowKept i (Step.fail k w e now t) =
    update-Kept (held_by k w) (fail_op e now) (λ r. refl) (λ o h. OpKept-refl o) i t
Step-RowKept i (Step.finish k w t) =
    update-Kept (held_by k w) finish_op (λ r. refl) (λ o h. OpKept-refl o) i t
Step-RowKept i (Step.resume k now t) =
    update-Kept (λ o. o.id == k && awaits_review o.status) (resume_op now) (λ r. refl)
      (λ o h. OpKept-refl o) i t
Step-RowKept i (Step.supersede k outcome t) =
    update-Kept (λ o. o.id == k) (supersede_operation outcome) (superseded_id outcome)
      (λ o h. superseded-OpKept outcome o) i t

-- Over the statements of Step (the workers', a resumption, and those of a settlement's outcome and of
-- an abandonment's charge), in whatever order: an operation never disappears, its source,
-- sub-solver, amount and reason never change, and once it has a raw transaction, that and the
-- transaction hash never change.
pub Reach-RowKept : (s t : Operations) (i : ℕ) → Reach s t → RowKept (find_op i s) (find_op i t)
Reach-RowKept s t i Reach.here = RowKept-refl (find_op i s)
Reach-RowKept s t i (Reach.next {s = m} r st) =
    RowKept-trans (find_op i s) (find_op i m) (find_op i t) (Reach-RowKept s m i r)
      (Step-RowKept i st)
