-- ===== src/Debit/Charges.antt =====
-- How much a chargeable event is debited: the operation of a source in the table of
-- apps/byos/src/infra/storage.ts keeps its amount, whatever the workers do.
use byos_service_ts.Prelude.{
  ℕ, ◌≡◌, refl, sym, ap, ◌∙◌, Bool, false, ◌&&◌, Option, none, some, [], ◌∷◌, Text, text_eq,
  text_eq_refl, text_eq→eq, some_inj, is_some, ◌==◌, if◌then◌else◌, ◌⊎◌, Bool-cases, Option-cases,
  inl, inr,
}
use byos_service_ts.Store.Table.{update_where}
use byos_service_ts.Attempts.{Outcome, is_completed, supersede_operation}
use byos_service_ts.Debit.{
  DebitOperation, DebitOperationInput, Operations, same_source, find_source, new_op, held_by,
  may_sign, sign_op, complete_op, may_claim, claim_op, fail_op, finish_op, awaits_review, resume_op,
  create_debit_operation, persist_signed_debit, complete_debit_operation, claim_debit_operation,
  record_debit_failure, finish_debit_operation, resume_operation,
}
use byos_service_ts.Debit.Payload.{Step, Reach, Reach-trans, Charge, charge_of}
use byos_service_ts.Debit.Worker.{Operator, durable_debit}
use byos_service_ts.Debit.Worker.Runs.{created-Reach}

-- The operation of a source, once it is there, charges the same.
abbrev ChargeKept : Option DebitOperation → Option DebitOperation → Type 0
ChargeKept none after = Unit {0}
ChargeKept (some o) none = ⊥
ChargeKept (some o) (some o') = charge_of o' ≡ charge_of o

ChargeKept-refl : (o : Option DebitOperation) → ChargeKept o o
ChargeKept-refl none = tt
ChargeKept-refl (some o) = refl

ChargeKept-trans :
    (a b c : Option DebitOperation) → ChargeKept a b → ChargeKept b c → ChargeKept a c
ChargeKept-trans none b c k l = tt
ChargeKept-trans (some a) none c k l = elim k [ ]
ChargeKept-trans (some a) (some b) none k l = l
ChargeKept-trans (some a) (some b) (some c) k l = l ∙ k

head-ChargeKept :
    (kind source : Text) (o o' : DebitOperation) (before after : Option DebitOperation)
    → charge_of o' ≡ charge_of o
    → ChargeKept before after
    → ChargeKept
        (if same_source kind source o then some o else before)
        (if same_source kind source o' then some o' else after)
head-ChargeKept kind source o o' before after e h =
    let same : same_source kind source o' ≡ same_source kind source o =
      ap (λ (c : Charge). text_eq c.source_kind kind && text_eq c.source_id source) e in
    elim (Bool-cases (same_source kind source o)) [
      | inl hit ↦ rw (same, hit) e
      | inr miss ↦ rw (same, miss) h
    ]

update-ChargeKept :
    (kind source : Text) (p : DebitOperation → Bool) (f : DebitOperation → DebitOperation)
    → ((o : DebitOperation) → charge_of (f o) ≡ charge_of o)
    → (t : Operations)
    → ChargeKept (find_source kind source t) (find_source kind source (update_where p f t))
update-ChargeKept kind source p f k [] = tt
update-ChargeKept kind source p f k (o ∷ t) =
    head-ChargeKept kind source o (if p o then f o else o) (find_source kind source t)
      (find_source kind source (update_where p f t))
      (elim (Bool-cases (p o)) [ inl hit ↦ rw hit (k o) | inr miss ↦ rw miss refl ])
      (update-ChargeKept kind source p f k t)

superseded_charge :
    (outcome : Option Outcome) (o : DebitOperation)
    → charge_of (supersede_operation outcome o) ≡ charge_of o
unfolding supersede_operation
superseded_charge none o = refl
superseded_charge (some outcome) o = elim (Bool-cases (is_completed o.status)) [
  | inl done ↦ rw done refl
  | inr open_ ↦ rw open_ refl
]

no_source :
    (kind source : Text) (o : DebitOperation) (before : Option DebitOperation)
    → before ≡ none ⊎ (same_source kind source o ≡ false)
    → ChargeKept before (if same_source kind source o then some o else before)
no_source kind source o before (inl gone) = rw gone tt
no_source kind source o before (inr other) = rw other (ChargeKept-refl before)

not_some : (o : Option DebitOperation) → is_some o ≡ false → o ≡ none
not_some none h = refl
not_some (some o) h = absurd cc

absent_or_other :
    (kind source : Text) (input : DebitOperationInput) (t : Operations)
    → is_some (find_source input.source_kind input.source_id t) ≡ false
    → (find_source kind source t ≡ none)
      ⊎ ((text_eq input.source_kind kind && text_eq input.source_id source) ≡ false)
absent_or_other kind source input t absent = elim (Bool-cases (text_eq input.source_kind kind)) [
  | inl k ↦ elim (Bool-cases (text_eq input.source_id source)) [
    | inl i ↦ inl (
        rw (sym (text_eq→eq input.source_kind kind k), sym (text_eq→eq input.source_id source i))
          (not_some (find_source input.source_kind input.source_id t) absent))
    | inr other ↦ inr (rw (k, other) refl)
  ]
  | inr other ↦ inr (rw other refl)
]

create-ChargeKept :
    (kind source : Text) (n : ℕ) (input : DebitOperationInput) (now : ℕ) (t : Operations)
    → is_some (find_source input.source_kind input.source_id t) ≡ false
    → ChargeKept (find_source kind source t) (find_source kind source (new_op n input now ∷ t))
create-ChargeKept kind source n input now t absent =
    no_source kind source (new_op n input now) (find_source kind source t)
      (absent_or_other kind source input t absent)

Step-ChargeKept :
    (kind source : Text) {s t : Operations}
    → Step s t
    → ChargeKept (find_source kind source s) (find_source kind source t)
unfolding persist_signed_debit complete_debit_operation create_debit_operation claim_debit_operation
    record_debit_failure finish_debit_operation resume_operation
Step-ChargeKept kind source (Step.persist k w raw hash now t) =
    update-ChargeKept kind source (may_sign k w) (sign_op raw hash now) (λ o. refl) t
Step-ChargeKept kind source (Step.complete k w now t) =
    update-ChargeKept kind source (held_by k w) (complete_op now) (λ o. refl) t
Step-ChargeKept kind source (Step.create n input now t fresh) =
    elim (Bool-cases (is_some (find_source input.source_kind input.source_id t))) [
      | inl present ↦ rw present (ChargeKept-refl (find_source kind source t))
      | inr absent ↦ rw absent (create-ChargeKept kind source n input now t absent)
    ]
Step-ChargeKept kind source (Step.claim k w l now t) =
    update-ChargeKept kind source (may_claim k now) (claim_op w l now) (λ o. refl) t
Step-ChargeKept kind source (Step.fail k w e now t) =
    update-ChargeKept kind source (held_by k w) (fail_op e now) (λ o. refl) t
Step-ChargeKept kind source (Step.finish k w t) =
    update-ChargeKept kind source (held_by k w) finish_op (λ o. refl) t
Step-ChargeKept kind source (Step.resume k now t) =
    update-ChargeKept kind source (λ o. o.id == k && awaits_review o.status) (resume_op now)
      (λ o. refl) t
Step-ChargeKept kind source (Step.supersede k outcome t) =
    update-ChargeKept kind source (λ o. o.id == k) (supersede_operation outcome)
      (superseded_charge outcome) t

pub Reach-ChargeKept :
    (kind source : Text) {s t : Operations}
    → Reach s t
    → ChargeKept (find_source kind source s) (find_source kind source t)
Reach-ChargeKept kind source {s} Reach.here = ChargeKept-refl (find_source kind source s)
Reach-ChargeKept kind source {s} {t} (Reach.next {s = m} r st) =
    ChargeKept-trans (find_source kind source s) (find_source kind source m)
      (find_source kind source t) (Reach-ChargeKept kind source r) (Step-ChargeKept kind source st)

-- The operation's amount is that of the source's operation before, or a new one's.
abbrev pub IsCharge : Option DebitOperation → ℕ → DebitOperation → Type 0
IsCharge none amount o = o.amount ≡ amount
IsCharge (some before) amount o = o.amount ≡ before.amount

-- A source's operation, and its amount by what was there before.
abbrev pub IsDebited : (before after : Option DebitOperation) → ℕ → Type 0
IsDebited before after amount = (o : DebitOperation) × (after ≡ some o) × IsCharge before amount o

created-IsDebited :
    (n : ℕ) (input : DebitOperationInput) (now : ℕ) (t : Operations)
    → IsDebited
        (find_source input.source_kind input.source_id t)
        (find_source input.source_kind input.source_id (create_debit_operation n input now t).1)
        input.amount
unfolding create_debit_operation
created-IsDebited n input now t =
    elim (Option-cases (find_source input.source_kind input.source_id t)) [
      | inl gone ↦
          rw (gone, text_eq_refl input.source_kind, text_eq_refl input.source_id)
            (new_op n input now, refl, refl)
      | inr (o, e) ↦ rw e (o, rw e refl, refl)
    ]

kept-IsDebited :
    (before after later : Option DebitOperation) (amount : ℕ)
    → IsDebited before after amount
    → ChargeKept after later
    → IsDebited before later amount
kept-IsDebited before none later amount (o, e, c) k = absurd cc
kept-IsDebited before (some a) none amount (o, e, c) k = elim k [ ]
kept-IsDebited none (some a) (some b) amount (o, e, c) k = (
  b,
  refl,
  ap (λ (x : Charge). x.amount) k ∙ (ap (λ (x : DebitOperation). x.amount) (some_inj e) ∙ c),
)
kept-IsDebited (some x) (some a) (some b) amount (o, e, c) k = (
  b,
  refl,
  ap (λ (x : Charge). x.amount) k ∙ (ap (λ (x : DebitOperation). x.amount) (some_inj e) ∙ c),
)

-- Whatever the operator answers to a run of durable_debit, and whatever statements come after it,
-- the source has an operation: for the amount given, or for that of the source's operation before.
pub durable_debit-IsDebited :
    (op : Operator) (owner : Text) (next_id : ℕ) (input : DebitOperationInput) (now : ℕ)
    (t u : Operations)
    → Reach (durable_debit op owner next_id input now t).1 u
    → IsDebited
        (find_source input.source_kind input.source_id t)
        (find_source input.source_kind input.source_id u)
        input.amount
unfolding durable_debit
durable_debit-IsDebited op owner next_id input now t u r =
    let created = create_debit_operation next_id input now t in
    kept-IsDebited (find_source input.source_kind input.source_id t)
      (find_source input.source_kind input.source_id created.1)
      (find_source input.source_kind input.source_id u) input.amount
      (created-IsDebited next_id input now t)
      (Reach-ChargeKept input.source_kind input.source_id
        (Reach-trans (created-Reach created.1 op owner input.sub_solver now created Reach.here) r))
