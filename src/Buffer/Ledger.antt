-- ===== src/Buffer/Ledger.antt =====
-- Whole histories of the buffer ledger (apps/byos/src/infra/storage.ts): what the penalty workers'
-- statements, in any order, leave as it is.
use byos_service_ts.Prelude.{
  ℕ, ◌≡◌, refl, subst, ◌∙◌, Bool, true, false, ◌&&◌, Option, none, some, List, [], ◌∷◌, Text, ℤ,
  is_some, arith, ◌==◌, ==_iff, if◌then◌else◌, Bool-cases, inl, inr,
}
use byos_service_ts.Store.Table.{find, on_row, KeepsKey, find-update_where, update_where}
use byos_service_ts.Buffer.{
  BufferEntry, Entries, NewEntry, entry_of, insert_buffer_entry, is_uncleared, is_in_flight,
  to_mark, mark_row, is_empty_batch, mark_buffer_entries_in_flight, to_finalize, finalize_row,
  finalize_buffer_entries, release_row, revert_in_flight_buffer_entries, clear_row,
  clear_buffer_entries,
}

abbrev pub entry_id : BufferEntry → ℕ
entry_id e = e.id

abbrev pub find_entry : ℕ → Entries → Option BufferEntry
find_entry = find entry_id

-- One statement, with any arguments. A new id is the sequence's, so no entry has it.
pub data LedgerStep : Entries → Entries → Type 0 where
  insert :
      (next_id : ℕ) (entry : NewEntry) (now : ℕ) (t : Entries)
      → find_entry next_id t ≡ none
      → LedgerStep t (insert_buffer_entry next_id entry now t).1
  mark :
      (s : Text) (ids : Option (List ℕ)) (t : Entries)
      → LedgerStep t (mark_buffer_entries_in_flight s ids t).1
  finalize :
      (s : Text) (ids : List ℕ) (tx : Text) (t : Entries)
      → LedgerStep t (finalize_buffer_entries s ids tx t).1
  revert : (s : Text) (t : Entries) → LedgerStep t (revert_in_flight_buffer_entries s t).1
  clear : (s tx : Text) (t : Entries) → LedgerStep t (clear_buffer_entries s tx t).1

pub data LedgerReach (start : Entries) : Entries → Type 0 where
  here : LedgerReach start start
  next : {s t : Entries} → LedgerReach start s → LedgerStep s t → LedgerReach start t

-- What an entry states of a settlement.
pub record Delivery : Type 0 where
  pub sub_solver : Text
  pub proposal_id : ℕ
  pub order_uid : Text
  pub buy_token : Text
  pub delta : ℤ
  pub gap : ℤ
  pub native_token_amount : ℤ

abbrev pub delivery_of : BufferEntry → Delivery
delivery_of e = record {
  sub_solver = e.sub_solver;
  proposal_id = e.proposal_id;
  order_uid = e.order_uid;
  buy_token = e.buy_token;
  delta = e.delta;
  gap = e.gap;
  native_token_amount = e.native_token_amount;
}

-- A cleared entry with a transaction stays cleared by that transaction.
abbrev pub ClearingKept : Bool → Option Text → Bool → Option Text → Type 0
ClearingKept true (some tx) cleared' tx' = (cleared' ≡ true) × (tx' ≡ some tx)
ClearingKept true none cleared' tx' = Unit {0}
ClearingKept false tx cleared' tx' = Unit {0}

abbrev pub EntryKept : BufferEntry → BufferEntry → Type 0
EntryKept e e' =
    (delivery_of e' ≡ delivery_of e)
    × ClearingKept e.cleared e.clear_tx_hash e'.cleared e'.clear_tx_hash

abbrev pub FoundKept : Option BufferEntry → Option BufferEntry → Type 0
FoundKept none after = Unit {0}
FoundKept (some e) none = ⊥
FoundKept (some e) (some e') = EntryKept e e'

ClearingKept-refl : (c : Bool) (tx : Option Text) → ClearingKept c tx c tx
ClearingKept-refl true (some tx) = (refl, refl)
ClearingKept-refl true none = tt
ClearingKept-refl false tx = tt

ClearingKept-trans :
    (a : Bool) (x : Option Text) (b : Bool) (y : Option Text) (c : Bool) (z : Option Text)
    → ClearingKept a x b y
    → ClearingKept b y c z
    → ClearingKept a x c z
ClearingKept-trans true (some tx) b y c z k l =
    let l' : ClearingKept true (some tx) c z =
      subst (λ r. ClearingKept true r c z) k.1 (subst (λ q. ClearingKept q y c z) k.0 l) in
    l'
ClearingKept-trans true none b y c z k l = tt
ClearingKept-trans false x b y c z k l = tt

-- A row that has no transaction, or is not cleared, owes nothing.
open_ClearingKept :
    (c : Bool) (tx : Option Text) (c' : Bool) (tx' : Option Text)
    → (c && is_some tx) ≡ false
    → ClearingKept c tx c' tx'
open_ClearingKept true (some tx) c' tx' h = absurd cc
open_ClearingKept true none c' tx' h = tt
open_ClearingKept false tx c' tx' h = tt

FoundKept-refl : (o : Option BufferEntry) → FoundKept o o
FoundKept-refl none = tt
FoundKept-refl (some e) = (refl, ClearingKept-refl e.cleared e.clear_tx_hash)

FoundKept-trans : (a b c : Option BufferEntry) → FoundKept a b → FoundKept b c → FoundKept a c
FoundKept-trans none b c k l = tt
FoundKept-trans (some a) none c k l = elim k [ ]
FoundKept-trans (some a) (some b) none k l = l
FoundKept-trans (some a) (some b) (some c) k l = (
  l.0 ∙ k.0,
  ClearingKept-trans a.cleared a.clear_tx_hash b.cleared b.clear_tx_hash c.cleared c.clear_tx_hash
      k.1 l.1,
)

-- A statement on open rows only that keeps ids and deliveries.
module _ (p : BufferEntry → Bool) (f : BufferEntry → BufferEntry) (key : KeepsKey entry_id f)
    (same : (e : BufferEntry) → delivery_of (f e) ≡ delivery_of e)
    (open_only : (e : BufferEntry)
      → p e ≡ true
      → (e.cleared && is_some e.clear_tx_hash) ≡ false) where
  row-FoundKept :
      (o : Option BufferEntry) → FoundKept o (on_row entry_id (λ e. if p e then f e else e) o)
  row-FoundKept none = tt
  row-FoundKept (some e) = elim (Bool-cases (p e)) [
    | inl hit ↦ rw hit (
      same e,
      open_ClearingKept e.cleared e.clear_tx_hash (f e).cleared (f e).clear_tx_hash
          (open_only e hit),
    )
    | inr miss ↦ rw miss (FoundKept-refl (some e))
  ]

  update-FoundKept :
      (i : ℕ) (t : Entries) → FoundKept (find_entry i t) (find_entry i (update_where p f t))
  update-FoundKept i t =
      rw (find-update_where entry_id p f key i t) (row-FoundKept (find_entry i t))

mark_is_open :
    (s : Text) (ids : Option (List ℕ)) (e : BufferEntry)
    → to_mark s ids e ≡ true
    → (e.cleared && is_some e.clear_tx_hash) ≡ false
mark_is_open s ids e h = ground arith

in_flight_is_open :
    (s : Text) (e : BufferEntry)
    → is_in_flight s e ≡ true
    → (e.cleared && is_some e.clear_tx_hash) ≡ false
in_flight_is_open s e h = ground arith

finalize_is_open :
    (s : Text) (ids : List ℕ) (e : BufferEntry)
    → to_finalize s ids e ≡ true
    → (e.cleared && is_some e.clear_tx_hash) ≡ false
finalize_is_open s ids e h = ground arith

uncleared_is_open :
    (s : Text) (e : BufferEntry)
    → is_uncleared s e ≡ true
    → (e.cleared && is_some e.clear_tx_hash) ≡ false
uncleared_is_open s e h = ground arith

insert-FoundKept :
    (i n : ℕ) (entry : NewEntry) (now : ℕ) (t : Entries)
    → find_entry n t ≡ none
    → FoundKept (find_entry i t) (find_entry i (entry_of n entry now ∷ t))
insert-FoundKept i n entry now t fresh = elim (Bool-cases (i == n)) [
  | inl same ↦ rw ((==_iff i n).0 same, fresh) tt
  | inr other ↦ rw other (FoundKept-refl (find_entry i t))
]

mark-FoundKept :
    (i : ℕ) (s : Text) (ids : Option (List ℕ)) (t : Entries)
    → FoundKept (find_entry i t) (find_entry i (mark_buffer_entries_in_flight s ids t).1)
unfolding mark_buffer_entries_in_flight
mark-FoundKept i s ids t = elim (Bool-cases (is_empty_batch ids)) [
  | inl empty ↦ rw empty (FoundKept-refl (find_entry i t))
  | inr full ↦
      rw full
        (update-FoundKept (to_mark s ids) mark_row (λ e. refl) (λ e. refl) (mark_is_open s ids) i t)
]

finalize-FoundKept :
    (i : ℕ) (s : Text) (ids : List ℕ) (tx : Text) (t : Entries)
    → FoundKept (find_entry i t) (find_entry i (finalize_buffer_entries s ids tx t).1)
unfolding finalize_buffer_entries
finalize-FoundKept i s [] tx t = FoundKept-refl (find_entry i t)
finalize-FoundKept i s (j ∷ ids) tx t =
    update-FoundKept (to_finalize s (j ∷ ids)) (finalize_row tx) (λ e. refl) (λ e. refl)
      (finalize_is_open s (j ∷ ids)) i t

step-FoundKept :
    {s t : Entries} (i : ℕ) → LedgerStep s t → FoundKept (find_entry i s) (find_entry i t)
unfolding insert_buffer_entry revert_in_flight_buffer_entries clear_buffer_entries
step-FoundKept i (LedgerStep.insert n entry now t fresh) = insert-FoundKept i n entry now t fresh
step-FoundKept i (LedgerStep.mark s ids t) = mark-FoundKept i s ids t
step-FoundKept i (LedgerStep.finalize s ids tx t) = finalize-FoundKept i s ids tx t
step-FoundKept i (LedgerStep.revert s t) =
    update-FoundKept (is_in_flight s) release_row (λ e. refl) (λ e. refl) (in_flight_is_open s) i t
step-FoundKept i (LedgerStep.clear s tx t) =
    update-FoundKept (is_uncleared s) (clear_row tx) (λ e. refl) (λ e. refl) (uncleared_is_open s) i
      t

-- In every order of the statements: an entry never disappears, what it states of its settlement
-- never changes, and an entry that a transaction has cleared stays cleared by that transaction,
-- so that it is never charged again.
pub LedgerReach-FoundKept :
    (s t : Entries) (i : ℕ) → LedgerReach s t → FoundKept (find_entry i s) (find_entry i t)
LedgerReach-FoundKept s t i LedgerReach.here = FoundKept-refl (find_entry i s)
LedgerReach-FoundKept s t i (LedgerReach.next {s = m} r st) =
    FoundKept-trans (find_entry i s) (find_entry i m) (find_entry i t)
      (LedgerReach-FoundKept s m i r) (step-FoundKept i st)
