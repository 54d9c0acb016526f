-- ===== src/Buffer/Laws.antt =====
-- The outstanding balance of the buffer ledger (apps/byos/src/infra/storage.ts) under its writes.
use byos_service_ts.Prelude.{
  ℕ, ◌≡◌, inl, inr, refl, ap, Bool, true, false, Option, none, some, List, [], ◌∷◌, Text, ℤ, pos,
  ◌+ℤ◌, int_laws, filter, arith, Bool-cases,
}
use byos_service_ts.Store.Table.{update_where, filter-update_where}
use byos_service_ts.Buffer.{
  BufferEntry, Entries, is_uncleared, is_in_flight, total, outstanding_buffer_balance, to_mark,
  mark_row, mark_buffer_entries_in_flight, to_finalize, finalize_row, finalize_buffer_entries,
  release_row, revert_in_flight_buffer_entries, clear_row, clear_buffer_entries,
}

step_in : (a b c d : ℤ) → b ≡ c +ℤ d → a +ℤ b ≡ c +ℤ (a +ℤ d)
step_in a b c d h = grind int_laws

step_out : (a b c d : ℤ) → b ≡ c +ℤ d → a +ℤ b ≡ (a +ℤ c) +ℤ d
step_out a b c d h = grind int_laws

zero_sum : pos 0 ≡ pos 0 +ℤ pos 0
zero_sum = grind int_laws

-- A statement that takes rows of `p` out of `q`, and leaves the other rows alone.
module _ (p q : BufferEntry → Bool) (f : BufferEntry → BufferEntry)
    (inside : (e : BufferEntry) → p e ≡ true → q e ≡ true)
    (leaves : (e : BufferEntry) → p e ≡ true → q (f e) ≡ false) where
  total-taken :
      (t : Entries)
      → total (filter q t) ≡ total (filter q (update_where p f t)) +ℤ total (filter p t)
  total-taken [] = zero_sum
  total-taken (e ∷ t) = elim (Bool-cases (p e)) [
    | inl hit ↦
        rw (hit, inside e hit, leaves e hit)
          (step_in e.native_token_amount (total (filter q t))
            (total (filter q (update_where p f t))) (total (filter p t)) (total-taken t))
    | inr miss ↦ elim (Bool-cases (q e)) [
      | inl counted ↦
          rw (miss, counted)
            (step_out e.native_token_amount (total (filter q t))
              (total (filter q (update_where p f t))) (total (filter p t)) (total-taken t))
      | inr other ↦ rw (miss, other) (total-taken t)
    ]
  ]

-- A statement that puts rows of `p` into `q`, with the same amounts.
module _ (p q : BufferEntry → Bool) (f : BufferEntry → BufferEntry)
    (outside : (e : BufferEntry) → p e ≡ true → q e ≡ false)
    (joins : (e : BufferEntry) → p e ≡ true → q (f e) ≡ true)
    (same_amount : (e : BufferEntry) → (f e).native_token_amount ≡ e.native_token_amount) where
  total-added :
      (t : Entries)
      → total (filter q (update_where p f t)) ≡ total (filter q t) +ℤ total (filter p t)
  total-added [] = zero_sum
  total-added (e ∷ t) = elim (Bool-cases (p e)) [
    | inl hit ↦
        rw (hit, outside e hit, joins e hit, same_amount e)
          (step_in e.native_token_amount (total (filter q (update_where p f t)))
            (total (filter q t)) (total (filter p t)) (total-added t))
    | inr miss ↦ elim (Bool-cases (q e)) [
      | inl counted ↦
          rw (miss, counted)
            (step_out e.native_token_amount (total (filter q (update_where p f t)))
              (total (filter q t)) (total (filter p t)) (total-added t))
      | inr other ↦ rw (miss, other) (total-added t)
    ]
  ]

-- A statement on rows that are neither before nor after it in `q`.
module _ (p q : BufferEntry → Bool) (f : BufferEntry → BufferEntry)
    (before : (e : BufferEntry) → p e ≡ true → q e ≡ false)
    (after : (e : BufferEntry) → p e ≡ true → q (f e) ≡ false) where
  total-kept : (t : Entries) → total (filter q (update_where p f t)) ≡ total (filter q t)
  total-kept [] = refl
  total-kept (e ∷ t) = elim (Bool-cases (p e)) [
    | inl hit ↦ rw (hit, before e hit, after e hit) (total-kept t)
    | inr miss ↦ elim (Bool-cases (q e)) [
      | inl counted ↦ rw (miss, counted) (ap (λ x. e.native_token_amount +ℤ x) (total-kept t))
      | inr other ↦ rw (miss, other) (total-kept t)
    ]
  ]

mark_is_uncleared :
    (s : Text) (ids : Option (List ℕ)) (e : BufferEntry)
    → to_mark s ids e ≡ true
    → is_uncleared s e ≡ true
mark_is_uncleared s ids e h = ground arith

marked_is_cleared :
    (s : Text) (ids : Option (List ℕ)) (e : BufferEntry)
    → to_mark s ids e ≡ true
    → is_uncleared s (mark_row e) ≡ false
marked_is_cleared s ids e h = ground arith

mark_is_not_in_flight :
    (s : Text) (ids : Option (List ℕ)) (e : BufferEntry)
    → to_mark s ids e ≡ true
    → is_in_flight s e ≡ false
mark_is_not_in_flight s ids e h = ground arith

marked_is_in_flight :
    (s : Text) (ids : Option (List ℕ)) (e : BufferEntry)
    → to_mark s ids e ≡ true
    → is_in_flight s (mark_row e) ≡ true
marked_is_in_flight s ids e h = ground arith

in_flight_is_cleared :
    (s : Text) (e : BufferEntry) → is_in_flight s e ≡ true → is_uncleared s e ≡ false
in_flight_is_cleared s e h = ground arith

released_is_uncleared :
    (s : Text) (e : BufferEntry) → is_in_flight s e ≡ true → is_uncleared s (release_row e) ≡ true
released_is_uncleared s e h = ground arith

finalize_is_cleared :
    (s s' : Text) (ids : List ℕ) (e : BufferEntry)
    → to_finalize s ids e ≡ true
    → is_uncleared s' e ≡ false
finalize_is_cleared s s' ids e h = ground arith

finalized_is_cleared :
    (s s' : Text) (ids : List ℕ) (tx : Text) (e : BufferEntry)
    → to_finalize s ids e ≡ true
    → is_uncleared s' (finalize_row tx e) ≡ false
finalized_is_cleared s s' ids tx e h = ground arith

cleared_is_cleared :
    (s tx : Text) (e : BufferEntry)
    → is_uncleared s e ≡ true
    → is_uncleared s (clear_row tx e) ≡ false
cleared_is_cleared s tx e h = ground arith

none_marked : (s : Text) (t : Entries) → filter (to_mark s (some [])) t ≡ []
none_marked s [] = refl
none_marked s (e ∷ t) = ground (arith, none_marked s t)

-- Marking a batch as in flight takes exactly the batch's total off the sub-solver's balance.
pub outstanding-mark :
    (s : Text) (ids : Option (List ℕ)) (t : Entries)
    → outstanding_buffer_balance s t
      ≡ outstanding_buffer_balance s (mark_buffer_entries_in_flight s ids t).1
        +ℤ total (filter (to_mark s ids) t)
unfolding outstanding_buffer_balance mark_buffer_entries_in_flight
outstanding-mark s none t =
    total-taken (to_mark s none) (is_uncleared s) mark_row (mark_is_uncleared s none)
      (marked_is_cleared s none) t
outstanding-mark s (some []) t = rw (none_marked s t) (grind int_laws)
outstanding-mark s (some (i ∷ ids)) t =
    total-taken (to_mark s (some (i ∷ ids))) (is_uncleared s) mark_row
      (mark_is_uncleared s (some (i ∷ ids))) (marked_is_cleared s (some (i ∷ ids))) t

-- Reverting puts exactly what is in flight back onto the sub-solver's balance.
pub outstanding-revert :
    (s : Text) (t : Entries)
    → outstanding_buffer_balance s (revert_in_flight_buffer_entries s t).1
      ≡ outstanding_buffer_balance s t +ℤ total (filter (is_in_flight s) t)
unfolding outstanding_buffer_balance revert_in_flight_buffer_entries
outstanding-revert s t =
    total-added (is_in_flight s) (is_uncleared s) release_row (in_flight_is_cleared s)
      (released_is_uncleared s) (λ e. refl) t

in_flight-mark :
    (s : Text) (ids : Option (List ℕ)) (t : Entries)
    → total (filter (is_in_flight s) (mark_buffer_entries_in_flight s ids t).1)
      ≡ total (filter (is_in_flight s) t) +ℤ total (filter (to_mark s ids) t)
unfolding mark_buffer_entries_in_flight
in_flight-mark s none t =
    total-added (to_mark s none) (is_in_flight s) mark_row (mark_is_not_in_flight s none)
      (marked_is_in_flight s none) (λ e. refl) t
in_flight-mark s (some []) t = rw (none_marked s t) (grind int_laws)
in_flight-mark s (some (i ∷ ids)) t =
    total-added (to_mark s (some (i ∷ ids))) (is_in_flight s) mark_row
      (mark_is_not_in_flight s (some (i ∷ ids))) (marked_is_in_flight s (some (i ∷ ids)))
      (λ e. refl) t

rejoin : (a b c d m x : ℤ) → a ≡ b +ℤ m → x ≡ d +ℤ m → c ≡ b +ℤ x → c ≡ a +ℤ d
rejoin a b c d m x h k l = grind int_laws

-- A batch that is marked and then reverted is back on the balance, together with what was in
-- flight before.
pub revert-mark :
    (s : Text) (ids : Option (List ℕ)) (t : Entries)
    → outstanding_buffer_balance s
        (revert_in_flight_buffer_entries s (mark_buffer_entries_in_flight s ids t).1).1
      ≡ outstanding_buffer_balance s t +ℤ total (filter (is_in_flight s) t)
revert-mark s ids t =
    let marked = (mark_buffer_entries_in_flight s ids t).1 in
    rejoin (outstanding_buffer_balance s t) (outstanding_buffer_balance s marked)
      (outstanding_buffer_balance s (revert_in_flight_buffer_entries s marked).1)
      (total (filter (is_in_flight s) t)) (total (filter (to_mark s ids) t))
      (total (filter (is_in_flight s) marked)) (outstanding-mark s ids t) (in_flight-mark s ids t)
      (outstanding-revert s marked)

-- Finalizing a batch with its transaction changes no sub-solver's balance.
pub outstanding-finalize :
    (s s' : Text) (ids : List ℕ) (tx : Text) (t : Entries)
    → outstanding_buffer_balance s' (finalize_buffer_entries s ids tx t).1
      ≡ outstanding_buffer_balance s' t
unfolding outstanding_buffer_balance finalize_buffer_entries
outstanding-finalize s s' [] tx t = refl
outstanding-finalize s s' (i ∷ ids) tx t =
    total-kept (to_finalize s (i ∷ ids)) (is_uncleared s') (finalize_row tx)
      (finalize_is_cleared s s' (i ∷ ids)) (finalized_is_cleared s s' (i ∷ ids) tx) t

-- Clearing leaves the sub-solver with a balance of 0.
pub outstanding-clear :
    (s tx : Text) (t : Entries)
    → outstanding_buffer_balance s (clear_buffer_entries s tx t).1 ≡ pos 0
unfolding outstanding_buffer_balance clear_buffer_entries
outstanding-clear s tx t =
    rw (filter-update_where (is_uncleared s) (clear_row tx) (cleared_is_cleared s tx) t) refl
