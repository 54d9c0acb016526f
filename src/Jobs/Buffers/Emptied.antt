-- ===== src/Jobs/Buffers/Emptied.antt =====
-- What a tick of runBufferDebits (apps/byos/src/infra/jobs/penalty.ts) leaves of a balance.
use byos_service_ts.Prelude.{
  ℕ, ◌≡◌, ◌+◌, ◌/◌, refl, sym, subst, true, false, ◌||◌, Option, none, some, List, [], ◌∷◌, Text, ℤ,
  pos, map, filter, includes, All, arith, leb_ℤ, ◌≤ℤ◌, ◌⊎◌, ◌∙◌, ◌==◌, Bool-cases, inl, inr,
}
use byos_service_ts.Store.Table.{update_where}
use byos_service_ts.Buffer.{
  BufferEntry, Entries, is_uncleared, to_mark, mark_row, outstanding_buffer_balance, insert_by_age,
  by_age, uncleared_buffer_entries, mark_buffer_entries_in_flight,
}
use byos_service_ts.Buffer.Laws.{outstanding-finalize}
use byos_service_ts.Debit.Worker.{Answer, LandedDebit}
use byos_service_ts.Jobs.Buffers.{
  BufferBooks, BufferReads, Progress, books_of, after_slash, slash, slash_input, mark, debit_of,
  slash_one, threshold,
}
use byos_service_ts.Debit.{create_debit_operation}

-- The ids name every entry of the sub-solver that is not cleared.
abbrev Covered : Text → List ℕ → Entries → Type 0
Covered s ids t = All (λ (e : BufferEntry). is_uncleared s e ≡ true → includes ids e.id ≡ true) t

abbrev ids_of : Entries → List ℕ
ids_of t = map (λ (e : BufferEntry). e.id) t

includes-insert :
    (i : ℕ) (e : BufferEntry) (t : Entries)
    → includes (ids_of (insert_by_age e t)) i ≡ (i == e.id || includes (ids_of t) i)
includes-insert i e [] = refl
includes-insert i e (x ∷ t) = ground (arith, includes-insert i e t)

includes-by_age : (i : ℕ) (t : Entries) → includes (ids_of (by_age t)) i ≡ includes (ids_of t) i
includes-by_age i [] = refl
includes-by_age i (e ∷ t) = ground (arith, includes-insert i e (by_age t), includes-by_age i t)

emptied :
    (s : Text) (ids : List ℕ) (t : Entries)
    → Covered s ids t
    → filter (is_uncleared s) (update_where (to_mark s (some ids)) mark_row t) ≡ []
emptied s ids [] h = refl
emptied s ids (e ∷ t) (h, hs) = elim (Bool-cases (is_uncleared s e)) [
  | inl open_entry ↦
      let hit : to_mark s (some ids) e ≡ true = rw (open_entry, h open_entry) refl in
      let gone : is_uncleared s (mark_row e) ≡ false = ground arith in
      rw (hit, gone, emptied s ids t hs) refl
  | inr closed ↦
      let miss : to_mark s (some ids) e ≡ false = rw closed refl in
      rw (miss, closed, emptied s ids t hs) refl
]

-- An id that is listed is listed by any longer list.
widen : (s : Text) (i : ℕ) (ids : List ℕ) (t : Entries) → Covered s ids t → Covered s (i ∷ ids) t
widen s i ids [] h = tt
widen s i ids (e ∷ t) (h, hs) = (λ o. ground (arith, h o), widen s i ids t hs)

Covered-filter : (s : Text) (t : Entries) → Covered s (ids_of (filter (is_uncleared s) t)) t
Covered-filter s [] = tt
Covered-filter s (e ∷ t) = elim (Bool-cases (is_uncleared s e)) [
  | inl o ↦
      let found : filter (is_uncleared s) (e ∷ t) ≡ e ∷ filter (is_uncleared s) t = rw o refl in
      subst (λ l. Covered s (ids_of l) (e ∷ t)) (sym found)
        ((λ x. ground arith), widen s e.id _ t (Covered-filter s t))
  | inr c ↦
      let skipped : filter (is_uncleared s) (e ∷ t) ≡ filter (is_uncleared s) t = rw c refl in
      subst (λ l. Covered s (ids_of l) (e ∷ t)) (sym skipped) ((λ x. absurd cc), Covered-filter s t)
]

recovered :
    (s : Text) (ids js : List ℕ) (t : Entries)
    → ((i : ℕ) → includes js i ≡ includes ids i)
    → Covered s ids t
    → Covered s js t
recovered s ids js [] same h = tt
recovered s ids js (e ∷ t) same (h, hs) = (λ o. same e.id ∙ h o, recovered s ids js t same hs)

covered_lem : (s : Text) (t : Entries) → Covered s (ids_of (uncleared_buffer_entries s t)) t
unfolding uncleared_buffer_entries
covered_lem s t =
    recovered s _ _ t (λ i. includes-by_age i (filter (is_uncleared s) t)) (Covered-filter s t)

-- With no ids, nothing is uncleared.
none_open : (s : Text) (t : Entries) → Covered s [] t → filter (is_uncleared s) t ≡ []
none_open s [] h = refl
none_open s (e ∷ t) (h, hs) = elim (Bool-cases (is_uncleared s e)) [
  | inl o ↦ absurd cc (h o)
  | inr c ↦ rw c (none_open s t hs)
]

marked_lem :
    (s : Text) (ids : List ℕ) (t : Entries)
    → Covered s ids t
    → outstanding_buffer_balance s (mark_buffer_entries_in_flight s (some ids) t).1 ≡ pos 0
unfolding outstanding_buffer_balance mark_buffer_entries_in_flight
marked_lem s [] t h = rw (none_open s t h) refl
marked_lem s (i ∷ ids) t h = rw (emptied s (i ∷ ids) t h) refl

module _ (reads : BufferReads) (s : Text) where
  after_slash_lem :
      (ids : List ℕ) (amount count : ℕ) (answer : Answer (Option LandedDebit)) (b : BufferBooks)
      → outstanding_buffer_balance s b.entries ≡ pos 0
      → outstanding_buffer_balance s
          (books_of (after_slash reads s ids amount count answer b)).entries
        ≡ pos 0
  after_slash_lem ids amount count (Answer.threw message) b h = h
  after_slash_lem ids amount count (Answer.returned none) b h = h
  after_slash_lem ids amount count (Answer.returned (some l)) b h =
      elim (Bool-cases (reads.finalizing_fails s)) [
        | inl fails ↦ rw fails h
        | inr writes ↦ rw writes (outstanding-finalize s s ids l.hash b.entries ∙ h)
      ]

  slash_lem :
      (ids : List ℕ) (balance : ℤ) (b : BufferBooks)
      → Covered s ids b.entries
      → outstanding_buffer_balance s (books_of (slash reads s ids balance b)).entries ≡ pos 0
  slash_lem ids balance b h =
      let input = slash_input reads s ids balance in
      let created =
        (create_debit_operation (reads.next_operation b.operations) input reads.now
          b.operations).1 in
      let marked = mark s ids (record b { operations = created }) in
      let run = debit_of reads input marked in
      after_slash_lem ids _ _ run.0 (record marked { operations = run.1 })
        (marked_lem s ids b.entries h)

  -- An item leaves a balance of at most a fifth of the minimum collateral, rounded down, as it is; any
  -- larger one is 0 afterwards, whatever becomes of its debit.
  pub slash_one-emptied :
      (b : BufferBooks)
      → (outstanding_buffer_balance s b.entries ≤ℤ pos (reads.min_collateral / 5)
          × (slash_one reads s b ≡ Progress.onward b))
        ⊎ ((pos (reads.min_collateral / 5 + 1) ≤ℤ outstanding_buffer_balance s b.entries)
            × (outstanding_buffer_balance s (books_of (slash_one reads s b)).entries ≡ pos 0))
  unfolding slash_one
  slash_one-emptied b =
      elim (Bool-cases (leb_ℤ (outstanding_buffer_balance s b.entries) (pos (threshold reads)))) [
        | inl small ↦ rw small (inl (ground arith, refl))
        | inr large ↦ rw large (
            inr (
              ground arith,
              slash_lem _ (outstanding_buffer_balance s b.entries) b (covered_lem s b.entries),
            ))
      ]
