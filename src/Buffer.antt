-- ===== src/Buffer.antt =====
-- apps/byos/src/infra/storage.ts, the buffer ledger: what settlements delivered above or below
-- their quote, entry by entry, until a debit clears a batch of entries. An entry is uncleared, in
-- flight (cleared, with no transaction), or finalized (cleared by a transaction).
pub mod Laws
pub mod Ledger
use byos_service_ts.Prelude.{
  ℕ, ◌+◌, Bool, true, false, not, ◌&&◌, ◌||◌, Option, none, some, List, [], ◌∷◌, Text, text_eq,
  to_lower, ℤ, pos, ◌+ℤ◌, map, filter, length, any, includes, is_some, ltb, leb, ◌==◌,
  if◌then◌else◌,
}
use byos_service_ts.Store.Table.{update_where}

pub record BufferEntry : Type 0 where
  pub id : ℕ
  pub sub_solver : Text
  pub proposal_id : ℕ
  pub order_uid : Text
  pub buy_token : Text
  pub delta : ℤ
  pub gap : ℤ
  pub native_token_amount : ℤ
  pub cleared : Bool
  pub clear_tx_hash : Option Text
  pub created_at : ℕ

abbrev pub Entries : Type 0
Entries = List BufferEntry

pub buffer_entry_exists_for_proposal : ℕ → Entries → Bool
buffer_entry_exists_for_proposal proposal_id t = any (λ e. e.proposal_id == proposal_id) t

pub record NewEntry : Type 0 where
  pub sub_solver : Text
  pub proposal_id : ℕ
  pub order_uid : Text
  pub buy_token : Text
  pub delta : ℤ
  pub gap : ℤ
  pub native_token_amount : ℤ

abbrev pub entry_of : ℕ → NewEntry → ℕ → BufferEntry
entry_of next_id entry now = record {
  id = next_id;
  sub_solver = to_lower entry.sub_solver;
  proposal_id = entry.proposal_id;
  order_uid = to_lower entry.order_uid;
  buy_token = to_lower entry.buy_token;
  delta = entry.delta;
  gap = entry.gap;
  native_token_amount = entry.native_token_amount;
  cleared = false;
  clear_tx_hash = none;
  created_at = now;
}

unfoldable pub insert_buffer_entry : ℕ → NewEntry → ℕ → Entries → ℕ × Entries
insert_buffer_entry next_id entry now t = (next_id, entry_of next_id entry now ∷ t)

abbrev pub is_uncleared : Text → BufferEntry → Bool
is_uncleared sub_solver e = text_eq e.sub_solver (to_lower sub_solver) && not e.cleared

abbrev pub is_in_flight : Text → BufferEntry → Bool
is_in_flight sub_solver e =
    text_eq e.sub_solver (to_lower sub_solver) && (e.cleared && not (is_some e.clear_tx_hash))

-- `SELECT DISTINCT`
abbrev pub add_once : Text → List Text → List Text
add_once a found = if any (text_eq a) found then found else a ∷ found

unfoldable pub uncleared_buffer_sub_solvers : Entries → List Text
uncleared_buffer_sub_solvers [] = []
uncleared_buffer_sub_solvers (e ∷ t) =
    let rest = uncleared_buffer_sub_solvers t in
    if e.cleared then rest else add_once e.sub_solver rest

-- `COALESCE(SUM(native_token_amount), 0)`
abbrev pub total : Entries → ℤ
total [] = pos 0
total (e ∷ t) = e.native_token_amount +ℤ total t

unfoldable pub outstanding_buffer_balance : Text → Entries → ℤ
outstanding_buffer_balance sub_solver t = total (filter (is_uncleared sub_solver) t)

-- `ORDER BY created_at`
abbrev pub insert_by_age : BufferEntry → Entries → Entries
insert_by_age e [] = e ∷ []
insert_by_age e (x ∷ t) = if leb e.created_at x.created_at then e ∷ x ∷ t else x ∷ insert_by_age e t

abbrev pub by_age : Entries → Entries
by_age [] = []
by_age (e ∷ t) = insert_by_age e (by_age t)

unfoldable pub uncleared_buffer_entries : Text → Entries → Entries
uncleared_buffer_entries sub_solver t = by_age (filter (is_uncleared sub_solver) t)

-- `entryIds`, which may be absent.
abbrev pub among : Option (List ℕ) → ℕ → Bool
among none i = true
among (some ids) i = includes ids i

abbrev pub is_empty_batch : Option (List ℕ) → Bool
is_empty_batch (some []) = true
is_empty_batch _ = false

abbrev pub mark_row : BufferEntry → BufferEntry
mark_row e = record e { cleared = true; clear_tx_hash = none }

abbrev pub to_mark : Text → Option (List ℕ) → BufferEntry → Bool
to_mark sub_solver ids e = is_uncleared sub_solver e && among ids e.id

unfoldable pub mark_buffer_entries_in_flight : Text → Option (List ℕ) → Entries → ℕ × Entries
mark_buffer_entries_in_flight sub_solver ids t = if is_empty_batch ids then (0, t) else (
  length (filter (to_mark sub_solver ids) t),
  update_where (to_mark sub_solver ids) mark_row t,
)

abbrev pub finalize_row : Text → BufferEntry → BufferEntry
finalize_row tx e = record e { clear_tx_hash = some (to_lower tx) }

abbrev pub to_finalize : Text → List ℕ → BufferEntry → Bool
to_finalize sub_solver ids e = is_in_flight sub_solver e && includes ids e.id

unfoldable pub finalize_buffer_entries : Text → List ℕ → Text → Entries → ℕ × Entries
finalize_buffer_entries sub_solver [] tx t = (0, t)
finalize_buffer_entries sub_solver (i ∷ ids) tx t = (
  length (filter (to_finalize sub_solver (i ∷ ids)) t),
  update_where (to_finalize sub_solver (i ∷ ids)) (finalize_row tx) t,
)

abbrev pub release_row : BufferEntry → BufferEntry
release_row e = record e { cleared = false }

unfoldable pub revert_in_flight_buffer_entries : Text → Entries → ℕ × Entries
revert_in_flight_buffer_entries sub_solver t = (
  length (filter (is_in_flight sub_solver) t),
  update_where (is_in_flight sub_solver) release_row t,
)

abbrev pub clear_row : Text → BufferEntry → BufferEntry
clear_row tx e = record e { cleared = true; clear_tx_hash = some (to_lower tx) }

unfoldable pub clear_buffer_entries : Text → Text → Entries → ℕ × Entries
clear_buffer_entries sub_solver tx t = (
  length (filter (is_uncleared sub_solver) t),
  update_where (is_uncleared sub_solver) (clear_row tx) t,
)
