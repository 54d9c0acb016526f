-- ===== src/Jobs/Sources.antt =====
-- The source ids of apps/byos/src/infra/jobs/penalty.ts, which link a debit operation to what it
-- charges: how they are written, and how bufferBatchFromSourceId reads one back.
pub mod RoundTrip
use byos_service_ts.Prelude.{
  ℕ, zero, suc, ◌+◌, ◌-◌, ◌*◌, ◌/◌, ◌%◌, ◌^◌, Bool, true, false, not, ◌&&◌, ◌||◌, Option, none,
  some, List, [], ◌∷◌, ◌++◌, Text, codes, to_lower, all, leb, ltb, ◌==◌, if◌then◌else◌,
}

-- The number of digits of the largest safe integer, 2 ^ 53 - 1.
abbrev pub max_digits : ℕ
max_digits = 16

abbrev pub max_safe_integer : ℕ
max_safe_integer = 2 ^ 53 - 1

-- The decimal digits of a number with at most `fuel` of them, before the text `after`.
unfoldable pub print_onto : (fuel n : ℕ) → (after : Text) → Text
print_onto zero n after = after
print_onto (suc fuel) n after =
    let more = print_onto fuel (n / 10) ((b'0' + n % 10) ∷ after) in
    if ltb n 10 then (b'0' + n) ∷ after else more

abbrev pub print_number : ℕ → Text
print_number n = print_onto max_digits n []

-- `entryIds.join(",")`
unfoldable pub join_ids : List ℕ → Text
join_ids [] = []
join_ids (n ∷ []) = print_number n
join_ids (n ∷ m ∷ ns) = print_number n ++ (b',' ∷ join_ids (m ∷ ns))

abbrev pub revert_source_id : ℕ → Text
revert_source_id proposal_id = codes "proposal:" ++ print_number proposal_id

unfoldable pub buffer_source_id : (sub_solver : Text) → List ℕ → Text
buffer_source_id sub_solver ids =
    codes "subsolver:" ++ (to_lower sub_solver ++ (codes ":entries:" ++ join_ids ids))

pub record BufferBatch : Type 0 where
  pub sub_solver : Text
  pub entry_ids : List ℕ

abbrev pub is_digit : ℕ → Bool
is_digit c = leb b'0' c && leb c b'9'

-- A lowercase hexadecimal digit.
abbrev pub is_lower_hex : ℕ → Bool
is_lower_hex c = is_digit c || leb b'a' c && leb c b'f'

-- The rest of a text that starts with the first one.
abbrev pub strip_prefix : Text → Text → Option Text
strip_prefix [] t = some t
strip_prefix (a ∷ p) [] = none
strip_prefix (a ∷ p) (b ∷ t) = if a == b then strip_prefix p t else none

abbrev pub consed : ℕ → Option (Text × Text) → Option (Text × Text)
consed c none = none
consed c (some (taken, rest)) = some (c ∷ taken, rest)

-- `[0-9a-f]{n}`, and the rest.
abbrev pub take_hex : ℕ → Text → Option (Text × Text)
take_hex zero t = some ([], t)
take_hex (suc n) [] = none
take_hex (suc n) (c ∷ t) =
    let more = consed c (take_hex n t) in if is_lower_hex c then more else none

-- What one character of `[1-9][0-9]*(?:,[1-9][0-9]*)*` does to the number that is being read, if any.
pub data Reading : Type 0 where
  digit : ℕ → Reading
  ends : ℕ → Reading
  refused : Reading

abbrev pub read_one : Option ℕ → ℕ → Reading
read_one none c = if leb b'1' c && leb c b'9' then Reading.digit (c - b'0') else Reading.refused
read_one (some n) c =
    if is_digit c
    then Reading.digit (n * 10 + (c - b'0'))
    else if c == b','
    then Reading.ends n
    else Reading.refused

abbrev pub state_after : Reading → Option ℕ
state_after (Reading.digit n) = some n
state_after _ = none

abbrev pub cons_id : ℕ → Option (List ℕ) → Option (List ℕ)
cons_id n none = none
cons_id n (some ns) = some (n ∷ ns)

abbrev pub and_then : Reading → Option (List ℕ) → Option (List ℕ)
and_then (Reading.digit n) rest = rest
and_then (Reading.ends n) rest = cons_id n rest
and_then Reading.refused rest = none

abbrev pub at_end : Option ℕ → Option (List ℕ)
at_end none = none
at_end (some n) = some (n ∷ [])

unfoldable pub read_ids : Option ℕ → Text → Option (List ℕ)
read_ids state [] = at_end state
read_ids state (c ∷ t) =
    let reading = read_one state c in
    let rest = read_ids (state_after reading) t in and_then reading rest

abbrev pub safe_batch : Text → Option (List ℕ) → Option BufferBatch
safe_batch sub_solver none = none
safe_batch sub_solver (some ids) =
    if all (λ i. leb i max_safe_integer) ids
    then some (record { sub_solver = sub_solver; entry_ids = ids })
    else none

abbrev pub ids_part : Text → Option Text → Option BufferBatch
ids_part sub_solver none = none
ids_part sub_solver (some t) = safe_batch sub_solver (read_ids none t)

abbrev pub address_part : Option (Text × Text) → Option BufferBatch
address_part none = none
address_part (some (digits, t)) =
    ids_part (codes "0x" ++ digits) (strip_prefix (codes ":entries:") t)

abbrev pub hex_part : Option Text → Option BufferBatch
hex_part none = none
hex_part (some t) = address_part (take_hex 40 t)

unfoldable pub buffer_batch_from_source_id : Text → Option BufferBatch
buffer_batch_from_source_id source_id = hex_part (strip_prefix (codes "subsolver:0x") source_id)
