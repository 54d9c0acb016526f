-- ===== src/Jobs/Sources/RoundTrip.antt =====
-- bufferBatchFromSourceId of apps/byos/src/infra/jobs/penalty.ts reads back what runBufferDebits
-- writes.
use byos_service_ts.Prelude.{
  ℕ, zero, suc, ◌+◌, ◌*◌, ◌/◌, ◌%◌, ◌^◌, ◌≤◌, ◌<◌, ◌≡◌, refl, sym, subst, ap, ◌∙◌, Bool, true,
  false, ◌&&◌, none, some, List, [], ◌∷◌, ◌++◌, Text, codes, to_lower, all, All, leb, ltb, arith,
  length, Bool-cases, inl, inr,
}
use byos_service_ts.Jobs.Sources.{
  max_digits, max_safe_integer, print_onto, print_number, join_ids, buffer_source_id, is_lower_hex,
  strip_prefix, take_hex, Reading, read_one, read_ids, buffer_batch_from_source_id,
}

read_one-first : (n : ℕ) → 0 < n → n < 10 → read_one none (b'0' + n) ≡ Reading.digit n
read_one-first n positive small = ground arith

read_one-next : (q r : ℕ) → r < 10 → read_one (some q) (b'0' + r) ≡ Reading.digit (q * 10 + r)
read_one-next q r small = ground arith

last_digit : (n : ℕ) → n % 10 < 10
last_digit n = omega arith

digits_of : (n : ℕ) → n / 10 * 10 + n % 10 ≡ n
digits_of n = omega arith

fewer_digits : (n b : ℕ) → n < b * 10 → n / 10 < b
fewer_digits n b h = omega arith

-- Enough fuel is a bound on the number of digits: a number from 1 on, below 10 to the power of the
-- fuel, is printed whole, so that reading its digits before any text goes on with that number.
pub read-print_onto :
    (fuel n : ℕ) (after t : Text)
    → 0 < n
    → n < 10 ^ fuel
    → read_ids none (print_onto fuel n after ++ t) ≡ read_ids (some n) (after ++ t)
unfolding print_onto read_ids
read-print_onto zero n after t positive bound = absurd (omega arith)
read-print_onto (suc fuel) n after t positive bound = elim (Bool-cases (ltb n 10)) [
  | inl small ↦
      let first : read_one none (b'0' + n) ≡ Reading.digit n =
        read_one-first n positive (ground arith) in
      rw (small, first) refl
  | inr large ↦
      let next : read_one (some (n / 10)) (b'0' + n % 10) ≡ Reading.digit (n / 10 * 10 + n % 10) =
        read_one-next (n / 10) (n % 10) (last_digit n) in
      rw
        (
          large,
          read-print_onto fuel (n / 10) ((b'0' + n % 10) ∷ after) t (ground arith)
              (fewer_digits n (10 ^ fuel) (omega arith)),
        )
        (rw (next, digits_of n) refl)
]

-- An id of a row: from 1 on, and a safe integer.
abbrev pub IsId : ℕ → Type 0
IsId n = (0 < n) × (n ≤ max_safe_integer)

read-print_number :
    (n : ℕ) (t : Text) → IsId n → read_ids none (print_number n ++ t) ≡ read_ids (some n) t
read-print_number n t (positive, safe) = read-print_onto max_digits n [] t positive (omega arith)

append_nil : (t : Text) → t ++ [] ≡ t
append_nil [] = refl
append_nil (c ∷ t) = ap (λ u. c ∷ u) (append_nil t)

read-join_ids :
    (n : ℕ) (ns : List ℕ) → IsId n → All IsId ns → read_ids none (join_ids (n ∷ ns)) ≡ some (n ∷ ns)
unfolding read_ids join_ids
read-join_ids n [] h hs =
    ap (read_ids none) (sym (append_nil (print_number n))) ∙ read-print_number n [] h
read-join_ids n (m ∷ ns) h (hm, hs) =
    read-print_number n (b',' ∷ join_ids (m ∷ ns)) h ∙ rw (read-join_ids m ns hm hs) refl

safe_lem : (ids : List ℕ) → All IsId ids → all (λ i. leb i max_safe_integer) ids ≡ true
safe_lem [] h = refl
safe_lem (n ∷ ids) (h, hs) = ground (arith, h.1, safe_lem ids hs)

and_true : (b c : Bool) → (b && c) ≡ true → (b ≡ true) × (c ≡ true)
and_true true c h = (refl, h)
and_true false c h = absurd cc

take-hex :
    (digits t : Text)
    → all is_lower_hex digits ≡ true
    → take_hex (length digits) (digits ++ t) ≡ some (digits, t)
take-hex [] t h = refl
take-hex (c ∷ digits) t h =
    let (first, others) = and_true (is_lower_hex c) (all is_lower_hex digits) h in
    rw (first, take-hex digits t others) refl

strip-append : (p t : Text) → strip_prefix p (p ++ t) ≡ some t
strip-append [] t = refl
strip-append (a ∷ p) t = ground (arith, strip-append p t)

-- A lowercase address: 0x and 40 hexadecimal digits.
abbrev pub IsAddress : Text → Text → Type 0
IsAddress digits sub_solver =
    (to_lower sub_solver ≡ codes "0x" ++ digits)
    × (all is_lower_hex digits ≡ true)
    × (length digits ≡ 40)

-- The worker reads back the batch that it has written: for an address and a list of row ids that is
-- not empty, bufferBatchFromSourceId of the source id gives the address in lower case and the ids.
pub batch-source_id :
    (sub_solver digits : Text) (n : ℕ) (ns : List ℕ)
    → IsAddress digits sub_solver
    → IsId n
    → All IsId ns
    → buffer_batch_from_source_id (buffer_source_id sub_solver (n ∷ ns))
      ≡ some (record { sub_solver = to_lower sub_solver; entry_ids = n ∷ ns })
unfolding buffer_source_id buffer_batch_from_source_id
batch-source_id sub_solver digits n ns (lower, hex, long) h hs =
    let rest : Text = codes ":entries:" ++ join_ids (n ∷ ns) in
    let taken : take_hex 40 (digits ++ rest) ≡ some (digits, rest) =
      subst (λ k. take_hex k (digits ++ rest) ≡ some (digits, rest)) long
        (take-hex digits rest hex) in
    rw (lower, taken, read-join_ids n ns h hs, safe_lem (n ∷ ns) (h, hs)) refl
