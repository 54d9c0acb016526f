-- ===== src/Auction/Wire/RoundTrip.antt =====
-- What is written for the shared store is read back.
use byos_service_ts.Prelude.{
  ℕ, zero, suc, ◌+◌, ◌*◌, ◌/◌, ◌%◌, ◌^◌, ◌<◌, ◌≡◌, refl, ap, ◌∙◌, Option, some, List, [], ◌∷◌, Text,
  map, ltb, arith, Bool, true, false,
}
use byos_service_ts.Domain.Proposal.{Interaction}
use byos_service_ts.Domain.Order.{CowOrder, OrderRecord}
use byos_service_ts.Auction.Wire.{
  AuctionState, digits_onto, to_string, read_after, read_digits, map_each, serialize_interaction,
  deserialize_interaction, serialize_order, deserialize_order, serialize_record, deserialize_record,
  serialize_state, deserialize_state, order_entry, price_entry,
}

read_digits-digit :
    (n r : ℕ) (t : Text) → r < 10 → read_digits n ((b'0' + r) ∷ t) ≡ read_digits (n * 10 + r) t
unfolding read_digits
read_digits-digit n r t small =
    let value : read_after n (b'0' + r) ≡ n * 10 + r = ground arith in rw value (ground arith)

digits_of : (n : ℕ) → n / 10 * 10 + n % 10 ≡ n
digits_of n = omega arith

below_power : (n : ℕ) → n < 10 ^ n
below_power zero = omega arith
below_power (suc n) = let rest : n < 10 ^ n = below_power n in omega arith

abbrev digits_by : (b : Bool) (fuel n : ℕ) → (after : Text) → Text
digits_by b fuel n after = elim b [
  | true ↦ (b'0' + n) ∷ after
  | false ↦ digits_onto fuel (n / 10) ((b'0' + n % 10) ∷ after)
]

read-digits_by :
    (b : Bool) (fuel n : ℕ) (after : Text)
    → ltb n 10 ≡ b
    → (read_digits 0 (digits_onto fuel (n / 10) ((b'0' + n % 10) ∷ after))
        ≡ read_digits (n / 10) ((b'0' + n % 10) ∷ after))
    → read_digits 0 (digits_by b fuel n after) ≡ read_digits n after
read-digits_by true fuel n after small rest =
    let value : 0 * 10 + n ≡ n = omega arith in
    read_digits-digit 0 n after (ground arith) ∙ ap (λ k. read_digits k after) value
read-digits_by false fuel n after large rest =
    rw (rest, read_digits-digit (n / 10) (n % 10) after (omega arith), digits_of n) refl

one_digit : (n fuel : ℕ) → n < 10 ^ suc fuel → n / 10 < 10 ^ fuel
one_digit n fuel bound = omega arith

-- Enough fuel: a number below 10 to its power.
read-digits_onto :
    (fuel n : ℕ) (after : Text)
    → n < 10 ^ fuel
    → read_digits 0 (digits_onto fuel n after) ≡ read_digits n after
unfolding digits_onto
read-digits_onto zero n after bound = let none_left : n ≡ 0 = omega arith in rw none_left refl
read-digits_onto (suc fuel) n after bound =
    read-digits_by (ltb n 10) fuel n after refl
      (read-digits_onto fuel (n / 10) ((b'0' + n % 10) ∷ after) (one_digit n fuel bound))

read-to_string : (n : ℕ) → read_digits 0 (to_string n) ≡ some n
unfolding read_digits
read-to_string n =
    let rest : n < 10 ^ n = below_power n in rw (read-digits_onto (suc n) n [] (omega arith)) refl

map_each-map {ℓ κ} :
    {A : Type ℓ} {B : Type κ} (write : A → B) (read : B → Option A) (xs : List A)
    → ((a : A) → read (write a) ≡ some a)
    → map_each read (map write xs) ≡ some xs
unfolding map_each
map_each-map write read [] back = refl
map_each-map write read (a ∷ xs) back = rw (back a, map_each-map write read xs back) refl

interaction-back : (i : Interaction) → deserialize_interaction (serialize_interaction i) ≡ some i
unfolding deserialize_interaction
interaction-back i = rw (read-to_string i.value) refl

order-back : (o : CowOrder) → deserialize_order (serialize_order o) ≡ some o
unfolding deserialize_order
order-back o =
    rw (read-to_string o.sell_amount, read-to_string o.buy_amount, read-to_string o.fee_amount) refl

record-back : (r : OrderRecord) → deserialize_record (serialize_record r) ≡ some r
unfolding deserialize_record
record-back r =
    rw
      (
        order-back r.order,
        map_each-map serialize_interaction deserialize_interaction r.pre_interactions
            interaction-back,
        map_each-map serialize_interaction deserialize_interaction r.post_interactions
            interaction-back,
      )
      refl

-- Reading a state that was written gives the state back, every amount and price included, however
-- large.
pub deserialize-serialize : (s : AuctionState) → deserialize_state (serialize_state s) ≡ some s
unfolding deserialize_state serialize_state
deserialize-serialize s =
    rw
      (
        map_each-map (λ e. (e.0, serialize_record e.1)) order_entry s.orders
            (λ e. rw (record-back e.1) refl),
        map_each-map (λ e. (e.0, to_string e.1)) price_entry s.prices
            (λ e. rw (read-to_string e.1) refl),
        read-to_string s.gas_price,
      )
      refl
