-- ===== src/Domain/Order/Envelope.antt =====
-- What `checkEnvelope` of apps/byos/src/domain/order.ts admits.
use native.Mathlib.Nat.{mul-le-mul_right}
use byos_service_ts.Prelude.{
  ◌*◌, ◌≤◌, ◌<◌, ◌≡◌, ◌↔◌, Bool, true, false, none, Text, text_eq→eq, text_eq_refl, to_lower, arith,
}
use byos_service_ts.Domain.Proposal.{Proposal}
use byos_service_ts.Domain.Order.{
  OrderKind, CowOrder, OrderRecord, token_eq, check_fill_or_kill, check_partial_fill,
  check_envelope,
}

pub token_eq_iff : (a b : Text) → (token_eq a b ≡ true) ↔ (to_lower a ≡ to_lower b)
unfolding token_eq
token_eq_iff a b = (text_eq→eq (to_lower a) (to_lower b), λ e. rw e (text_eq_refl (to_lower b)))

-- The amounts fit the order's kind: a fill-or-kill order is filled whole, and a partially
-- fillable one in part, at no worse than its limit price.
abbrev pub FitsKind : OrderKind → Bool → CowOrder → Proposal → Type 0
FitsKind OrderKind.sell false o p =
    (p.sell_amount ≡ o.sell_amount) × (o.buy_amount ≤ p.min_buy_amount)
FitsKind OrderKind.buy false o p =
    (p.min_buy_amount ≡ p.quote_buy_amount) × (p.quote_buy_amount ≡ o.buy_amount)
FitsKind OrderKind.sell true o p =
    (0 < p.sell_amount)
    × (p.sell_amount ≤ o.sell_amount)
    × (p.sell_amount * o.buy_amount ≤ p.min_buy_amount * o.sell_amount)
FitsKind OrderKind.buy true o p =
    (p.min_buy_amount ≡ p.quote_buy_amount)
    × (0 < p.quote_buy_amount)
    × (p.quote_buy_amount ≤ o.buy_amount)
    × (0 < p.sell_amount)
    × (p.sell_amount * o.buy_amount ≤ p.quote_buy_amount * o.sell_amount)

-- The envelope of an order, as a specification.
abbrev pub FitsEnvelope : OrderRecord → Proposal → Type 0
FitsEnvelope r p =
    (r.erc20_balances ≡ true)
    × (to_lower p.sell_token ≡ to_lower r.order.sell_token)
    × (to_lower p.buy_token ≡ to_lower r.order.buy_token)
    × (p.min_buy_amount ≤ p.quote_buy_amount)
    × FitsKind r.order.kind r.order.partially_fillable r.order p

partial_iff :
    (o : CowOrder) (p : Proposal)
    → p.min_buy_amount ≤ p.quote_buy_amount
    → (check_partial_fill o p ≡ none) ↔ FitsKind o.kind true o p
unfolding check_partial_fill
partial_iff o p h = (
  λ e. ground arith,
  λ f.
      ground
        (arith, mul-le-mul_right {m = p.min_buy_amount} {n = p.quote_buy_amount} o.sell_amount h),
)

fill_or_kill_iff :
    (o : CowOrder) (p : Proposal) → (check_fill_or_kill o p ≡ none) ↔ FitsKind o.kind false o p
unfolding check_fill_or_kill
fill_or_kill_iff o p = (λ e. ground arith, λ f. ground arith)

-- A proposal passes the envelope check exactly when it fits the order's envelope. The limit
-- price is tested twice in the code, and the test on `minBuyAmount` is the one that binds.
pub check_envelope_iff :
    (r : OrderRecord) (p : Proposal) → (check_envelope r p ≡ none) ↔ FitsEnvelope r p
unfolding check_envelope
check_envelope_iff r p = (
  λ e. ground (
    arith,
    token_eq_iff p.sell_token r.order.sell_token,
    token_eq_iff p.buy_token r.order.buy_token,
    partial_iff r.order p,
    fill_or_kill_iff r.order p,
  ),
  λ f. ground (
    arith,
    token_eq_iff p.sell_token r.order.sell_token,
    token_eq_iff p.buy_token r.order.buy_token,
    partial_iff r.order p,
    fill_or_kill_iff r.order p,
  ),
)
