-- ===== src/Domain/Collateral.antt =====
-- apps/byos/src/domain/collateral.ts and penalty.ts: caps, debits and what the escrow has free.
pub mod Caps
use byos_service_ts.Prelude.{
  ℕ, ◌+◌, ◌*◌, ◌/◌, ◌^◌, Option, none, some, ℤ, pos, negsuc, sub_ℕ, ◌-ℤ◌, ltb_ℤ, ltb, ◌==◌,
  if◌then◌else◌,
}

abbrev pub native_price_scale : ℕ
native_price_scale = 10 ^ 18

unfoldable pub native_sell_value : ℕ → ℕ → ℕ
native_sell_value sell_amount sell_token_ref_price =
    (sell_amount * sell_token_ref_price) / native_price_scale

unfoldable pub penalty_cap : Option ℕ → ℕ → ℕ → ℕ
penalty_cap none collateral_ratio_bps min_collateral = min_collateral
penalty_cap (some sell_amount_native) collateral_ratio_bps min_collateral =
    let scaled = (sell_amount_native * collateral_ratio_bps) / 10_000 in
    if ltb scaled min_collateral then scaled else min_collateral

-- A missing price and a price of 0 both leave the value unknown.
native_value : ℕ → Option ℕ → Option ℕ
unfolding native_sell_value
native_value sell_amount none = none
native_value sell_amount (some price) =
    if price == 0 then none else some (native_sell_value sell_amount price)

unfoldable pub per_proposal_cl : ℕ → Option ℕ → ℕ → ℕ → ℕ
unfolding native_value
per_proposal_cl sell_amount sell_token_ref_price collateral_ratio_bps min_collateral =
    penalty_cap (native_value sell_amount sell_token_ref_price) collateral_ratio_bps min_collateral

-- Only a positive buffer balance, a debt, is taken off the escrow.
unfoldable pub available_collateral : ℕ → ℤ → ℤ
available_collateral escrow_balance buffer_balance =
    pos escrow_balance -ℤ (if ltb_ℤ (pos 0) buffer_balance then buffer_balance else pos 0)

unfoldable pub revert_debit : ℕ → ℕ → ℕ
revert_debit settlement_cost c_l = settlement_cost + c_l

unfoldable pub non_settlement_debit : ℕ → ℕ
non_settlement_debit c_l = c_l / 10

-- A gap is signed, and `/` on bigints truncates towards zero.
unfoldable pub buffer_debit : ℤ → ℕ → ℤ
buffer_debit (pos gap) ref_price = pos ((gap * ref_price) / native_price_scale)
buffer_debit (negsuc n) ref_price = sub_ℕ 0 (((n + 1) * ref_price) / native_price_scale)
