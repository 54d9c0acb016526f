-- ===== src/Auction/Orders/Signed.antt =====
-- The records of auctionOrderToRecord.
use byos_service_ts.Prelude.{
  ◌≡◌, inl, inr, refl, sym, subst, ap, ◌∙◌, true, Bool-cases, some, none, Option, List, ◌++◌, Text,
  arith, some_inj, text_eq, text_eq→eq, codes,
}
use byos_service_ts.Domain.Proposal.{Interaction}
use byos_service_ts.Domain.Order.{OrderKind, SigningScheme, OrderRecord}
use byos_service_ts.Auction.Wire.{map_each, deserialize_interaction, ◌>>=◌}
use byos_service_ts.Auction.Orders.{
  AuctionOrder, map_signing_scheme, after_two, settlement_signature, map_kind, record_with,
  auction_order_to_record,
}

-- The signature that a scheme's order carries to the settlement contract.
abbrev pub Carries : SigningScheme → (owner signature carried : Text) → Type 0
Carries SigningScheme.pre_sign owner signature carried = carried ≡ owner
Carries SigningScheme.eip1271 owner signature carried = carried ≡ owner ++ after_two signature
Carries SigningScheme.eip712 owner signature carried = carried ≡ signature
Carries SigningScheme.eth_sign owner signature carried = carried ≡ signature

at_literal :
    (scheme literal owner signature : Text) (k kind : SigningScheme)
    → text_eq scheme literal ≡ true
    → map_signing_scheme literal ≡ some kind
    → Carries kind owner signature (settlement_signature literal owner signature)
    → map_signing_scheme scheme ≡ some k
    → Carries k owner signature (settlement_signature scheme owner signature)
at_literal scheme literal owner signature k kind same_text known carries e =
    let equal : scheme ≡ literal = text_eq→eq scheme literal same_text in
    let same : kind ≡ k = some_inj (sym known ∙ (ap map_signing_scheme (sym equal) ∙ e)) in
    subst (λ j. Carries j owner signature (settlement_signature scheme owner signature)) same
      (subst (λ t. Carries kind owner signature (settlement_signature t owner signature))
        (sym equal) carries)

scheme-Carries :
    (scheme digits signature : Text) (k : SigningScheme)
    → map_signing_scheme scheme ≡ some k
    → Carries k
        (codes "0x" ++ digits)
        signature
        (settlement_signature scheme (codes "0x" ++ digits) signature)
unfolding settlement_signature map_signing_scheme
scheme-Carries scheme digits signature k e = elim (Bool-cases (text_eq scheme (codes "eip712"))) [
  | inl a ↦
      at_literal scheme (codes "eip712") (codes "0x" ++ digits) signature k SigningScheme.eip712 a
        refl refl e
  | inr a ↦ elim (Bool-cases (text_eq scheme (codes "ethsign"))) [
    | inl b ↦
        at_literal scheme (codes "ethsign") (codes "0x" ++ digits) signature k
          SigningScheme.eth_sign b refl refl e
    | inr b ↦ elim (Bool-cases (text_eq scheme (codes "eip1271"))) [
      | inl c ↦
          at_literal scheme (codes "eip1271") (codes "0x" ++ digits) signature k
            SigningScheme.eip1271 c refl refl e
      | inr c ↦ elim (Bool-cases (text_eq scheme (codes "presign"))) [
        | inl d ↦
            at_literal scheme (codes "presign") (codes "0x" ++ digits) signature k
              SigningScheme.pre_sign d refl refl e
        | inr d ↦ absurd (grind arith)
      ]
    ]
  ]
]

-- What a chain with a result went through.
bind_some {ℓ κ} :
    {A : Type ℓ} {B : Type κ} (o : Option A) (f : A → Option B) (b : B)
    → (o >>= f) ≡ some b
    → (a : A) × (o ≡ some a) × (f a ≡ some b)
bind_some none f b e = absurd cc
bind_some (some a) f b e = (a, refl, e)

abbrev pub IsSigned : AuctionOrder → OrderRecord → Type 0
IsSigned o r =
    (r.order.sell_amount ≡ o.full_sell_amount)
    × (r.order.buy_amount ≡ o.full_buy_amount)
    × (r.order.fee_amount ≡ 0)
    × Carries r.order.signing_scheme o.owner o.signature r.order.signature

record_with-IsSigned :
    (o : AuctionOrder) (pre post : List Interaction) (kind : OrderKind) (scheme : SigningScheme)
    (digits : Text)
    → o.owner ≡ codes "0x" ++ digits
    → map_signing_scheme o.signing_scheme ≡ some scheme
    → IsSigned o (record_with o pre post kind scheme)
record_with-IsSigned o pre post kind scheme digits hex g =
    (refl, refl, refl, rw hex (scheme-Carries o.signing_scheme digits o.signature scheme g))

-- Whatever order of the driver is turned into a record, where its owner is a text after 0x: the
-- record's amounts are those that the user signed, its fee is 0, and its signature is what the
-- settlement contract expects for its scheme: the owner alone, the owner and then the contract's
-- signature, or the signature as it is.
pub auction_order_to_record-IsSigned :
    (o : AuctionOrder) (r : OrderRecord) (digits : Text)
    → o.owner ≡ codes "0x" ++ digits
    → auction_order_to_record o ≡ some r
    → IsSigned o r
unfolding auction_order_to_record
auction_order_to_record-IsSigned o r digits hex e =
    let (pre, hp, e1) = bind_some (map_each deserialize_interaction o.pre_interactions) _ r e in
    let (post, hq, e2) = bind_some (map_each deserialize_interaction o.post_interactions) _ r e1 in
    let (kind, hk, e3) = bind_some (map_kind o.kind) _ r e2 in
    let (scheme, g, e4) = bind_some (map_signing_scheme o.signing_scheme) _ r e3 in
    subst (IsSigned o) (some_inj e4) (record_with-IsSigned o pre post kind scheme digits hex g)
