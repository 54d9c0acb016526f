-- ===== src/Solve/Auction/Flush.antt =====
-- What /solve (apps/byos/src/infra/api/solve.ts) leaves of the candidates of an auction.
use byos_service_ts.Prelude.{
  ℕ, ◌≡◌, ◌⊎◌, inl, inr, refl, sym, subst, ap, ◌≢◌, ◌∙◌, Bool, true, false, ◌||◌, Option, none,
  some, List, [], ◌∷◌, Text, map, includes, is_some, arith, ◌==◌, ==_iff, if◌then◌else◌, Bool-cases,
  get_or,
}
use byos_service_ts.Domain.Status.{Status}
use byos_service_ts.Candidates.{
  Candidate, CandidateStore, candidate_id, get, remove_all, snapshot_for_auction,
}
use byos_service_ts.Candidates.Laws.{get-remove_all}
use byos_service_ts.Store.Rows.{ProposalRow, Tables, find_row, sync_insert}
use byos_service_ts.Store.Creation.{
  submitted_row, insert_live, insert_as_submitted, log_row, insert_or_keep, write_to_log,
}
use byos_service_ts.Store.Creation.Valid.{kept, synced, find-insert_or_keep, find-sync_insert}
use byos_service_ts.Solve.{AuctionOrder, Choice, select_best}
use byos_service_ts.Solve.Auction.{
  AuctionInput, Round, of_order, market_of, inserted, submit_choice, solution_prices, cap_of,
  solve_orders, flush_reason, flushed_input, flush_all, to_flush, empty_round, solve_from,
  solve_auction,
}

abbrev pub IsLogged : ℕ → List ProposalRow → Type 0
IsLogged i log = is_some (find_row i log) ≡ true

kept_some :
    (b : Bool) (r : ProposalRow) (o : Option ProposalRow)
    → is_some o ≡ true
    → is_some (if b then kept r o else o) ≡ true
kept_some true r (some l) h = refl
kept_some true r none h = refl
kept_some false r o h = h

synced_some :
    (b : Bool) (r : ProposalRow) (o : Option ProposalRow)
    → is_some o ≡ true
    → is_some (if b then synced r o else o) ≡ true
synced_some true r (some l) h = refl
synced_some true r none h = refl
synced_some false r o h = h

kept_own : (r : ProposalRow) (o : Option ProposalRow) → is_some (kept r o) ≡ true
kept_own r none = refl
kept_own r (some l) = refl

synced_own : (r : ProposalRow) (o : Option ProposalRow) → is_some (synced r o) ≡ true
synced_own r none = refl
synced_own r (some l) = refl

insert_or_keep-IsLogged :
    (i : ℕ) (r : ProposalRow) (log : List ProposalRow)
    → (i ≡ r.id) ⊎ IsLogged i log
    → IsLogged i (insert_or_keep r log)
insert_or_keep-IsLogged i r log (inl e) =
    rw (find-insert_or_keep i r log, (==_iff i r.id).1 e) (kept_own r (find_row i log))
insert_or_keep-IsLogged i r log (inr h) =
    rw (find-insert_or_keep i r log) (kept_some (i == r.id) r (find_row i log) h)

sync_insert-IsLogged :
    (i : ℕ) (r : ProposalRow) (log : List ProposalRow)
    → (i ≡ r.id) ⊎ IsLogged i log
    → IsLogged i (sync_insert r log)
sync_insert-IsLogged i r log (inl e) =
    rw (find-sync_insert i r log, (==_iff i r.id).1 e) (synced_own r (find_row i log))
sync_insert-IsLogged i r log (inr h) =
    rw (find-sync_insert i r log) (synced_some (i == r.id) r (find_row i log) h)

-- A selected id is in the log, and so is each id that was.
abbrev IsRecorded : ℕ → Round → Type 0
IsRecorded i round = (includes round.selected_ids i ≡ false) ⊎ IsLogged i round.tables.proposals_log

insert_live-IsRecorded :
    (i : ℕ) (o : AuctionOrder) (c : Candidate) (row : ProposalRow) (round : Round)
    → row.id ≡ c.id
    → IsRecorded i round
    → IsRecorded i (inserted o c round (some (insert_live row round.tables)))
insert_live-IsRecorded i o c row round e (inr h) =
    inr (sync_insert-IsLogged i row round.tables.proposals_log (inr h))
insert_live-IsRecorded i o c row round e (inl n) = elim (Bool-cases (i == c.id)) [
  | inl same ↦
      inr (
        sync_insert-IsLogged i row round.tables.proposals_log
          (inl ((==_iff i c.id).0 same ∙ sym e)))
  | inr other ↦ inl (rw other n)
]

submit-IsRecorded :
    (a : AuctionInput) (o : AuctionOrder) (now i : ℕ) (round : Round) (b : Option Choice)
    → IsRecorded i round
    → IsRecorded i (submit_choice a o now round b)
unfolding insert_as_submitted
submit-IsRecorded a o now i round none h = h
submit-IsRecorded a o now i round (some b) h =
    elim (Bool-cases (is_some (find_row b.candidate.id round.tables.proposals))) [
      | inl taken ↦ rw taken h
      | inr free ↦ rw free (
          insert_live-IsRecorded i o b.candidate
            (submitted_row b.candidate (get_or (a.reference_price o.buy_token) 0)
              (solution_prices a o b.candidate)
              (cap_of a b.candidate (a.reference_price o.sell_token)) now)
            round refl h)
    ]

orders-IsRecorded :
    (a : AuctionInput) (snapshot : List Candidate) (now i : ℕ) (os : List AuctionOrder)
    (round : Round)
    → IsRecorded i round
    → IsRecorded i (solve_orders a snapshot now os round)
unfolding solve_orders
orders-IsRecorded a snapshot now i [] round h = h
orders-IsRecorded a snapshot now i (o ∷ os) round h =
    let b = select_best (market_of a o now) (of_order o.uid snapshot) in
    orders-IsRecorded a snapshot now i os (submit_choice a o now round b)
      (submit-IsRecorded a o now i round b h)

next_flushed :
    (i k : ℕ) (listed : Bool) (row : ProposalRow) (log : List ProposalRow)
    → row.id ≡ k
    → ((i == k || listed) ≡ true) ⊎ IsLogged i log
    → (listed ≡ true) ⊎ IsLogged i (insert_or_keep row log)
next_flushed i k listed row log e (inr h) = inr (insert_or_keep-IsLogged i row log (inr h))
next_flushed i k true row log e (inl h) = inl refl
next_flushed i k false row log e (inl h) =
    inr (insert_or_keep-IsLogged i row log (inl (ground (arith, e))))

true_is_not_false : true ≡ false → ⊥
true_is_not_false h = cc

skipped :
    (i k : ℕ) (listed : Bool) (log : List ProposalRow)
    → i ≢ k
    → ((i == k || listed) ≡ true) ⊎ IsLogged i log
    → (listed ≡ true) ⊎ IsLogged i log
skipped i k listed log n (inr h) = inr h
skipped i k true log n (inl h) = inl refl
skipped i k false log n (inl h) = absurd (n (ground (arith, h)))

flush-IsLogged :
    (i : ℕ) (fails : ℕ → Bool) (selected : List Text) (now : ℕ) (cs : List Candidate) (db : Tables)
    → fails i ≡ false
    → (includes (map candidate_id cs) i ≡ true) ⊎ IsLogged i db.proposals_log
    → IsLogged i (flush_all fails selected now cs db).proposals_log
unfolding flush_all write_to_log
flush-IsLogged i fails selected now [] db ok (inl h) = absurd cc
flush-IsLogged i fails selected now [] db ok (inr h) = h
flush-IsLogged i fails selected now (c ∷ cs) db ok h =
    let row =
      log_row c.id (flushed_input c (flush_reason selected c) now) Status.rejected
        (some (flush_reason selected c)) none now in
    let written : Tables = record db { proposals_log = insert_or_keep row db.proposals_log } in
    let Goal : Bool → Type 0 =
      λ b. IsLogged i (flush_all fails selected now cs (if b then db else written)).proposals_log in
    elim (Bool-cases (fails c.id)) [
      | inl throws ↦ subst Goal (sym throws) (
          flush-IsLogged i fails selected now cs db ok (
            skipped i c.id (includes (map candidate_id cs) i) db.proposals_log
              (λ same. true_is_not_false (sym throws ∙ (ap fails (sym same) ∙ ok))) h))
      | inr writes ↦ subst Goal (sym writes) (
          flush-IsLogged i fails selected now cs written ok
            (next_flushed i c.id (includes (map candidate_id cs) i) row db.proposals_log refl h))
    ]

-- The batch to flush has exactly the snapshot's ids that were not selected.
flush_ids :
    (i : ℕ) (ids : List ℕ) (snapshot : List Candidate)
    → includes ids i ≡ false
    → includes (map candidate_id (to_flush ids snapshot)) i ≡ includes (map candidate_id snapshot) i
flush_ids i ids [] n = refl
flush_ids i ids (c ∷ cs) n = elim (Bool-cases (i == c.id)) [
  | inl same ↦
      rw (same, subst (λ k. includes ids k ≡ false) ((==_iff i c.id).0 same) n) (rw same refl)
  | inr other ↦ elim (Bool-cases (includes ids c.id)) [
    | inl chosen ↦ rw (other, chosen) (flush_ids i ids cs n)
    | inr left ↦ rw (other, left) (rw other (flush_ids i ids cs n))
  ]
]

both_none : (b : Bool) → (if◌then◌else◌ {A = Option Candidate} b none none) ≡ none
both_none true = refl
both_none false = refl

IsLogged-of :
    (i : ℕ) {b : Bool} (log : List ProposalRow)
    → b ≡ true
    → (b ≡ false) ⊎ IsLogged i log
    → IsLogged i log
IsLogged-of i log h (inl n) = absurd cc
IsLogged-of i log h (inr l) = l

solved :
    (i : ℕ) (fails : ℕ → Bool) (round : Round) (snapshot : List Candidate) (store : CandidateStore)
    (now : ℕ)
    → includes (map candidate_id snapshot) i ≡ true
    → fails i ≡ false
    → IsRecorded i round
    → let rest = to_flush round.selected_ids snapshot in
      (get i (remove_all (map candidate_id rest) (remove_all round.selected_ids store)) ≡ none)
      × IsLogged i (flush_all fails round.selected_order_uids now rest round.tables).proposals_log
solved i fails round snapshot store now h ok r =
    let rest = to_flush round.selected_ids snapshot in
    elim (Bool-cases (includes round.selected_ids i)) [
      | inl chosen ↦ (
        rw
            (
              get-remove_all i (map candidate_id rest) (remove_all round.selected_ids store),
              get-remove_all i round.selected_ids store,
              chosen,
            )
            (both_none (includes (map candidate_id rest) i)),
        flush-IsLogged i fails round.selected_order_uids now rest round.tables ok
            (inr (IsLogged-of i round.tables.proposals_log chosen r)),
      )
      | inr left ↦
          let listed = flush_ids i round.selected_ids snapshot left ∙ h in
          (
            rw
                (
                  get-remove_all i (map candidate_id rest) (remove_all round.selected_ids store),
                  listed,
                )
                refl,
            flush-IsLogged i fails round.selected_order_uids now rest round.tables ok (inl listed),
          )
    ]

-- Where the auction has an order: a candidate that the store holds for the auction, and whose write
-- to the log does not throw if it is flushed, has a log row after the call, and the store no longer
-- holds it.
pub solve_auction-IsLogged :
    (fails : ℕ → Bool) (a : AuctionInput) (o : AuctionOrder) (os : List AuctionOrder) (now i : ℕ)
    (store : CandidateStore) (db : Tables)
    → a.orders ≡ o ∷ os
    → includes (map candidate_id (snapshot_for_auction a.auction_id store)) i ≡ true
    → fails i ≡ false
    → (get i (solve_auction fails a now store db).0 ≡ none)
      × IsLogged i (solve_auction fails a now store db).1.proposals_log
unfolding solve_auction
solve_auction-IsLogged fails a o os now i store db e h ok =
    let snapshot = snapshot_for_auction a.auction_id store in
    let round = solve_orders a snapshot now a.orders (empty_round db) in
    let recorded = orders-IsRecorded a snapshot now i a.orders (empty_round db) (inl refl) in
    subst
      (λ l.
        (get i (solve_from fails a now store db l).0 ≡ none)
        × IsLogged i (solve_from fails a now store db l).1.proposals_log)
      (sym e) (solved i fails round snapshot store now h ok recorded)
