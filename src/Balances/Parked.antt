-- ===== src/Balances/Parked.antt =====
-- Who is in the refresh set of apps/byos/src/infra/balance-cache.ts, and for how long.
use byos_service_ts.Prelude.{
  ℕ, suc, zero, ◌+◌, ◌-◌, ◌*◌, ◌≤◌, ◌<◌, ◌≡◌, ◌⊎◌, ◌∙◌, refl, sym, subst, true, false, Option, none,
  some, List, [], ◌∷◌, Text, text_eq, text_eq→eq, text_eq_refl, to_lower, length, leb, ltb, All,
  arith, Bool-cases, Option-cases, inl, inr,
}
use byos_service_ts.Balances.{
  BalanceKeys, RedisBalanceStoreOptions, comes_before, insert_scored, score_of, zrem, zadd, zadd_nx,
  live_value, or_enrol, lookup, BalanceEntry, record_one, record_all, drop_idle, drop, trim, evict,
}

score_of-insert_scored :
    (key : Text) (e : Text × ℕ) (xs : List (Text × ℕ))
    → text_eq e.0 key ≡ false
    → score_of key (insert_scored e xs) ≡ score_of key xs
unfolding score_of insert_scored
score_of-insert_scored key e [] other = rw other refl
score_of-insert_scored key e (x ∷ xs) other = elim (Bool-cases (comes_before x e)) [
  | inl h ↦ rw (h, score_of-insert_scored key e xs other) refl
  | inr h ↦ rw (h, other) refl
]

score_of-zrem :
    (key gone : Text) (xs : List (Text × ℕ))
    → text_eq gone key ≡ false
    → score_of key (zrem gone xs) ≡ score_of key xs
unfolding score_of zrem
score_of-zrem key gone [] other = refl
score_of-zrem key gone (x ∷ xs) other = elim (Bool-cases (text_eq x.0 gone)) [
  | inl h ↦
      let differs : text_eq x.0 key ≡ false =
        subst (λ t. text_eq t key ≡ false) (sym (text_eq→eq x.0 gone h)) other in
      rw (h, differs) (score_of-zrem key gone xs other)
  | inr h ↦ rw (h, score_of-zrem key gone xs other) refl
]

score_of-zrem_self : (key : Text) (xs : List (Text × ℕ)) → score_of key (zrem key xs) ≡ none
unfolding score_of zrem
score_of-zrem_self key [] = refl
score_of-zrem_self key (x ∷ xs) = elim (Bool-cases (text_eq x.0 key)) [
  | inl h ↦ rw h (score_of-zrem_self key xs)
  | inr h ↦ rw (h, h) (score_of-zrem_self key xs)
]

score_of-zadd :
    (key added : Text) (score : ℕ) (xs : List (Text × ℕ))
    → text_eq added key ≡ false
    → score_of key (zadd added score xs) ≡ score_of key xs
score_of-zadd key added score xs other =
    score_of-insert_scored key (added, score) (zrem added xs) other
    ∙ score_of-zrem key added xs other

score_of-zadd_nx :
    (key added : Text) (score : ℕ) (xs : List (Text × ℕ))
    → text_eq added key ≡ false
    → score_of key (zadd_nx added score xs) ≡ score_of key xs
score_of-zadd_nx key added score xs other = elim (Option-cases (score_of added xs)) [
  | inl e ↦ rw e (score_of-zadd key added score xs other)
  | inr (t, e) ↦ rw e refl
]

-- Out of the refresh set, with a negative entry until then.
record IsParked (key : Text) (balance until : ℕ) (k : BalanceKeys) : Type 0 where
  pub is_out : score_of key k.active ≡ none
  pub is_low : k.low key ≡ some (record { value = balance; expires_at = until })

-- The lookups of a sequence of requests, each with its time.
abbrev pub after_lookups : List (ℕ × Text) → BalanceKeys → BalanceKeys
after_lookups [] k = k
after_lookups ((now, address) ∷ ls) k = after_lookups ls (lookup now address k).1

or_enrol-IsParked :
    (key other : Text) (balance until now : ℕ) (low known : Option ℕ) (k : BalanceKeys)
    → text_eq other key ≡ false
    → IsParked key balance until k
    → IsParked key balance until (or_enrol now other low known k).1
or_enrol-IsParked key other balance until now (some b) known k differs h = h
or_enrol-IsParked key other balance until now none known k differs h = record {
  is_out = score_of-zadd key other now k.active differs ∙ h.is_out;
  is_low = h.is_low;
}

lookup-IsParked :
    (key address : Text) (balance until now : ℕ) (k : BalanceKeys)
    → now < until
    → IsParked key balance until k
    → IsParked key balance until (lookup now address k).1
unfolding lookup
lookup-IsParked key address balance until now k early h =
    elim (Bool-cases (text_eq (to_lower address) key)) [
      | inl e ↦
          let live : ltb now until ≡ true = ground arith in
          let same : to_lower address ≡ key = text_eq→eq (to_lower address) key e in
          let found : live_value now (k.low (to_lower address)) ≡ some balance =
            rw (same, h.is_low, live) refl in
          rw found h
      | inr e ↦ or_enrol-IsParked key (to_lower address) balance until now _ _ k e h
    ]

lookups-IsParked :
    (key : Text) (balance until : ℕ) (ls : List (ℕ × Text)) (k : BalanceKeys)
    → All (λ l. l.0 < until) ls
    → IsParked key balance until k
    → IsParked key balance until (after_lookups ls k)
lookups-IsParked key balance until [] k early h = h
lookups-IsParked key balance until ((now, address) ∷ ls) k (early, later) h =
    lookups-IsParked key balance until ls (lookup now address k).1 later
      (lookup-IsParked key address balance until now k early h)

-- An address whose balance was recorded below the floor is not in the refresh set while its
-- negative entry lives, whichever addresses the requests look up until then, its own included.
pub record_one-lookups :
    (options : RedisBalanceStoreOptions) (floor now : ℕ) (e : BalanceEntry) (k : BalanceKeys)
    (ls : List (ℕ × Text))
    → e.balance < floor
    → All (λ l. l.0 < now + options.negative_ttl_secs * 1000) ls
    → score_of (to_lower e.address) (after_lookups ls (record_one options floor now e k)).active
      ≡ none
unfolding record_one
record_one-lookups options floor now e k ls low early =
    let key = to_lower e.address in
    let below : leb floor e.balance ≡ false = ground arith in
    let parked : IsParked key e.balance (now + options.negative_ttl_secs * 1000)
        (record_one options floor now e k) =
      rw below (record {
        is_out = score_of-zrem_self key k.active;
        is_low = rw (text_eq_refl key) refl;
      }) in
    (lookups-IsParked key e.balance (now + options.negative_ttl_secs * 1000) ls
      (record_one options floor now e k) early parked).is_out

-- Another address's entry, or one at or above the floor.
abbrev pub IsFundedAt : ℕ → Text → BalanceEntry → Type 0
IsFundedAt floor key e = (text_eq (to_lower e.address) key ≡ false) ⊎ (floor ≤ e.balance)

record_one-keeps :
    (options : RedisBalanceStoreOptions) (floor now : ℕ) (key : Text) (t : ℕ) (e : BalanceEntry)
    (k : BalanceKeys)
    → IsFundedAt floor key e
    → score_of key k.active ≡ some t
    → score_of key (record_one options floor now e k).active ≡ some t
unfolding record_one
record_one-keeps options floor now key t e k (inl other) seen =
    elim (Bool-cases (leb floor e.balance)) [
      | inl h ↦ rw h (score_of-zadd_nx key (to_lower e.address) now k.active other ∙ seen)
      | inr h ↦ rw h (score_of-zrem key (to_lower e.address) k.active other ∙ seen)
    ]
record_one-keeps options floor now key t e k (inr funded) seen =
    let above : leb floor e.balance ≡ true = ground arith in
    elim (Bool-cases (text_eq (to_lower e.address) key)) [
      | inl own ↦
          let same : to_lower e.address ≡ key = text_eq→eq (to_lower e.address) key own in
          rw (above, same, seen) seen
      | inr other ↦ rw above (score_of-zadd_nx key (to_lower e.address) now k.active other ∙ seen)
    ]

-- A refresh does not count as being seen: an address of the refresh set whose recorded balances
-- are at or above the floor keeps the time at which it was last looked up, however often and with
-- whichever other balances it is recorded.
pub record_all-last_seen :
    (options : RedisBalanceStoreOptions) (floor now : ℕ) (key : Text) (t : ℕ)
    (es : List BalanceEntry) (k : BalanceKeys)
    → All (IsFundedAt floor key) es
    → score_of key k.active ≡ some t
    → score_of key (record_all options floor now es k).active ≡ some t
unfolding record_all
record_all-last_seen options floor now key t [] k funded seen = seen
record_all-last_seen options floor now key t (e ∷ es) k (first, others) seen =
    record_all-last_seen options floor now key t es (record_one options floor now e k) others
      (record_one-keeps options floor now key t e k first seen)

length-drop : (n : ℕ) (xs : List (Text × ℕ)) → length (drop n xs) ≡ length xs - n
length-drop zero xs = omega arith
length-drop (suc n) [] = omega arith
length-drop (suc n) (x ∷ xs) = length-drop n xs ∙ omega arith

-- An eviction leaves at most the given number of addresses in the refresh set.
pub evict-length :
    (now idle_secs max_size : ℕ) (k : BalanceKeys)
    → length (evict now idle_secs max_size k).1.active ≤ max_size
unfolding evict trim
evict-length now idle_secs max_size k =
    let xs = drop_idle now (idle_secs * 1000) k.active in
    let long : length (drop (length xs - max_size) xs) ≡ length xs - (length xs - max_size) =
      length-drop (length xs - max_size) xs in
    omega arith
