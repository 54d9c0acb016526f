-- ===== src/Store/Queries.antt =====
-- Which row of a key an ordered or filtered list has.
use byos_service_ts.Prelude.{
  ℕ, ◌≡◌, refl, ◌∙◌, Bool, true, none, some, List, [], ◌∷◌, filter, arith, ◌==◌, if◌then◌else◌,
  Bool-cases, inl, inr,
}
use byos_service_ts.Store.Table.{find, IsUnique, order_by, insert_by}

-- Ordering keeps what is found by a key.
module _ {A : Type 0} (key : A → ℕ) where
  pub find-insert_by :
      (i : ℕ) (a : A) (t : List A)
      → find key (key a) t ≡ none
      → find key i (insert_by key a t) ≡ (if i == key a then some a else find key i t)
  unfolding insert_by
  find-insert_by i a [] h = refl
  find-insert_by i a (r ∷ t) h = ground (arith, find-insert_by i a t)

  pub find-order_by :
      (i : ℕ) (t : List A) → IsUnique key t → find key i (order_by key t) ≡ find key i t
  unfolding order_by
  find-order_by i [] u = refl
  find-order_by i (r ∷ t) u =
      find-insert_by i r (order_by key t) (find-order_by (key r) t u.1 ∙ u.0)
      ∙ rw (find-order_by i t u.1) refl

  pub find-filter-none :
      (q : A → Bool) (i : ℕ) (t : List A) → find key i t ≡ none → find key i (filter q t) ≡ none
  find-filter-none q i [] h = refl
  find-filter-none q i (r ∷ t) h = ground (arith, find-filter-none q i t)

  pub find-filter :
      (q : A → Bool) (i : ℕ) (t : List A) (a : A)
      → find key i t ≡ some a
      → q a ≡ true
      → find key i (filter q t) ≡ some a
  find-filter q i [] a h e = h
  find-filter q i (r ∷ t) a h e = ground (arith, find-filter q i t a)

  pub filter-IsUnique : (q : A → Bool) (t : List A) → IsUnique key t → IsUnique key (filter q t)
  filter-IsUnique q [] u = tt
  filter-IsUnique q (r ∷ t) u = elim (Bool-cases (q r)) [
    | inl e ↦ rw e (find-filter-none q (key r) t u.0, filter-IsUnique q t u.1)
    | inr e ↦ rw e (filter-IsUnique q t u.1)
  ]
