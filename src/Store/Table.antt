-- ===== src/Store/Table.antt =====
-- Tables as lists of rows: the SQL statements that apps/byos/src/infra/storage.ts issues.
use byos_service_ts.Prelude.{
  ℕ, ◌≡◌, refl, Bool, true, false, not, Option, none, some, List, [], ◌∷◌, filter, arith, leb, ◌==◌,
  if◌then◌else◌, Bool-cases, inl, inr, true, false,
}

module _ {A : Type 0} where
  -- `UPDATE ... SET f WHERE p`
  abbrev pub update_where : (A → Bool) → (A → A) → List A → List A
  update_where p f [] = []
  update_where p f (r ∷ t) = (if p r then f r else r) ∷ update_where p f t

  -- `DELETE ... WHERE p`
  abbrev pub delete_where : (A → Bool) → List A → List A
  delete_where p t = filter (λ r. not (p r)) t

module _ {A : Type 0} (p : A → Bool) (f : A → A)
    (spent : (r : A) → p r ≡ true → p (f r) ≡ false) where
  spent_row : (r : A) → p (if p r then f r else r) ≡ false
  spent_row r = elim (Bool-cases (p r)) [ inl hit ↦ rw hit (spent r hit) | inr miss ↦ rw miss miss ]

  -- A statement whose rows then fail its own condition finds nothing the second time.
  pub filter-update_where : (t : List A) → filter p (update_where p f t) ≡ []
  filter-update_where [] = refl
  filter-update_where (r ∷ t) = rw (spent_row r) (filter-update_where t)

  pub update_where_twice :
      (g : A → A) (t : List A) → update_where p g (update_where p f t) ≡ update_where p f t
  update_where_twice g [] = refl
  update_where_twice g (r ∷ t) = rw (spent_row r, update_where_twice g t)

-- Rows with a primary key.
module _ {A : Type 0} (key : A → ℕ) where
  -- `SELECT ... WHERE id = i`, of which at most one row is read.
  abbrev pub find : ℕ → List A → Option A
  find i [] = none
  find i (r ∷ t) = if i == key r then some r else find i t

  -- `x?.f(...)`, on the row that was found.
  abbrev pub on_row : (A → A) → Option A → Option A
  on_row f none = none
  on_row f (some r) = some (f r)

  abbrev pub KeepsKey : (A → A) → Type 0
  KeepsKey f = (r : A) → key (f r) ≡ key r

  pub find-update_where :
      (p : A → Bool) (f : A → A)
      → KeepsKey f
      → (i : ℕ) (t : List A)
      → find i (update_where p f t) ≡ on_row (λ r. if p r then f r else r) (find i t)
  find-update_where p f k i [] = refl
  find-update_where p f k i (r ∷ t) = ground (arith, k r, find-update_where p f k i t)

  -- `DELETE ... WHERE id = k`
  pub find-delete :
      (k i : ℕ) (t : List A)
      → find i (delete_where (λ r. k == key r) t) ≡ (if i == k then none else find i t)
  find-delete k i [] = ground arith
  find-delete k i (r ∷ t) = ground (arith, find-delete k i t)

  -- `ORDER BY key`, ascending.
  unfoldable pub insert_by : A → List A → List A
  insert_by a [] = a ∷ []
  insert_by a (r ∷ t) = if leb (key a) (key r) then a ∷ r ∷ t else r ∷ insert_by a t

  unfoldable pub order_by : List A → List A
  unfolding insert_by
  order_by [] = []
  order_by (r ∷ t) = insert_by r (order_by t)

  -- No two rows have one key.
  abbrev pub IsUnique : List A → Type 0
  IsUnique [] = Unit {0}
  IsUnique (r ∷ t) = (find (key r) t ≡ none) × IsUnique t

  pub find-key : (i : ℕ) (t : List A) (r : A) → find i t ≡ some r → i ≡ key r
  find-key i [] r h = cc
  find-key i (x ∷ t) r h = ground (arith, find-key i t r)

  pub update_where-IsUnique :
      (p : A → Bool) (f : A → A)
      → KeepsKey f
      → (t : List A) → IsUnique t
      → IsUnique (update_where p f t)
  update_where-IsUnique p f k [] h = tt
  update_where-IsUnique p f k (r ∷ t) h =
      (ground (arith, k r, find-update_where p f k (key r) t), update_where-IsUnique p f k t h.1)

  pub delete-IsUnique :
      (k : ℕ) (t : List A) → IsUnique t → IsUnique (delete_where (λ r. k == key r) t)
  delete-IsUnique k [] h = tt
  delete-IsUnique k (r ∷ t) h = ground (arith, find-delete k (key r) t, delete-IsUnique k t h.1)
