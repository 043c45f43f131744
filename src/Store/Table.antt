-- ===== src/Store/Table.antt =====
-- A table with a primary key, as SQLite keeps it: its rows in the order of their insertion.
-- The statements of internal/store use it: lookup by key, upsert, update and delete by key.
pub mod Unique
use revolution.Prelude.{
  ℕ, ◌≡◌, refl, Bool, true, false, not, Option, none, some, List, [], ◌∷◌, arith, if◌then◌else◌, Eq,
  select, length, ◌+◌, ◌↔◌, ◌++◌, All,
}

module _ {A K : Type 0} ⦃e : Eq K⦄ (key : A → K) where
  -- SELECT … WHERE key = ?
  abbrev pub find : K → List A → Option A
  find k [] = none
  find k (x ∷ xs) = if e.beq (key x) k then some x else find k xs

  -- INSERT … ON CONFLICT(key) DO UPDATE: `merge` is the update of the row that is there.
  abbrev pub upsert : A → (A → A) → List A → List A
  upsert r merge [] = r ∷ []
  upsert r merge (x ∷ xs) = if e.beq (key x) (key r) then merge x ∷ xs else x ∷ upsert r merge xs

  -- UPDATE … WHERE key = ?
  abbrev pub update : K → (A → A) → List A → List A
  update k f [] = []
  update k f (x ∷ xs) = (if e.beq (key x) k then f x else x) ∷ update k f xs

  -- DELETE … WHERE key = ?
  abbrev pub delete : K → List A → List A
  delete k = select (λ x. not (e.beq (key x) k))

  -- The rows that such a statement affects.
  abbrev pub affected : K → List A → ℕ
  affected k t = length (select (λ x. e.beq (key x) k) t)

  -- The constraint PRIMARY KEY.
  abbrev pub IsUnique : List A → Type 0
  IsUnique [] = Unit
  IsUnique (x ∷ xs) = (find (key x) xs ≡ none) × IsUnique xs

  -- What an upsert leaves under its key.
  abbrev pub merged : A → (A → A) → Option A → A
  merged r merge none = r
  merged r merge (some x) = merge x

abbrev pub map_option : {A B : Type 0} → (A → B) → Option A → Option B
map_option f none = none
map_option f (some a) = some (f a)

-- Lookup after each statement, in `if` form.
module _ {A K : Type 0} ⦃e : Eq K⦄ (key : A → K) where
  pub find-upsert :
      (r : A) (merge : A → A) (j : K) (t : List A)
      → ((x : A) → key (merge x) ≡ key x)
      → find key j (upsert key r merge t)
        ≡ (if e.beq (key r) j then some (merged key r merge (find key (key r) t)) else find key j t)
  find-upsert r merge j [] h = ground arith
  find-upsert r merge j (x ∷ xs) h = ground (
    arith,
    h x,
    find-upsert r merge j xs h,
    e.beq_iff (key x) (key r),
    e.beq_iff (key x) j,
    e.beq_iff (key r) j,
    e.beq_iff (key (merge x)) j,
  )

  pub find-update :
      (k : K) (f : A → A) (j : K) (t : List A)
      → ((x : A) → key (f x) ≡ key x)
      → find key j (update key k f t)
        ≡ (if e.beq k j then map_option f (find key j t) else find key j t)
  find-update k f j [] h = ground arith
  find-update k f j (x ∷ xs) h = ground (
    arith,
    h x,
    find-update k f j xs h,
    e.beq_iff (key x) k,
    e.beq_iff (key x) j,
    e.beq_iff k j,
    e.beq_iff (key (f x)) j,
  )

  pub find-delete :
      (k j : K) (t : List A)
      → find key j (delete key k t) ≡ (if e.beq k j then none else find key j t)
  find-delete k j [] = ground arith
  find-delete k j (x ∷ xs) =
      ground (arith, find-delete k j xs, e.beq_iff (key x) k, e.beq_iff (key x) j, e.beq_iff k j)

  pub find-key : (k : K) (t : List A) (x : A) → find key k t ≡ some x → key x ≡ k
  find-key k [] x h = cc
  find-key k (y ∷ ys) x h = ground (arith, find-key k ys x, e.beq_iff (key y) k)
