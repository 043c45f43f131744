-- ===== src/Store/Table/Unique.antt =====
-- A table's statements and its primary key.
use revolution.Prelude.{◌≡◌, refl, Bool, none, List, [], ◌∷◌, arith, Eq, select}
use revolution.Store.Table.{find, upsert, update, IsUnique, find-upsert, find-update}

module _ {A K : Type 0} ⦃e : Eq K⦄ (key : A → K) where
  pub find-select-none :
      (p : A → Bool) (k : K) (t : List A) → find key k t ≡ none → find key k (select p t) ≡ none
  find-select-none p k [] h = refl
  find-select-none p k (x ∷ xs) h = ground (arith, find-select-none p k xs)

  pub IsUnique-select : (p : A → Bool) (t : List A) → IsUnique key t → IsUnique key (select p t)
  IsUnique-select p [] h = tt
  IsUnique-select p (x ∷ xs) h =
      ground (arith, find-select-none p (key x) xs h.0, IsUnique-select p xs h.1)

  pub IsUnique-upsert :
      (r : A) (merge : A → A) (t : List A)
      → ((x : A) → key (merge x) ≡ key x)
      → IsUnique key t
      → IsUnique key (upsert key r merge t)
  IsUnique-upsert r merge [] m h = (refl, tt)
  IsUnique-upsert r merge (x ∷ xs) m h = ground (
    arith,
    m x,
    h,
    IsUnique-upsert r merge xs m h.1,
    find-upsert key r merge (key x) xs m,
    e.beq_iff (key x) (key r),
    e.beq_iff (key r) (key x),
  )

  pub IsUnique-update :
      (k : _) (f : A → A) (t : List A)
      → ((x : A) → key (f x) ≡ key x)
      → IsUnique key t
      → IsUnique key (update key k f t)
  IsUnique-update k f [] m h = tt
  IsUnique-update k f (x ∷ xs) m h = ground (
    arith,
    m x,
    IsUnique-update k f xs m h.1,
    find-update key k f (key x) xs m,
    e.beq_iff (key x) k,
  )
