-- ===== src/Store/Search/Pages.antt =====
-- The pages of a search.
use revolution.Prelude.{
  ℕ, zero, suc, ◌+◌, ◌*◌, ◌≤◌, ◌<◌, ◌≡◌, refl, sym, ap, ap₂, subst, lt_int, le_int, ◌||◌,
  Bool-cases, inl, inr, ◌∙◌, ℤ, pos, negsuc, Text, Bool, true, false, List, [], ◌∷◌, ◌++◌, map,
  arith, All, length, take, drop, length-take,
}
use mathlib.Core.List.{Perm}
use mathlib.Core.List.Permᴰ
use revolution.Store.Order.Ties.{NoTies, IsApart, sort_by-scanned, length-Permᴰ}
use revolution.Store.Order.{sort_by, IsOrdered, sort_by-perm, length-sort_by, sort_by-IsOrdered}
use revolution.Store.Db.{Db, TorrentRow, FtsRow}
use revolution.Store.Exec.{ok, World, query}
use revolution.Store.Torrents.Upsert.{NoFault}
use revolution.Store.Search.{
  Scan, page_limit, page_offset, summary, newer, candidates, page, search,
}

page_limit-le : (limit : ℤ) → page_limit limit ≤ 100
page_limit-le (pos n) = ground arith
page_limit-le (negsuc n) = omega arith

newer_asym : (x y : TorrentRow) → newer x y ≡ true → newer y x ≡ false
newer_asym x y h = ground arith

newer_trans : (x y z : TorrentRow) → newer x y ≡ false → newer y z ≡ false → newer x z ≡ false
newer_trans x y z h k = ground arith

module _ {A : Type 0} where
  All-take : (P : A → Type 0) (n : ℕ) (xs : List A) → All P xs → All P (take n xs)
  All-take P zero xs h = tt
  All-take P (suc n) [] h = tt
  All-take P (suc n) (x ∷ xs) h = (h.0, All-take P n xs h.1)

  IsOrdered-take :
      (before : A → A → Bool) (n : ℕ) (xs : List A)
      → IsOrdered before xs
      → IsOrdered before (take n xs)
  IsOrdered-take before zero xs h = tt
  IsOrdered-take before (suc n) [] h = tt
  IsOrdered-take before (suc n) (x ∷ xs) h = (All-take _ n xs h.0, IsOrdered-take before n xs h.1)

  IsOrdered-drop :
      (before : A → A → Bool) (n : ℕ) (xs : List A)
      → IsOrdered before xs
      → IsOrdered before (drop n xs)
  IsOrdered-drop before zero xs h = h
  IsOrdered-drop before (suc n) [] h = tt
  IsOrdered-drop before (suc n) (x ∷ xs) h = IsOrdered-drop before n xs h.1

  take-nil : (n : ℕ) → take {A = A} n [] ≡ []
  take-nil zero = refl
  take-nil (suc n) = refl

  take-add : (a b : ℕ) (xs : List A) → take (a + b) xs ≡ take a xs ++ take b (drop a xs)
  take-add zero b xs = ap (λ (n : ℕ). take n xs) (omega arith)
  take-add (suc a) b [] = take-nil (suc a + b) ∙ sym (take-nil b)
  take-add (suc a) b (x ∷ xs) =
      let sum : suc a + b ≡ suc (a + b) = omega arith in
      ap (λ (n : ℕ). take n (x ∷ xs)) sum ∙ ap (◌∷◌ x) (take-add a b xs)

  take_all : (n : ℕ) (xs : List A) → length xs ≤ n → take n xs ≡ xs
  take_all zero [] h = refl
  take_all zero (x ∷ xs) h = absurd (omega arith)
  take_all (suc n) [] h = refl
  take_all (suc n) (x ∷ xs) h = ap (◌∷◌ x) (take_all n xs (omega arith))

IsOrdered-is_take :
    {A : Type 0} (before : A → A → Bool) (n : ℕ) (xs ys : List A)
    → xs ≡ take n ys
    → IsOrdered before ys
    → IsOrdered before xs
IsOrdered-is_take before n xs ys e h =
    subst (IsOrdered before) (sym e) (IsOrdered-take before n ys h)

-- None was published after one that stands before it.
abbrev pub NewestFirst : List TorrentRow → Type 0
NewestFirst [] = Unit
NewestFirst (r ∷ rs) =
    All (λ (later : TorrentRow). le_int later.published_at r.published_at ≡ true) rs
    × NewestFirst rs

All-not_after :
    (r : TorrentRow) (rs : List TorrentRow)
    → All (λ (later : TorrentRow). newer later r ≡ false) rs
    → All (λ (later : TorrentRow). le_int later.published_at r.published_at ≡ true) rs
All-not_after r [] h = tt
All-not_after r (other ∷ rs) h = (ground (arith, h.0), All-not_after r rs h.1)

IsOrdered-NewestFirst : (rs : List TorrentRow) → IsOrdered newer rs → NewestFirst rs
IsOrdered-NewestFirst [] h = tt
IsOrdered-NewestFirst (r ∷ rs) h = (All-not_after r rs h.0, IsOrdered-NewestFirst rs h.1)

-- No two torrents were published at one time.
abbrev pub DifferentTimes : List TorrentRow → Type 0
DifferentTimes [] = Unit
DifferentTimes (r ∷ rs) =
    All (λ (other : TorrentRow). r.published_at ≡ other.published_at → ⊥) rs × DifferentTimes rs

same_time :
    (a b : TorrentRow) → newer a b ≡ false → newer b a ≡ false → a.published_at ≡ b.published_at
same_time a b h k = lt_int_antisym a.published_at b.published_at k h
  where
    lt_int_antisym : (x y : ℤ) → lt_int x y ≡ false → lt_int y x ≡ false → x ≡ y
    lt_int_antisym (pos x) (pos y) e f = ap pos (ground (arith, e, f))
    lt_int_antisym (pos x) (negsuc y) e f = cc
    lt_int_antisym (negsuc x) (pos y) e f = cc
    lt_int_antisym (negsuc x) (negsuc y) e f = ap negsuc (ground (arith, e, f))

apart : (a b : TorrentRow) → (a.published_at ≡ b.published_at → ⊥) → IsApart newer a b
apart a b h = elim (Bool-cases (newer a b || newer b a)) [
  | inl one_first ↦ one_first
  | inr tied ↦ absurd (h (same_time a b (ground (arith, tied)) (ground (arith, tied))))
]

All-IsApart :
    (a : TorrentRow) (rs : List TorrentRow)
    → All (λ (other : TorrentRow). a.published_at ≡ other.published_at → ⊥) rs
    → All (IsApart newer a) rs
All-IsApart a [] h = tt
All-IsApart a (r ∷ rs) h = (apart a r h.0, All-IsApart a rs h.1)

DifferentTimes-NoTies : (rs : List TorrentRow) → DifferentTimes rs → NoTies newer rs
DifferentTimes-NoTies [] h = tt
DifferentTimes-NoTies (r ∷ rs) h = (All-IsApart r rs h.0, DifferentTimes-NoTies rs h.1)

module _ (matches : Text → FtsRow → Bool) (scan : Scan) (q : Text) (n : ℕ) (db : Db) where
  -- The first pages of `n` torrents each, as they are asked for one after another.
  pub first_pages : ℕ → List TorrentRow
  first_pages zero = []
  first_pages (suc p) = first_pages p ++ page matches scan q (pos n) (pos (p * n)) db

module _ (matches : Text → FtsRow → Bool) (scan : Scan) (q : Text) where
  -- The torrents of a search, in the order in which the query returns them without LIMIT.
  abbrev pub sorted : ℤ → ℤ → Db → List TorrentRow
  sorted limit offset db = sort_by newer (scan.visit limit offset (candidates matches q db))

  pub length-sorted :
      (limit offset : ℤ) (db : Db)
      → length (sorted limit offset db) ≡ length (candidates matches q db)
  length-sorted limit offset db =
      length-sort_by newer (scan.visit limit offset (candidates matches q db))
      ∙ length-Permᴰ (scan.permutes limit offset (candidates matches q db))

  -- `Search` returns at most 100 torrents, the newest first.
  pub search-IsOrdered :
      (limit offset : ℤ) (w : World)
      → NoFault w
      → (rows : List TorrentRow) × ((search matches scan q limit offset w).0
          ≡ ok (map (summary w.db) rows))
        × (length rows ≤ 100)
        × IsOrdered newer rows
  unfolding search query
  search-IsOrdered limit offset w h =
      let all = sorted limit offset w.db in
      let rest = drop (page_offset offset) all in
      (
        page matches scan q limit offset w.db,
        rw (h w.step) refl,
        omega (arith, length-take (page_limit limit) rest, page_limit-le limit),
        IsOrdered-take newer (page_limit limit) rest (
            IsOrdered-drop newer (page_offset offset) all (
              sort_by-IsOrdered newer newer_asym newer_trans
                (scan.visit limit offset (candidates matches q w.db)))),
      )

  module _ (n : ℕ) (db : Db) (different : DifferentTimes (candidates matches q db)) where
    -- Without ties every query has one order.
    sorted_once :
        (limit offset : ℤ) → sorted limit offset db ≡ sort_by newer (candidates matches q db)
    sorted_once limit offset = sym (
        sort_by-scanned newer newer_asym newer_trans
          (Permᴰ.symm (scan.permutes limit offset (candidates matches q db)))
          (DifferentTimes-NoTies (candidates matches q db) different))

    first_pages-take :
        (p : ℕ)
        → 0 < n
        → n ≤ 100
        → first_pages matches scan q n db p ≡ take (p * n) (sort_by newer (candidates matches q db))
    unfolding first_pages
    first_pages-take zero lo hi =
        let none_yet : 0 ≡ 0 * n = omega arith in
        ap (λ (k : ℕ). take k (sort_by newer (candidates matches q db))) none_yet
    first_pages-take (suc p) lo hi =
        let all = sort_by newer (candidates matches q db) in
        let limit : page_limit (pos n) ≡ n = ground arith in
        let sum : p * n + n ≡ suc p * n = grind arith in
        ap₂ (λ (xs ys : List TorrentRow). xs ++ ys) (first_pages-take p lo hi)
          (ap (λ (xs : List TorrentRow). take (page_limit (pos n)) (drop (p * n) xs))
              (sorted_once (pos n) (pos (p * n)))
            ∙ ap (λ (k : ℕ). take k (drop (p * n) all)) limit)
        ∙ sym (take-add (p * n) n all)
        ∙ ap (λ (k : ℕ). take k all) sum

    -- Pages of 1 to 100 torrents that are asked for one after another have every torrent of the
    -- search once, as soon as they have room for all of them, and the newest first, if no two torrents of the search
    -- were published at one time.
    pub first_pages-Perm :
        (p : ℕ)
        → 0 < n
        → n ≤ 100
        → length (candidates matches q db) ≤ p * n
        → Perm (first_pages matches scan q n db p) (candidates matches q db)
          × NewestFirst (first_pages matches scan q n db p)
    first_pages-Perm p lo hi room =
        let found = candidates matches q db in
        let enough : length (sort_by newer found) ≤ p * n =
          omega (arith, length-sort_by newer found) in
        let taken = first_pages-take p lo hi in
        (
          subst (λ (xs : List TorrentRow). Perm xs found)
              (sym (taken ∙ take_all (p * n) (sort_by newer found) enough))
              (sort_by-perm newer found),
          IsOrdered-NewestFirst (first_pages matches scan q n db p) (
              IsOrdered-is_take newer (p * n) (first_pages matches scan q n db p)
                (sort_by newer found) taken (sort_by-IsOrdered newer newer_asym newer_trans found)),
        )
