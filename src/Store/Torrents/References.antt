-- ===== src/Store/Torrents/References.antt =====
-- The foreign keys of `torrent_files` and `torrent_stats`, and the row numbers of `torrents`.
use revolution.Prelude.{
  ℕ, ◌≤◌, ◌≡◌, ◌≢◌, refl, ℤ, Text, text_eq, eq_text, Bool, true, false, not, ◌||◌, none, List, [],
  ◌∷◌, arith, select, nat_eq, ==_iff, All, ◌∙◌,
}
use revolution.Store.Table.{find, upsert, update, IsUnique, find-upsert, find-update}
use revolution.Store.Db.{Torrent, TorrentRow, next_rowid, has_torrent}
use revolution.Store.Torrents.{torrent_key, new_row, merge_row, edit_row}

abbrev pub rowid_key : TorrentRow → ℕ
rowid_key r = r.rowid

-- The largest row number is below the next one.
find-next_rowid : (t : List TorrentRow) (k : ℕ) → next_rowid t ≤ k → find rowid_key k t ≡ none
find-next_rowid [] k h = refl
find-next_rowid (r ∷ rs) k h = ground (arith, find-next_rowid rs k, ==_iff r.rowid k)

module _ (r : TorrentRow) (m : TorrentRow → TorrentRow)
    (same : (x : TorrentRow) → (m x).rowid ≡ x.rowid) where
  find_rowid-upsert :
      (k : ℕ) (t : List TorrentRow)
      → find rowid_key k t ≡ none
      → k ≢ r.rowid
      → find rowid_key k (upsert torrent_key r m t) ≡ none
  find_rowid-upsert k [] h ne = ground (arith, ==_iff r.rowid k)
  find_rowid-upsert k (x ∷ xs) h ne =
      ground (arith, same x, find_rowid-upsert k xs, ==_iff x.rowid k, ==_iff (m x).rowid k)

  IsUnique-rowid-upsert :
      (t : List TorrentRow)
      → find rowid_key r.rowid t ≡ none
      → IsUnique rowid_key t
      → IsUnique rowid_key (upsert torrent_key r m t)
  IsUnique-rowid-upsert [] h u = (refl, tt)
  IsUnique-rowid-upsert (x ∷ xs) h u = ground (
    arith,
    same x,
    u,
    IsUnique-rowid-upsert xs,
    find_rowid-upsert x.rowid xs u.0,
    ==_iff x.rowid r.rowid,
  )

pub rowids-upsert :
    (t : Torrent) (ts : ℤ) (rows : List TorrentRow)
    → IsUnique rowid_key rows
    → IsUnique rowid_key (upsert torrent_key (new_row t ts (next_rowid rows)) (merge_row t ts) rows)
rowids-upsert t ts rows u =
    IsUnique-rowid-upsert (new_row t ts (next_rowid rows)) (merge_row t ts) (λ x. refl) rows
      (find-next_rowid rows (next_rowid rows) (omega arith)) u

module _ (id : Text) (f : TorrentRow → TorrentRow)
    (same : (x : TorrentRow) → (f x).rowid ≡ x.rowid) where
  find_rowid-update :
      (k : ℕ) (t : List TorrentRow)
      → find rowid_key k t ≡ none
      → find rowid_key k (update torrent_key id f t) ≡ none
  find_rowid-update k [] h = refl
  find_rowid-update k (x ∷ xs) h =
      ground (arith, same x, find_rowid-update k xs, ==_iff x.rowid k, ==_iff (f x).rowid k)

  pub rowids-update :
      (t : List TorrentRow) → IsUnique rowid_key t → IsUnique rowid_key (update torrent_key id f t)
  rowids-update [] u = tt
  rowids-update (x ∷ xs) u =
      ground (arith, same x, u, rowids-update xs u.1, find_rowid-update x.rowid xs u.0)

-- Which ids have a row, after each statement.
pub has_torrent-upsert :
    (t : Torrent) (ts : ℤ) (n : ℕ) (j : Text) (rows : List TorrentRow)
    → has_torrent j (upsert torrent_key (new_row t ts n) (merge_row t ts) rows)
      ≡ (eq_text t.id j || has_torrent j rows)
has_torrent-upsert t ts n j rows =
    ground (arith, find-upsert torrent_key (new_row t ts n) (merge_row t ts) j rows (λ x. refl))

pub has_torrent-update :
    (id title category : Text) (ts : ℤ) (j : Text) (rows : List TorrentRow)
    → has_torrent j (update torrent_key id (edit_row title category ts) rows) ≡ has_torrent j rows
has_torrent-update id title category ts j rows =
    ground (arith, find-update torrent_key id (edit_row title category ts) j rows (λ x. refl))

has_torrent-select :
    (p : TorrentRow → Bool) (j : Text) (rows : List TorrentRow)
    → has_torrent j rows ≡ true
    → has_torrent j (select p rows) ≡ false
    → has_torrent j (select (λ r. not (p r)) rows) ≡ true
has_torrent-select p j [] h k = cc
has_torrent-select p j (x ∷ xs) h k = ground (arith, has_torrent-select p j xs)

abbrev pub Owned : List TorrentRow → Text → Type 0
Owned rows id = has_torrent id rows ≡ true

-- Rows that a deletion's cascade spares still have their torrent.
pub cascade-Owned :
    {A : Type 0} (owner : A → Text) (p : TorrentRow → Bool) (rows : List TorrentRow) (xs : List A)
    → All (λ x. Owned rows (owner x)) xs
    → All
        (λ x. Owned (select (λ r. not (p r)) rows) (owner x))
        (select (λ x. not (has_torrent (owner x) (select p rows))) xs)
cascade-Owned owner p rows [] h = tt
cascade-Owned owner p rows (x ∷ xs) h =
    ground (arith, h, cascade-Owned owner p rows xs h.1, has_torrent-select p (owner x) rows h.0)

-- More ids lose no reference.
pub Owned-mono :
    {A : Type 0} (owner : A → Text) (s t : List TorrentRow) (xs : List A)
    → ((j : Text) → has_torrent j s ≡ true → has_torrent j t ≡ true)
    → All (λ x. Owned s (owner x)) xs
    → All (λ x. Owned t (owner x)) xs
Owned-mono owner s t [] m h = tt
Owned-mono owner s t (x ∷ xs) m h = (m (owner x) h.0, Owned-mono owner s t xs m h.1)

pub Owned-upsert :
    (t : Torrent) (ts : ℤ) (n : ℕ) (rows : List TorrentRow) (j : Text)
    → Owned rows j
    → Owned (upsert torrent_key (new_row t ts n) (merge_row t ts) rows) j
Owned-upsert t ts n rows j h = ground (arith, has_torrent-upsert t ts n j rows)

pub Owned-update :
    (id title category : Text) (ts : ℤ) (rows : List TorrentRow) (j : Text)
    → Owned rows j
    → Owned (update torrent_key id (edit_row title category ts) rows) j
Owned-update id title category ts rows j h = has_torrent-update id title category ts j rows ∙ h
